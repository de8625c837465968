-- ===== src/Stores/Activities.antt =====
-- src/frontend/src/stores/activityStore.ts: the activity feed, newest first, without duplicates.
-- `new Date(t).getTime()` is an argument.
pub mod Duplicates
use soren.Base.{
  ℕ, ◌≤◌, Bool, true, false, not, ◌&&◌, ◌||◌, List, [], ◌∷◌, ◌++◌, map, Text, codes, ◌≡◌, refl,
  ◌==◌, text_Eq, text_eq_iff, ltb, if◌then◌else◌, length, take, filter, has, sort, Distinct, Apart,
  arith, Bool-cases, take-Distinct, sort-Distinct, append-Distinct, length-take, inl, inr,
}

-- `MAX_ACTIVITIES` of src/frontend/src/lib/constants.ts
abbrev pub max_activities : ℕ
max_activities = 500

-- The payload `data` plays no part in the store, and stands as text.
pub record Activity : Type 0 where
  pub id : Text
  pub timestamp : Text
  pub kind : Text
  pub agent_id : Text
  pub payload : Text

-- `activityFingerprint`
unfoldable pub activity_fingerprint : Activity → Text
activity_fingerprint a = a.kind ++ codes "|" ++ a.agent_id ++ codes "|" ++ a.timestamp

abbrev pub id_of : Activity → Text
id_of a = a.id

-- `addActivity`
unfoldable pub add_activity : Activity → List Activity → List Activity
add_activity a activities =
    if has a.id (map id_of activities)
    then activities
    else if has (activity_fingerprint a) (map activity_fingerprint activities)
    then activities
    else take max_activities (a ∷ activities)

-- The loop of `addActivities`: the activities that are new, given the ids and fingerprints seen.
unfoldable pub collect : List Text → List Text → List Activity → List Activity
collect ids prints [] = []
collect ids prints (a ∷ rest) =
    let kept = a ∷ collect (a.id ∷ ids) (activity_fingerprint a ∷ prints) rest in
    let skipped = collect ids prints rest in
    if not (has a.id ids) && not (has (activity_fingerprint a) prints) then kept else skipped

abbrev pub is_empty {ℓ} : {A : Type ℓ} → List A → Bool
is_empty [] = true
is_empty (x ∷ xs) = false

module _ (get_time : Text → ℕ) where
  -- Newest first.
  abbrev pub is_older : Activity → Activity → Bool
  is_older a b = ltb (get_time a.timestamp) (get_time b.timestamp)

  -- `addActivities`
  unfoldable pub add_activities : List Activity → List Activity → List Activity
  add_activities incoming activities =
      let fresh = collect (map id_of activities) (map activity_fingerprint activities) incoming in
      if is_empty fresh
      then activities
      else take max_activities (sort is_older (fresh ++ activities))

pub data Action : Type 0 where
  add_one : Activity → Action
  add_many : List Activity → Action
  clear_activities : Action

unfoldable pub step : (Text → ℕ) → List Activity → Action → List Activity
step get_time activities (add_one a) = add_activity a activities
step get_time activities (add_many incoming) = add_activities get_time incoming activities
step get_time activities clear_activities = []

-- `getActivitiesByAgent`
unfoldable pub get_activities_by_agent : Text → List Activity → List Activity
get_activities_by_agent agent = filter (λ a. a.agent_id == agent)

pub record IsValid (activities : List Activity) : Type 0 where
  pub ids : Distinct (map id_of activities)
  pub prints : Distinct (map activity_fingerprint activities)
  pub bounded : length activities ≤ max_activities
