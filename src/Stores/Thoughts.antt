-- ===== src/Stores/Thoughts.antt =====
-- src/frontend/src/stores/thoughtStore.ts: the stream of thoughts, oldest first. The collation of
-- `localeCompare` is an argument: whether a text comes after another.
use soren.Base.{
  ℕ, ◌-◌, ◌≤◌, Bool, true, false, not, Option, List, [], ◌∷◌, ◌++◌, map, Text, ◌≡◌, refl, ◌==◌,
  text_Eq, text_eq_iff, if◌then◌else◌, length, take_last, filter, any, has, sort, Distinct, Apart,
  arith, Bool-cases, drop-Distinct, sort-Distinct, append-Distinct, filter-Distinct,
  length-take_last, inl, inr,
}

abbrev pub max_thoughts : ℕ
max_thoughts = 500

pub record Thought : Type 0 where
  pub id : Text
  pub agent_name : Text
  pub thought_type : Text
  pub content : Option Text
  pub tool_name : Option Text
  pub tool_input : Option Text
  pub tool_response : Option Text
  pub timestamp : Text

abbrev pub id_of : Thought → Text
id_of t = t.id

-- `addThought`
unfoldable pub add_thought : Thought → List Thought → List Thought
add_thought thought thoughts =
    if any (λ t. t.id == thought.id) thoughts
    then thoughts
    else take_last max_thoughts (thoughts ++ thought ∷ [])

abbrev pub is_empty {ℓ} : {A : Type ℓ} → List A → Bool
is_empty [] = true
is_empty (x ∷ xs) = false

-- `addThoughts`
unfoldable pub add_thoughts : (Text → Text → Bool) → List Thought → List Thought → List Thought
add_thoughts comes_after incoming thoughts =
    let unique = filter (λ t. not (has t.id (map id_of thoughts))) incoming in
    if is_empty unique
    then thoughts
    else take_last max_thoughts
        (sort (λ a b. comes_after a.timestamp b.timestamp) (thoughts ++ unique))

pub record IsValid (thoughts : List Thought) : Type 0 where
  pub ids : Distinct (map id_of thoughts)
  pub bounded : length thoughts ≤ max_thoughts

any_id :
    (k : Text) (thoughts : List Thought)
    → any (λ t. t.id == k) thoughts ≡ has k (map id_of thoughts)
any_id k [] = refl
any_id k (t ∷ ts) = ground (arith, any_id k ts)

Apart-one :
    (t : Thought) (xs : List Thought) → has t.id (map id_of xs) ≡ false → Apart id_of xs (t ∷ [])
Apart-one t [] h = tt
Apart-one t (x ∷ xs) h =
    ground (arith, Apart-one t xs, text_eq_iff x.id t.id, text_eq_iff t.id x.id)

-- A thought that arrives on its own never duplicates an id and never makes the stream too long.
pub add_thought-IsValid :
    (t : Thought) (thoughts : List Thought) → IsValid thoughts → IsValid (add_thought t thoughts)
unfolding add_thought
add_thought-IsValid t thoughts v = elim (Bool-cases (has t.id (map id_of thoughts))) [
  | inl e ↦ rw (any_id t.id thoughts, e) v
  | inr e ↦
      rw (any_id t.id thoughts, e)
        (record {
          ids =
              drop-Distinct id_of (length (thoughts ++ t ∷ []) - max_thoughts) (thoughts ++ t ∷ [])
                (append-Distinct id_of thoughts (t ∷ []) v.ids (refl, tt) (Apart-one t thoughts e));
          bounded = omega (arith, length-take_last max_thoughts (thoughts ++ t ∷ []));
        })
]

abbrev is_new : List Thought → Thought → Bool
is_new thoughts t = not (has t.id (map id_of thoughts))

filtered_out :
    (k : Text) (incoming thoughts : List Thought)
    → has k (map id_of thoughts) ≡ true
    → has k (map id_of (filter (is_new thoughts) incoming)) ≡ false
filtered_out k [] thoughts h = refl
filtered_out k (x ∷ xs) thoughts h =
    ground (arith, filtered_out k xs thoughts h, text_eq_iff x.id k)

Apart-new :
    (xs incoming thoughts : List Thought)
    → ((k : Text) → has k (map id_of xs) ≡ true → has k (map id_of thoughts) ≡ true)
    → Apart id_of xs (filter (is_new thoughts) incoming)
Apart-new [] incoming thoughts sub = tt
Apart-new (x ∷ xs) incoming thoughts sub = (
  filtered_out x.id incoming thoughts (sub x.id (ground (arith, text_eq_iff x.id x.id))),
  Apart-new xs incoming thoughts (λ k h. sub k (ground arith)),
)

merged-IsValid :
    (comes_after : Thought → Thought → Bool) (incoming thoughts : List Thought)
    → Distinct (map id_of incoming)
    → IsValid thoughts
    → IsValid
        (take_last max_thoughts (sort comes_after (thoughts ++ filter (is_new thoughts) incoming)))
merged-IsValid comes_after incoming thoughts d v =
    let all = thoughts ++ filter (is_new thoughts) incoming in
    record {
      ids =
          drop-Distinct id_of (length (sort comes_after all) - max_thoughts) (sort comes_after all)
            (sort-Distinct id_of comes_after all (
              append-Distinct id_of thoughts (filter (is_new thoughts) incoming) v.ids
                (filter-Distinct id_of (is_new thoughts) incoming d)
                (Apart-new thoughts incoming thoughts (λ k h. h))));
      bounded = omega (arith, length-take_last max_thoughts (sort comes_after all));
    }

-- A batch whose own ids are distinct, added to a stream of at most 500 thoughts with distinct ids,
-- never duplicates an id and never makes the stream too long, whatever part of it has arrived
-- before and however texts are collated.
pub add_thoughts-IsValid :
    (comes_after : Text → Text → Bool) (incoming thoughts : List Thought)
    → Distinct (map id_of incoming)
    → IsValid thoughts
    → IsValid (add_thoughts comes_after incoming thoughts)
unfolding add_thoughts
add_thoughts-IsValid comes_after incoming thoughts d v =
    elim (Bool-cases (is_empty (filter (is_new thoughts) incoming))) [
      | inl e ↦ rw e v
      | inr e ↦ rw e (merged-IsValid _ incoming thoughts d v)
    ]
