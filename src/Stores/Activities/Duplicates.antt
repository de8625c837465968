-- ===== src/Stores/Activities/Duplicates.antt =====
-- The feed of src/frontend/src/stores/activityStore.ts never holds an activity twice.
use soren.Base.{
  ℕ, Bool, true, false, ◌||◌, List, [], ◌∷◌, ◌++◌, map, Text, ◌≡◌, refl, text_Eq, text_eq_iff, take,
  has, sort, Distinct, Apart, arith, Bool-cases, take-Distinct, sort-Distinct, append-Distinct,
  length-take, inl, inr,
}
use soren.Stores.Activities.{
  max_activities, Activity, activity_fingerprint, id_of, add_activity, collect, is_empty, is_older,
  add_activities, Action, add_one, add_many, clear_activities, step, IsValid,
}

collect_avoids_id :
    (k : Text) (ids prints : List Text) (incoming : List Activity)
    → has k ids ≡ true
    → has k (map id_of (collect ids prints incoming)) ≡ false
unfolding collect
collect_avoids_id k ids prints [] h = refl
collect_avoids_id k ids prints (a ∷ rest) h = ground (
  arith,
  text_eq_iff a.id k,
  collect_avoids_id k (a.id ∷ ids) (activity_fingerprint a ∷ prints) rest,
  collect_avoids_id k ids prints rest h,
)

collect_avoids_print :
    (k : Text) (ids prints : List Text) (incoming : List Activity)
    → has k prints ≡ true
    → has k (map activity_fingerprint (collect ids prints incoming)) ≡ false
unfolding collect
collect_avoids_print k ids prints [] h = refl
collect_avoids_print k ids prints (a ∷ rest) h = ground (
  arith,
  text_eq_iff (activity_fingerprint a) k,
  collect_avoids_print k (a.id ∷ ids) (activity_fingerprint a ∷ prints) rest,
  collect_avoids_print k ids prints rest h,
)

has_self : (k : Text) (ks : List Text) → has k (k ∷ ks) ≡ true
has_self k ks = ground (arith, text_eq_iff k k)

-- The collected activities differ among themselves.
collect-Distinct :
    (ids prints : List Text) (incoming : List Activity)
    → Distinct (map id_of (collect ids prints incoming))
      × Distinct (map activity_fingerprint (collect ids prints incoming))
unfolding collect
collect-Distinct ids prints [] = (tt, tt)
collect-Distinct ids prints (a ∷ rest) =
    let ids' = a.id ∷ ids in
    let prints' = activity_fingerprint a ∷ prints in
    ground (
      arith,
      collect_avoids_id a.id ids' prints' rest (has_self a.id ids),
      collect_avoids_print (activity_fingerprint a) ids' prints' rest
          (has_self (activity_fingerprint a) prints),
      collect-Distinct ids' prints' rest,
      collect-Distinct ids prints rest,
    )

-- And from all whose ids and fingerprints had been seen.
collect-Apart :
    (old : List Activity) (ids prints : List Text) (incoming : List Activity)
    → ((k : Text) → has k ids ≡ false → has k (map id_of old) ≡ false)
    → ((k : Text) → has k prints ≡ false → has k (map activity_fingerprint old) ≡ false)
    → Apart id_of (collect ids prints incoming) old
      × Apart activity_fingerprint (collect ids prints incoming) old
unfolding collect
collect-Apart old ids prints [] si sp = (tt, tt)
collect-Apart old ids prints (a ∷ rest) si sp = ground (
  arith,
  si a.id,
  sp (activity_fingerprint a),
  collect-Apart old ids prints rest si sp,
  collect-Apart old (a.id ∷ ids) (activity_fingerprint a ∷ prints) rest (λ k h. si k (ground arith))
      (λ k h. sp k (ground arith)),
)

add_activity-IsValid :
    (a : Activity) (activities : List Activity)
    → IsValid activities
    → IsValid (add_activity a activities)
unfolding add_activity
add_activity-IsValid a activities v = elim (Bool-cases (has a.id (map id_of activities))) [
  | inl e ↦ rw e v
  | inr e ↦ elim (Bool-cases (has (activity_fingerprint a) (map activity_fingerprint activities))) [
    | inl f ↦ rw (e, f) v
    | inr f ↦
        rw (e, f)
          (record {
            ids = take-Distinct id_of max_activities (a ∷ activities) (e, v.ids);
            prints =
                take-Distinct activity_fingerprint max_activities (a ∷ activities) (f, v.prints);
            bounded = omega (arith, length-take max_activities (a ∷ activities));
          })
  ]
]

merged-IsValid :
    (after : Activity → Activity → Bool) (incoming activities : List Activity)
    → IsValid activities
    → IsValid (
        take max_activities (
          sort after (
            collect (map id_of activities) (map activity_fingerprint activities) incoming
            ++ activities)))
merged-IsValid after incoming activities v =
    let ids = map id_of activities in
    let prints = map activity_fingerprint activities in
    let fresh = collect ids prints incoming in
    let (di, dp) = collect-Distinct ids prints incoming in
    let (ai, ap') = collect-Apart activities ids prints incoming (λ k h. h) (λ k h. h) in
    record {
      ids = take-Distinct id_of max_activities (sort after (fresh ++ activities)) (
          sort-Distinct id_of after (fresh ++ activities)
            (append-Distinct id_of fresh activities di v.ids ai));
      prints =
          take-Distinct activity_fingerprint max_activities (sort after (fresh ++ activities)) (
            sort-Distinct activity_fingerprint after (fresh ++ activities)
              (append-Distinct activity_fingerprint fresh activities dp v.prints ap'));
      bounded = omega (arith, length-take max_activities (sort after (fresh ++ activities)));
    }

add_activities-IsValid :
    (get_time : Text → ℕ) (incoming activities : List Activity)
    → IsValid activities
    → IsValid (add_activities get_time incoming activities)
unfolding add_activities
add_activities-IsValid get_time incoming activities v =
    elim (Bool-cases
      (is_empty (collect (map id_of activities) (map activity_fingerprint activities) incoming))) [
        | inl e ↦ rw e v
        | inr e ↦ rw e (merged-IsValid (is_older get_time) incoming activities v)
      ]

-- Every action keeps the feed free of duplicates and bounded: whether activities arrive one by one
-- or in batches that hold duplicates, no id and no fingerprint occurs twice in it, and it holds at
-- most 500 of them.
pub activities-IsValid :
    (get_time : Text → ℕ) (activities : List Activity) (a : Action)
    → IsValid activities
    → IsValid (step get_time activities a)
unfolding step
activities-IsValid get_time activities (add_one a) v = add_activity-IsValid a activities v
activities-IsValid get_time activities (add_many incoming) v =
    add_activities-IsValid get_time incoming activities v
activities-IsValid get_time activities clear_activities v = record {
  ids = tt;
  prints = tt;
  bounded = omega arith;
}

abbrev seen : Activity → List Activity → Bool
seen a activities =
    has a.id (map id_of activities)
    || has (activity_fingerprint a) (map activity_fingerprint activities)

add_activity_of_seen :
    (a : Activity) (activities : List Activity)
    → seen a activities ≡ true
    → add_activity a activities ≡ activities
unfolding add_activity
add_activity_of_seen a activities h = elim (Bool-cases (has a.id (map id_of activities))) [
  | inl e ↦ rw e refl
  | inr e ↦
      let print : has (activity_fingerprint a) (map activity_fingerprint activities) ≡ true =
        rw e at h in
      rw (e, print) refl
]

add_activity-seen :
    (a : Activity) (activities : List Activity) → seen a (add_activity a activities) ≡ true
unfolding add_activity
add_activity-seen a activities = elim (Bool-cases (has a.id (map id_of activities))) [
  | inl e ↦ rw (e, e) refl
  | inr e ↦ elim (Bool-cases (has (activity_fingerprint a) (map activity_fingerprint activities))) [
    | inl f ↦ rw (e, f, e, f) refl
    | inr f ↦ rw (e, f, (text_eq_iff a.id a.id).1 refl) refl
  ]
]

-- Delivering an activity a second time changes nothing.
pub add_activity_idempotent :
    (a : Activity) (activities : List Activity)
    → add_activity a (add_activity a activities) ≡ add_activity a activities
add_activity_idempotent a activities =
    add_activity_of_seen a (add_activity a activities) (add_activity-seen a activities)
