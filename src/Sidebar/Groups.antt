-- ===== src/Sidebar/Groups.antt =====
-- What grouping by project promises: the bucket of a project, the agents of a group, and that no
-- group is listed twice.
use soren.Base.{
  Bool, true, false, not, ◌&&◌, ◌||◌, Option, none, some, List, [], ◌∷◌, ◌++◌, map, Text, ◌≡◌, refl,
  inl, inr, ◌∙◌, ap, sym, ◌==◌, text_Eq, text_eq_iff, nat_Eq, or_else, is_some, has, filter, lookup,
  put, lookup-put, append-nil, Distinct, Bool-cases, append_assoc, arith,
}
use soren.Stores.Agents.{Agent}
use soren.Sidebar.{
  Project, ProjectGroupData, project_of, fill_projects, by_project, group_of, groups_from,
  group_agents_by_project, no_agents, fold_synthetic, ordered_ids, system_id, registered,
}

fill_projects-bucket :
    (k : Text) (agents : List Agent) (found : List (Text × List Agent))
    → or_else (lookup k (fill_projects agents found)) []
      ≡ or_else (lookup k found) [] ++ filter (λ a. project_of a == k) agents
unfolding fill_projects
fill_projects-bucket k [] found = sym (append-nil _)
fill_projects-bucket k (a ∷ rest) found =
    let p = project_of a in
    let old = or_else (lookup p found) [] in
    fill_projects-bucket k rest (put p (old ++ a ∷ []) found)
    ∙ rw (lookup-put p k (old ++ a ∷ []) found) (elim (Bool-cases (p == k)) [
      | inl e ↦
          let same : p ≡ k = (text_eq_iff p k).0 e in
          rw (e, append_assoc)
            (ap (λ j. or_else (lookup j found) [] ++ (a ∷ filter (λ b. project_of b == k) rest))
              same)
      | inr e ↦ rw e refl
    ])

-- An agent is in the bucket of its own project and in no other, once, and the agents of a bucket
-- stand in the order given.
pub by_project_lem :
    (k : Text) (agents : List Agent)
    → or_else (lookup k (by_project agents)) [] ≡ filter (λ a. project_of a == k) agents
by_project_lem k agents = fill_projects-bucket k agents []

abbrev pub ids_of : List ProjectGroupData → List Text
ids_of gs = map (λ g. g.id) gs

has_later : (b c : Bool) → c ≡ true → (b || c) ≡ true
has_later b c h = ground arith

apart_of_seen :
    (k id : Text) (seen : List Text) → has k seen ≡ true → has id seen ≡ false → (id == k) ≡ false
apart_of_seen k id seen h e = elim (Bool-cases (id == k)) [
  | inl same ↦ cc ((text_eq_iff id k).0 same, h, e)
  | inr other ↦ other
]

module _ (after : Text → Text → Bool) (projects : List Project)
    (found : List (Text × List Agent)) where
  -- An empty group is skipped if its project is neither the system's nor registered.
  abbrev is_skipped : Text → Bool
  is_skipped id =
      no_agents (or_else (lookup id found) [])
      && not (id == system_id projects)
      && not (is_some (lookup id (registered projects)))

  groups_from-unseen :
      (k : Text) (seen ids : List Text)
      → has k seen ≡ true
      → has k (ids_of (groups_from after projects found seen ids)) ≡ false
  unfolding groups_from group_of
  groups_from-unseen k seen [] h = refl
  groups_from-unseen k seen (id ∷ ids) h = elim (Bool-cases (has id seen)) [
    | inl e ↦ rw e (groups_from-unseen k seen ids h)
    | inr e ↦
        let later = groups_from-unseen k (id ∷ seen) ids (has_later (id == k) _ h) in
        elim (Bool-cases (is_skipped id)) [
          | inl f ↦ rw (e, f) later
          | inr f ↦ rw (e, f, apart_of_seen k id seen h e) later
        ]
  ]

  groups_from-Distinct :
      (seen ids : List Text) → Distinct (ids_of (groups_from after projects found seen ids))
  unfolding groups_from group_of
  groups_from-Distinct seen [] = tt
  groups_from-Distinct seen (id ∷ ids) = elim (Bool-cases (has id seen)) [
    | inl e ↦ rw e (groups_from-Distinct seen ids)
    | inr e ↦ elim (Bool-cases (is_skipped id)) [
      | inl f ↦ rw (e, f) (groups_from-Distinct (id ∷ seen) ids)
      | inr f ↦
          rw (e, f)
            (
              groups_from-unseen id (id ∷ seen) ids (rw ((text_eq_iff id id).1 refl) refl),
              groups_from-Distinct (id ∷ seen) ids,
            )
    ]
  ]

abbrev pub head : List Text → Option Text
head [] = none
head (x ∷ xs) = some x

skip_false : (a c : Bool) → (a && not true && c) ≡ false
skip_false a c = ground arith

-- No project has two groups, and the first group is the system's, whatever agents and projects
-- there are.
pub group_agents_lem :
    (after : Text → Text → Bool) (agents : List Agent) (projects : List Project)
    → Distinct (ids_of (group_agents_by_project after agents projects))
      × (head (ids_of (group_agents_by_project after agents projects)) ≡ some (system_id projects))
unfolding group_agents_by_project
group_agents_lem after agents projects = (
  groups_from-Distinct after projects (fold_synthetic (system_id projects) (by_project agents)) []
      (ordered_ids after projects (by_project agents)),
  unfold ordered_ids groups_from group_of in
      (rw ((text_eq_iff (system_id projects) (system_id projects)).1 refl, skip_false) refl),
)
