-- ===== src/TaskGraph/Placement.antt =====
-- Where src/frontend/src/lib/dag-layout.ts places the nodes: each once, and none over another.
use soren.Base.{
  text_Eq, ℕ, suc, ◌+◌, ◌*◌, ◌/◌, ◌%◌, ◌≤◌, ◌<◌, Bool, true, false, List, [], ◌∷◌, ◌++◌, Text,
  nat_eq, nat_eq_iff, nat_Eq, filter, length, or_else, has, lookup, put, ◌≡◌, refl, sym, ap, ◌∙◌,
  arith, Bool-cases, inl, inr, ◌⊎◌, All, All-append,
}
use soren.TaskGraph.{
  TaskDagNode, Placed, by_layer, subcolumns, layer_width, layer_base_x, place_layer, place_layers,
}

-- How many nodes pass a test
abbrev pub number : (TaskDagNode → Bool) → List TaskDagNode → ℕ
number p ns = length (filter p ns)

abbrev pub tasks_of : List Placed → List TaskDagNode
tasks_of [] = []
tasks_of (a ∷ placed) = a.task ∷ tasks_of placed

abbrev pub layer_nodes : List (ℕ × List TaskDagNode) → List TaskDagNode
layer_nodes [] = []
layer_nodes ((d, ns) ∷ layers) = ns ++ layer_nodes layers

tasks_of-append : (xs ys : List Placed) → tasks_of (xs ++ ys) ≡ tasks_of xs ++ tasks_of ys
tasks_of-append [] ys = refl
tasks_of-append (x ∷ xs) ys = ap (◌∷◌ x.task) (tasks_of-append xs ys)

tasks_of-place_layer : (base i : ℕ) (ns : List TaskDagNode) → tasks_of (place_layer base i ns) ≡ ns
tasks_of-place_layer base i [] = refl
tasks_of-place_layer base i (n ∷ ns) = ap (◌∷◌ n) (tasks_of-place_layer base (suc i) ns)

module _ (p : TaskDagNode → Bool) where
  number-append : (ms ns : List TaskDagNode) → number p (ms ++ ns) ≡ number p ms + number p ns
  number-append [] ns = omega arith
  number-append (m ∷ ms) ns = ground (arith, number-append ms ns)

  number-put :
      (d : ℕ) (ns : List TaskDagNode) (layers : List (ℕ × List TaskDagNode))
      → number p (layer_nodes (put d ns layers)) + number p (or_else (lookup d layers) [])
        ≡ number p (layer_nodes layers) + number p ns
  number-put d ns [] = ground (arith, number-append ns [])
  number-put d ns ((c, ms) ∷ layers) = ground (
    arith,
    number-put d ns layers,
    number-append ms (layer_nodes layers),
    number-append ns (layer_nodes layers),
    number-append ms (layer_nodes (put d ns layers)),
  )

  pub number-by_layer :
      (m : List (Text × ℕ)) (ns : List TaskDagNode) (layers : List (ℕ × List TaskDagNode))
      → number p (layer_nodes (by_layer m ns layers)) ≡ number p (layer_nodes layers) + number p ns
  number-by_layer m [] layers = omega arith
  number-by_layer m (n ∷ ns) layers =
      let d = or_else (lookup n.id m) 0 in
      let old = or_else (lookup d layers) [] in
      number-by_layer m ns (put d (old ++ n ∷ []) layers)
      ∙ ground (arith, number-put d (old ++ n ∷ []) layers, number-append old (n ∷ []))

  pub number-place_layers :
      (base : List (ℕ × ℕ)) (layers : List (ℕ × List TaskDagNode))
      → number p (tasks_of (place_layers base layers)) ≡ number p (layer_nodes layers)
  number-place_layers base [] = refl
  number-place_layers base ((d, ns) ∷ layers) =
      rw
        (
          tasks_of-append (place_layer (or_else (lookup d base) 0) 0 ns) (place_layers base layers),
          tasks_of-place_layer (or_else (lookup d base) 0) 0 ns,
        )
        (number-append ns (tasks_of (place_layers base layers))
          ∙ rw (number-place_layers base layers) (sym (number-append ns (layer_nodes layers))))

-- Boxes of 220 by 90 that do not overlap
abbrev pub Separated : Placed → Placed → Type 0
Separated a b = (a.x + 220 ≤ b.x) ⊎ ((b.x + 220 ≤ a.x) ⊎ ((a.y + 90 ≤ b.y) ⊎ (b.y + 90 ≤ a.y)))

abbrev pub Apart : List Placed → Type 0
Apart [] = Unit
Apart (a ∷ placed) = All (Separated a) placed × Apart placed

cells_apart :
    (base i j : ℕ)
    → i < j
    → (base + i / 8 * 220 + 220 ≤ base + j / 8 * 220)
      ⊎ ((base + j / 8 * 220 + 220 ≤ base + i / 8 * 220)
          ⊎ ((i % 8 * 90 + 90 ≤ j % 8 * 90) ⊎ (j % 8 * 90 + 90 ≤ i % 8 * 90)))
cells_apart base i j h = ground (arith, h)

-- The cells of one layer
layer_cells :
    (base i j : ℕ) (n : TaskDagNode) (ns : List TaskDagNode)
    → i < j
    → All
        (Separated (record { task = n; x = base + i / 8 * 220; y = i % 8 * 90 }))
        (place_layer base j ns)
layer_cells base i j n [] h = tt
layer_cells base i j n (m ∷ ns) h =
    (cells_apart base i j h, layer_cells base i (suc j) n ns (omega (arith, h)))

pub layer-Apart : (base i : ℕ) (ns : List TaskDagNode) → Apart (place_layer base i ns)
layer-Apart base i [] = tt
layer-Apart base i (n ∷ ns) =
    (layer_cells base i (suc i) n ns (omega arith), layer-Apart base (suc i) ns)

-- A layer lies between its base and its width.
abbrev pub Within : ℕ → ℕ → Placed → Type 0
Within from to a = (from ≤ a.x) × (a.x + 220 ≤ to)

pub layer-Within :
    (base i n : ℕ) (ns : List TaskDagNode)
    → i + length ns ≤ n
    → All (Within base (base + subcolumns n * 220)) (place_layer base i ns)
layer-Within base i n [] h = tt
layer-Within base i n (m ∷ ns) h =
    ((omega arith, ground (arith, h)), layer-Within base (suc i) n ns (omega (arith, h)))

module _ (layers : List (ℕ × List TaskDagNode)) where
  abbrev pub width : ℕ → ℕ
  width d = layer_width (or_else (lookup d layers) [])

  abbrev pub base_of : List ℕ → ℕ → ℕ → ℕ
  base_of ds x d = or_else (lookup d (layer_base_x ds layers x)) 0

  base_after : (ds : List ℕ) (x d : ℕ) → has d ds ≡ true → x ≤ base_of ds x d
  base_after [] x d h = cc
  base_after (c ∷ ds) x d h = ground (arith, h, base_after ds (x + width c) d)

  pub bases_apart :
      (ds : List ℕ) (x c d : ℕ)
      → has c ds ≡ true
      → has d ds ≡ true
      → nat_eq c d ≡ false
      → (base_of ds x c + width c ≤ base_of ds x d) ⊎ (base_of ds x d + width d ≤ base_of ds x c)
  bases_apart [] x c d h k e = cc
  bases_apart (b ∷ ds) x c d h k e = elim (Bool-cases (nat_eq b c)) [
    | inl p ↦ ground (
      arith,
      p,
      e,
      k,
      (nat_eq_iff b c).0 p,
      base_after ds (x + width b) d,
      ap width ((nat_eq_iff b c).0 p),
    )
    | inr p ↦ elim (Bool-cases (nat_eq b d)) [
      | inl q ↦
          ground (arith, p, q, h, base_after ds (x + width b) c, ap width ((nat_eq_iff b d).0 q))
      | inr q ↦ ground (
        arith,
        p,
        q,
        bases_apart ds (x + width b) c d (ground (arith, h, p)) (ground (arith, k, q)) e,
      )
    ]
  ]

-- Two blocks of cells, one of them to the left of the other
pub blocks_apart :
    (f g h k : ℕ) (xs ys : List Placed)
    → (g ≤ h) ⊎ (k ≤ f)
    → All (Within f g) xs
    → All (Within h k) ys
    → All (λ a. All (Separated a) ys) xs
blocks_apart f g h k [] ys o v w = tt
blocks_apart f g h k (a ∷ xs) ys o (p, v) w = (beside ys w, blocks_apart f g h k xs ys o v w)
  where
    beside : (ys : List Placed) → All (Within h k) ys → All (Separated a) ys
    beside [] w = tt
    beside (b ∷ ys) (q, w) = (ground (arith, o, p, q), beside ys w)

pub append-Apart :
    (xs ys : List Placed)
    → Apart xs
    → Apart ys
    → All (λ a. All (Separated a) ys) xs
    → Apart (xs ++ ys)
append-Apart [] ys p q h = q
append-Apart (a ∷ xs) ys (c, p) q (b, h) =
    (All-append (Separated a) xs ys c b, append-Apart xs ys p q h)

pub cross :
    (xs ys zs : List Placed)
    → All (λ a. All (Separated a) ys) xs
    → All (λ a. All (Separated a) zs) xs
    → All (λ a. All (Separated a) (ys ++ zs)) xs
cross [] ys zs h k = tt
cross (a ∷ xs) ys zs (p, h) (q, k) = (All-append (Separated a) ys zs p q, cross xs ys zs h k)
