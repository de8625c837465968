-- ===== src/Navigation/Paths.antt =====
-- Paths of files in the URL, in src/frontend/src/lib/navigation.ts.
use soren.Base.{
  ℕ, none, some, List, [], ◌∷◌, ◌++◌, append_assoc, append-nil, Text, codes, false, true, has,
  length, ◌<◌, nat_eq, nat_eq_iff, nat_Eq, text_Eq, ◌≡◌, ◌⊎◌, inl, inr, refl, sym, ap, ◌∙◌, arith,
  Bool-cases, Option-cases,
}
use soren.Summaries.{split_from, split, join_with}
use soren.Summaries.Lengths.{join-split_from}
use soren.Navigation.{Urls, map_each, route_file, decode_file_splat}

split_from-plain :
    (c : ℕ) (p q s : Text) → has c q ≡ false → split_from c p (q ++ s) ≡ split_from c (p ++ q) s
split_from-plain c p [] s h = ap (λ t. split_from c t s) (sym (append-nil p))
split_from-plain c p (d ∷ q) s h = elim (Bool-cases (nat_eq d c)) [
  | inl e ↦ ground (arith, h)
  | inr e ↦ rw e (
      split_from-plain c (p ++ d ∷ []) q s (ground (arith, h))
      ∙ ap (λ t. split_from c t s) (append_assoc p (d ∷ []) q))
]

-- No part holds the separator.
abbrev Plain : ℕ → List Text → Type 0
Plain c [] = Unit {0}
Plain c (part ∷ parts) = (has c part ≡ false) × Plain c parts

split-join :
    (c : ℕ) (p q : Text) (parts : List Text)
    → Plain c (q ∷ parts)
    → split_from c p (join_with c (q ∷ parts)) ≡ (p ++ q) ∷ parts
split-join c p q [] h = ap (split_from c p) (sym (append-nil q)) ∙ split_from-plain c p q [] h.0
split-join c p q (r ∷ parts) h =
    split_from-plain c p q (c ∷ join_with c (r ∷ parts)) h.0
    ∙ rw ((nat_eq_iff c c).1 refl) (ap (λ t. (p ++ q) ∷ t) (split-join c [] r parts h.1))

split_from-filled : (c : ℕ) (p s : Text) → 0 < length (split_from c p s)
split_from-filled c p [] = omega arith
split_from-filled c p (d ∷ s) = elim (Bool-cases (nat_eq d c)) [
  | inl e ↦ rw e (omega arith)
  | inr e ↦ rw e (split_from-filled c (p ++ d ∷ []) s)
]

module _ (urls : Urls)
    (decoded : (s e : Text)
      → urls.encode_uri_component s ≡ some e
      → urls.decode_uri_component e ≡ some s)
    (no_slash : (s e : Text) → urls.encode_uri_component s ≡ some e → has b'/' e ≡ false) where
  -- A part that cannot be encoded
  abbrev Unencodable : List Text → Type 0
  Unencodable parts =
      (part : Text) × (has part parts ≡ true) × (urls.encode_uri_component part ≡ none)

  -- Parts that are encoded, and decoded again
  abbrev Encodable : List Text → Type 0
  Encodable parts =
      (out : List Text) × (map_each urls.encode_uri_component parts ≡ some out)
      × Plain b'/' out
      × (map_each urls.decode_uri_component out ≡ some parts)

  extend :
      (part e : Text) (parts : List Text)
      → urls.encode_uri_component part ≡ some e
      → Encodable parts
      → Encodable (part ∷ parts)
  extend part e parts h (out, a, b, c) =
      (e ∷ out, rw h (rw a refl), (no_slash part e h, b), rw (decoded part e h) (rw c refl))

  map_each-cases :
      (parts : List Text)
      → (Unencodable parts × (map_each urls.encode_uri_component parts ≡ none)) ⊎ Encodable parts
  map_each-cases [] = inr ([], refl, tt, refl)
  map_each-cases (part ∷ parts) = elim (Option-cases (urls.encode_uri_component part)) [
    | inl e ↦ inl ((part, ground (arith, text_Eq.equal_iff part part), e), rw e refl)
    | inr (s, e) ↦ elim (map_each-cases parts) [
      | inl ((p, a, b), c) ↦ inl ((p, ground (arith, a), b), rw e (rw c refl))
      | inr f ↦ inr (extend part s parts e f)
    ]
  ]

  splat-back :
      (out parts : List Text)
      → Plain b'/' out
      → map_each urls.decode_uri_component out ≡ some parts
      → 0 < length parts
      → decode_file_splat urls (join_with b'/' out) ≡ some (join_with b'/' parts)
  unfolding decode_file_splat
  splat-back [] parts a b l = ground (arith, b)
  splat-back (q ∷ qs) parts a b l = rw (split-join b'/' [] q qs a) (rw b refl)

  -- If decoding undoes encoding, and what is encoded holds no slash, the URL of a file's path is
  -- "/files/" and a rest that decodes to that path; only a part that cannot be encoded makes the
  -- route of a path throw.
  pub file_splat_lem :
      (path : Text)
      → (Unencodable (split b'/' path) × (route_file urls path ≡ none))
        ⊎ ((splat : Text) × (route_file urls path ≡ some (codes "/files/" ++ splat))
            × (decode_file_splat urls splat ≡ some path))
  unfolding route_file
  file_splat_lem path = elim (map_each-cases (split b'/' path)) [
    | inl (a, b) ↦ inl (a, rw b refl)
    | inr (out, a, b, c) ↦ inr (
      join_with b'/' out,
      rw a refl,
      splat-back out (split b'/' path) b c (split_from-filled b'/' [] path)
          ∙ ap some (join-split_from b'/' [] path),
    )
  ]
