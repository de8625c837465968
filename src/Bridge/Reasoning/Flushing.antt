-- ===== src/Bridge/Reasoning/Flushing.antt =====
-- What flushing a session's reasoning posts, in .opencode/plugins/soren-bridge.ts.
use soren.Base.{
  false, ◌&&◌, some, List, [], ◌∷◌, ◌++◌, append-nil, append_assoc, Text, ◌==◌, text_Eq,
  text_eq_iff, if◌then◌else◌, keys, has, lookup, lookup-erase, Distinct, All, ◌≡◌, sym, ap, ◌∙◌,
  arith, Bool-cases, inl, inr,
}
use soren.Bridge.Settings.{not_empty}
use soren.Bridge.Delivery.{truncate}
use soren.Bridge.Reasoning.{Entry, Buffer, content_of, flush_entry, flush_listed, flush_session}

-- The texts that wait for a session, as they are to be posted
abbrev pub waiting : Text → List (Text × Entry) → List Text
waiting session [] = []
waiting session ((key, e) ∷ entries) =
    if (e.session == session) && not_empty e.text
    then truncate e.text 2000 ∷ waiting session entries
    else waiting session entries

-- The buffer still holds each of the listed entries.
abbrev Holds : Buffer → List (Text × Entry) → Type 0
Holds b = All (λ x. lookup x.0 b.entries ≡ some x.1)

flush_entry-Holds :
    (key : Text) (b : Buffer) (rest : List (Text × Entry))
    → has key (keys rest) ≡ false
    → Holds b rest
    → Holds (flush_entry key b) rest
unfolding flush_entry
flush_entry-Holds key b [] h k = tt
flush_entry-Holds key b ((j, e) ∷ rest) h (k, ks) = (
  lookup-erase key j b.entries ∙ ground (arith, h, k, text_eq_iff key j, text_eq_iff j key),
  flush_entry-Holds key b rest (ground (arith, h)) ks,
)

waiting-cons :
    (session key : Text) (e : Entry) (rest : List (Text × Entry))
    → (if e.session == session then content_of (some e) else []) ++ waiting session rest
      ≡ waiting session ((key, e) ∷ rest)
waiting-cons session key e rest = ground arith

flush_entry-posted :
    (key : Text) (e : Entry) (b : Buffer)
    → lookup key b.entries ≡ some e
    → (flush_entry key b).posted ≡ b.posted ++ content_of (some e)
unfolding flush_entry
flush_entry-posted key e b h = ap (λ o. b.posted ++ content_of o) h

flush_listed-posted :
    (session : Text) (rest : List (Text × Entry)) (b : Buffer)
    → Distinct (keys rest)
    → Holds b rest
    → (flush_listed session rest b).posted ≡ b.posted ++ waiting session rest
unfolding flush_listed
flush_listed-posted session [] b d h = sym (append-nil b.posted)
flush_listed-posted session ((key, e) ∷ rest) b (d, ds) (h, hs) =
    elim (Bool-cases (e.session == session)) [
      | inl c ↦
          ap (λ x. (flush_listed session rest (if x then flush_entry key b else b)).posted) c
          ∙ flush_listed-posted session rest (flush_entry key b) ds
              (flush_entry-Holds key b rest d hs)
          ∙ ap (λ t. t ++ waiting session rest) (flush_entry-posted key e b h)
          ∙ append_assoc b.posted (content_of (some e)) (waiting session rest)
          ∙ ap (λ x. b.posted ++ ((if x then content_of (some e) else []) ++ waiting session rest))
              (sym c)
          ∙ ap (λ t. b.posted ++ t) (waiting-cons session key e rest)
      | inr c ↦
          ap (λ x. (flush_listed session rest (if x then flush_entry key b else b)).posted) c
          ∙ flush_listed-posted session rest b ds hs
          ∙ ap (λ x. b.posted ++ ((if x then content_of (some e) else []) ++ waiting session rest))
              (sym c)
          ∙ ap (λ t. b.posted ++ t) (waiting-cons session key e rest)
    ]

lookup-behind :
    (key : Text) (e : Entry) (xs m : List (Text × Entry))
    → has key (keys xs) ≡ false
    → All (λ x. lookup x.0 m ≡ some x.1) xs
    → All (λ x. lookup x.0 ((key, e) ∷ m) ≡ some x.1) xs
lookup-behind key e [] m h a = tt
lookup-behind key e ((j, f) ∷ xs) m h (a, as') = (
  ground (arith, h, a, text_eq_iff key j, text_eq_iff j key),
  lookup-behind key e xs m (ground (arith, h)) as',
)

Distinct-Holds :
    (entries : List (Text × Entry))
    → Distinct (keys entries)
    → All (λ x. lookup x.0 entries ≡ some x.1) entries
Distinct-Holds [] d = tt
Distinct-Holds ((key, e) ∷ entries) (d, ds) = (
  ground (arith, text_eq_iff key key),
  lookup-behind key e entries entries d (Distinct-Holds entries ds),
)

-- Flushing a session posts exactly what waits for it, in order.
pub flush_session-posted :
    (session : Text) (b : Buffer)
    → Distinct (keys b.entries)
    → (flush_session session b).posted ≡ b.posted ++ waiting session b.entries
unfolding flush_session
flush_session-posted session b d =
    flush_listed-posted session b.entries b d (Distinct-Holds b.entries d)
