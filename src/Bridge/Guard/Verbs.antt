-- ===== src/Bridge/Guard/Verbs.antt =====
-- Commands in which a text that writes, or a protected name, stands behind a separator, as the write
-- guard of .opencode/plugins/soren-bridge.ts finds them.
use soren.Base.{
  ℕ, Bool, true, Option, none, some, [], ◌∷◌, ◌++◌, Text, codes, ◌≡◌, refl, ◌⊎◌, inl, inr, text_Eq,
  arith, All, In, List, append_assoc, subst,
}
use soren.Bridge.Regex.{seq, either, test, run, run_literal, run_many, Regex, unit, start}
use soren.Bridge.Regex.Laws.{last_of, run_sound, test_from_behind}
use soren.Bridge.Guard.{writey, mentions_protected, write_verb, protected_name}

-- Texts that write when they stand in a command, and the names of what is protected
abbrev pub writing_verbs : List Text
writing_verbs =
    codes ">"
    ∷ codes "sed -i"
    ∷ codes "tee "
    ∷ codes "mv "
    ∷ codes "cp "
    ∷ codes "rm "
    ∷ codes "chmod "
    ∷ codes "truncate "
    ∷ codes "git checkout "
    ∷ codes "git restore "
    ∷ []

abbrev pub protected_names : List Text
protected_names =
    codes "src/orchestrator/"
    ∷ codes ".opencode/plugins/"
    ∷ codes ".opencode/hooks/"
    ∷ codes "tools/lib/opencode.sh"
    ∷ codes "soren.sh"
    ∷ []

abbrev pub verb_separators : Text
verb_separators = 9 ∷ 10 ∷ codes " |;&"

abbrev pub name_separators : Text
name_separators = 9 ∷ 10 ∷ codes " /'\"="

-- What comes before is nothing, or ends with a separator.
abbrev pub StandsBehind : Text → Text → Type 0
StandsBehind separators before =
    (before ≡ []) ⊎ ((p : Text) × (c : ℕ) × In c separators × (before ≡ p ++ c ∷ []))

of_all {κ} : {A : Type 0} (P : A → Type κ) (a : A) (xs : List A) → All P xs → In a xs → P a
of_all P a [] ps h = elim h [ ]
of_all P a (x ∷ xs) (p, ps) (inl e) = subst P e p
of_all P a (x ∷ xs) (p, ps) (inr h) = of_all P a xs ps h

-- An expression that matches a text wherever it stands is found behind a separator or at the start.
test-behind :
    (separates : ℕ → Bool) (r : Regex) (separators before q : Text)
    → All (λ c. separates c ≡ true) separators
    → ((b : Option ℕ) → run r b q (λ c t. true) ≡ true)
    → StandsBehind separators before
    → test (seq (either start (unit separates)) r) (before ++ q) ≡ true
unfolding test run
test-behind separates r separators before q all found (inl e) =
    let (c, t, m, _) =
      run_sound (seq (either start (unit separates)) r) none q (λ c t. true)
        (rw (found none) refl) in
    rw e (test_from_behind _ none [] q m)
test-behind separates r separators before q all found (inr (p, c, h, e)) =
    let sep = of_all _ c separators all h in
    let (d, t, m, _) =
      run_sound (seq (either start (unit separates)) r) (last_of none p) (c ∷ q) (λ c t. true)
        (rw (sep, found (some c)) (ground arith)) in
    rw (e, append_assoc p (c ∷ []) q) (test_from_behind _ none p (c ∷ q) m)

-- The expression matches the text, whatever stands before.
abbrev FoundBefore : Text → Regex → Text → Type 0
FoundBefore after r t = (b : Option ℕ) → run r b (t ++ after) (λ c u. true) ≡ true

pub writey-test :
    (before verb after : Text)
    → In verb writing_verbs
    → StandsBehind verb_separators before
    → test writey (before ++ (verb ++ after)) ≡ true
unfolding run run_literal run_many
writey-test before verb after v s =
    test-behind _ write_verb verb_separators before (verb ++ after)
      (refl, (refl, (refl, (refl, (refl, (refl, tt))))))
      (of_all (FoundBefore after write_verb) verb writing_verbs found v) s
  where
    found : All (FoundBefore after write_verb) writing_verbs
    found = (
      λ b. ground arith,
      (
        λ b. refl,
        (
          λ b. refl,
          (
            λ b. refl,
            (λ b. refl, (λ b. refl, (λ b. refl, (λ b. refl, (λ b. refl, (λ b. refl, tt)))))),
          ),
        ),
      ),
    )

pub mentions_protected-test :
    (before name after : Text)
    → In name protected_names
    → StandsBehind name_separators before
    → test mentions_protected (before ++ (name ++ after)) ≡ true
unfolding run run_literal
mentions_protected-test before name after v s =
    test-behind _ protected_name name_separators before (name ++ after)
      (refl, (refl, (refl, (refl, (refl, (refl, (refl, tt)))))))
      (of_all (FoundBefore after protected_name) name protected_names
        (λ b. refl, (λ b. refl, (λ b. refl, (λ b. refl, (λ b. refl, tt))))) v)
      s
