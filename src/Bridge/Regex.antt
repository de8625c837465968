-- ===== src/Bridge/Regex.antt =====
-- The part of JavaScript's regular expressions that .opencode/plugins/soren-bridge.ts writes, with
-- `.test` on a text. A position is the code unit before it, if any, and the text after it.
pub mod Laws
use soren.Base.{
  ℕ, Bool, true, false, not, ◌&&◌, ◌||◌, Option, none, some, List, [], ◌∷◌, ◌++◌, Text, nat_eq, leb,
  codes, String,
}

pub data Regex : Type 0 where
  unit : (ℕ → Bool) → Regex
  literal : Text → Regex
  seq : Regex → Regex → Regex
  either : Regex → Regex → Regex
  maybe : Regex → Regex
  many : (ℕ → Bool) → Regex
  start finish boundary : Regex

-- `\w`
abbrev pub is_word : ℕ → Bool
is_word c =
    (leb b'a' c && leb c b'z')
    || (leb b'A' c && leb c b'Z')
    || (leb b'0' c && leb c b'9')
    || nat_eq c b'_'

-- `\s`: white space and line terminators
abbrev pub is_space : ℕ → Bool
is_space c =
    nat_eq c 32
    || (leb 9 c && leb c 13)
    || nat_eq c 0xa0
    || nat_eq c 0x1680
    || (leb 0x2000 c && leb c 0x200a)
    || nat_eq c 0x2028
    || nat_eq c 0x2029
    || nat_eq c 0x202f
    || nat_eq c 0x205f
    || nat_eq c 0x3000
    || nat_eq c 0xfeff

abbrev pub one_of : Text → ℕ → Bool
one_of [] c = false
one_of (d ∷ s) c = nat_eq d c || one_of s c

abbrev pub word_before : Option ℕ → Bool
word_before none = false
word_before (some c) = is_word c

abbrev pub word_after : Text → Bool
word_after [] = false
word_after (c ∷ s) = is_word c

abbrev pub differ : Bool → Bool → Bool
differ true b = not b
differ false b = b

abbrev pub is_start : Option ℕ → Bool
is_start none = true
is_start (some c) = false

abbrev pub is_end : Text → Bool
is_end [] = true
is_end (c ∷ s) = false

unfoldable pub run_literal : Text → Option ℕ → Text → (Option ℕ → Text → Bool) → Bool
run_literal [] b s k = k b s
run_literal (c ∷ p) b [] k = false
run_literal (c ∷ p) b (d ∷ s) k = nat_eq c d && run_literal p (some d) s k

unfoldable pub run_many : (ℕ → Bool) → Option ℕ → Text → (Option ℕ → Text → Bool) → Bool
run_many p b [] k = k b []
run_many p b (c ∷ s) k = (p c && run_many p (some c) s k) || k b (c ∷ s)

-- Whether some match from a position ends where `k` holds.
unfoldable pub run : Regex → Option ℕ → Text → (Option ℕ → Text → Bool) → Bool
unfolding run_literal run_many
run (unit p) b [] k = false
run (unit p) b (c ∷ s) k = p c && k (some c) s
run (literal t) b s k = run_literal t b s k
run (seq r q) b s k = run r b s (λ c t. run q c t k)
run (either r q) b s k = run r b s k || run q b s k
run (maybe r) b s k = run r b s k || k b s
run (many p) b s k = run_many p b s k
run start b s k = is_start b && k b s
run finish b s k = is_end s && k b s
run boundary b s k = differ (word_before b) (word_after s) && k b s

unfoldable pub test_from : Regex → Option ℕ → Text → Bool
unfolding run
test_from r b [] = run r b [] (λ c t. true)
test_from r b (c ∷ s) = run r b (c ∷ s) (λ d t. true) || test_from r (some c) s

-- `r.test(s)`
unfoldable pub test : Regex → Text → Bool
unfolding test_from
test r s = test_from r none s

abbrev pub text : String → Regex
text s = literal (codes s)

abbrev pub some_of : (ℕ → Bool) → Regex
some_of p = seq (unit p) (many p)

-- `\s+`
abbrev pub spaces : Regex
spaces = some_of is_space
