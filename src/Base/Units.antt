-- ===== src/Base/Units.antt =====
-- Text as its UTF-16 code units, for the code that cuts and searches text.
use Prim.Native.Nat.{ℕ}
use Prim.Native.Char.{code}
use Prim.Native.String.{String}
use mathlib.Core.Path.{◌≡◌, refl}
use mathlib.Core.Logic.{◌↔◌}
use mathlib.Core.Bool.{Bool, true, false, ◌&&◌, ◌||◌}
use mathlib.Core.List.{List, [], ◌∷◌, ◌++◌, reverse}
use native.Mathlib.Omega.{arith}
use soren.Base.Tests.{Eq, nat_Eq, nat_eq, if◌then◌else◌, ltb}
use soren.Base.Lists.{length, drop}

abbrev pub Text : Type 0
Text = List ℕ

-- The code units of a literal of the basic plane.
abbrev pub codes : String → Text
codes String.[] = []
codes (String.◌∷◌ c s) = code c ∷ codes s

abbrev pub text_eq : Text → Text → Bool
text_eq [] [] = true
text_eq [] (_ ∷ _) = false
text_eq (_ ∷ _) [] = false
text_eq (c ∷ s) (d ∷ t) = nat_eq c d && text_eq s t

pub text_eq_iff : (s t : Text) → (text_eq s t ≡ true) ↔ (s ≡ t)
text_eq_iff [] [] = ground arith
text_eq_iff [] (d ∷ t) = ground arith
text_eq_iff (c ∷ s) [] = ground arith
text_eq_iff (c ∷ s) (d ∷ t) = ground (arith, text_eq_iff s t)

instance abbrev pub text_Eq : Eq Text
text_Eq = record { equal = text_eq; equal_iff = text_eq_iff }

-- `s.startsWith(p)`
abbrev pub starts_with : Text → Text → Bool
starts_with [] s = true
starts_with (c ∷ p) [] = false
starts_with (c ∷ p) (d ∷ s) = nat_eq c d && starts_with p s

-- `s.endsWith(p)`
abbrev pub ends_with : Text → Text → Bool
ends_with p s = starts_with (reverse p) (reverse s)

-- `s.includes(p)`
abbrev pub includes : Text → Text → Bool
includes p [] = starts_with p []
includes p (c ∷ s) = starts_with p (c ∷ s) || includes p s

-- `s.replace(/\/$/, "")`
abbrev pub strip_slash : Text → Text
strip_slash [] = []
strip_slash (c ∷ []) = if nat_eq c b'/' then [] else c ∷ []
strip_slash (c ∷ d ∷ s) = c ∷ strip_slash (d ∷ s)

pub starts_with-append : (p s : Text) → starts_with p (p ++ s) ≡ true
starts_with-append [] s = refl
starts_with-append (c ∷ p) s = ground (arith, starts_with-append p s)

pub starts_with_split : (p s : Text) → starts_with p s ≡ true → (t : Text) × (s ≡ p ++ t)
starts_with_split [] s h = (s, refl)
starts_with_split (c ∷ p) [] h = cc
starts_with_split (c ∷ p) (d ∷ s) h =
    let (t, e) = starts_with_split p s (ground arith) in (t, ground arith)

pub drop-append : (p s : Text) → drop (length p) (p ++ s) ≡ s
drop-append [] s = refl
drop-append (c ∷ p) s = drop-append p s

pub starts_with-append_both : (p q s : Text) → starts_with (p ++ q) (p ++ s) ≡ starts_with q s
starts_with-append_both [] q s = refl
starts_with-append_both (c ∷ p) q s = ground (arith, starts_with-append_both p q s)

pub includes-append : (p s t : Text) → includes p (s ++ p ++ t) ≡ true
includes-append p [] t = starts_with→includes p (p ++ t) (starts_with-append p t)
  where
    starts_with→includes : (p s : Text) → starts_with p s ≡ true → includes p s ≡ true
    starts_with→includes p [] h = h
    starts_with→includes p (c ∷ s) h = rw h
includes-append p (c ∷ s) t = ground (arith, includes-append p s t)

-- `s < t`, by code units
abbrev pub text_lt : Text → Text → Bool
text_lt [] [] = false
text_lt [] (d ∷ t) = true
text_lt (c ∷ s) [] = false
text_lt (c ∷ s) (d ∷ t) = ltb c d || (nat_eq c d && text_lt s t)

pub text_lt_asym : (s t : Text) → text_lt s t ≡ true → text_lt t s ≡ false
text_lt_asym [] [] h = cc
text_lt_asym [] (d ∷ t) h = refl
text_lt_asym (c ∷ s) [] h = cc
text_lt_asym (c ∷ s) (d ∷ t) h = ground (arith, text_lt_asym s t)

-- What is not below is transitive.
pub text_lt_trans : (s t u : Text) → text_lt t s ≡ false → text_lt u t ≡ false → text_lt u s ≡ false
text_lt_trans [] [] [] h k = refl
text_lt_trans [] [] (e ∷ u) h k = refl
text_lt_trans [] (d ∷ t) [] h k = cc
text_lt_trans [] (d ∷ t) (e ∷ u) h k = refl
text_lt_trans (c ∷ s) [] u h k = cc
text_lt_trans (c ∷ s) (d ∷ t) [] h k = cc
text_lt_trans (c ∷ s) (d ∷ t) (e ∷ u) h k = ground (arith, text_lt_trans s t u)
