-- ===== src/Common/Text.antt =====
-- JavaScript strings as lists of UTF-16 code units. `===` is `text_eq`; `<` compares the code
-- units from the left and is `text_lt`. `lit` reads an ASCII literal.
use Prim.Native.Char.{code}
use Prim.Native.Nat.{ℕ}
use Prim.Native.String.{String}
use mathlib.Core.Path.{◌≡◌, refl}
use mathlib.Core.Logic.{◌↔◌}
use mathlib.Core.Bool.{Bool, true, false}
use mathlib.Core.List.{List, [], ◌∷◌}
use native.Mathlib.Omega.{arith}
use oh_my_pm.Common.Tests.{ltb, ◌==◌, if◌then◌else◌}

abbrev pub Text : Type 0
Text = List ℕ

abbrev pub lit : String → Text
lit String.[] = []
lit (String.◌∷◌ c s) = code c ∷ lit s

unfoldable pub text_eq : Text → Text → Bool
text_eq [] [] = true
text_eq [] (b ∷ t) = false
text_eq (a ∷ s) [] = false
text_eq (a ∷ s) (b ∷ t) = let rest = text_eq s t in if a == b then rest else false

unfoldable pub text_lt : Text → Text → Bool
text_lt s [] = false
text_lt [] (b ∷ t) = true
text_lt (a ∷ s) (b ∷ t) =
    let rest = text_lt s t in if ltb a b then true else if a == b then rest else false

text_eq_sound : (s t : Text) → text_eq s t ≡ true → s ≡ t
unfolding text_eq
text_eq_sound [] [] h = refl
text_eq_sound [] (b ∷ t) h = ground arith
text_eq_sound (a ∷ s) [] h = ground arith
text_eq_sound (a ∷ s) (b ∷ t) h = ground (arith, text_eq_sound s t)

pub text_eq_refl : (s : Text) → text_eq s s ≡ true
unfolding text_eq
text_eq_refl [] = refl
text_eq_refl (a ∷ s) = ground (arith, text_eq_refl s)

pub text_eq_iff : (s t : Text) → (text_eq s t ≡ true) ↔ (s ≡ t)
text_eq_iff s t = (text_eq_sound s t, λ e. ground (arith, text_eq_refl s))

pub text_lt_irrefl : (s : Text) → text_lt s s ≡ false
unfolding text_lt
text_lt_irrefl [] = refl
text_lt_irrefl (a ∷ s) = ground (arith, text_lt_irrefl s)

pub text_lt_trans : (s t u : Text) → text_lt s t ≡ true → text_lt t u ≡ true → text_lt s u ≡ true
unfolding text_lt
text_lt_trans [] [] u p q = ground arith
text_lt_trans [] (b ∷ t) [] p q = ground arith
text_lt_trans [] (b ∷ t) (c ∷ u) p q = refl
text_lt_trans (a ∷ s) [] u p q = ground arith
text_lt_trans (a ∷ s) (b ∷ t) [] p q = ground arith
text_lt_trans (a ∷ s) (b ∷ t) (c ∷ u) p q = ground (arith, text_lt_trans s t u)

-- Two strings that are neither below the other are equal.
pub text_lt_total : (s t : Text) → text_lt s t ≡ false → text_lt t s ≡ false → s ≡ t
unfolding text_lt
text_lt_total [] [] p q = refl
text_lt_total [] (b ∷ t) p q = ground arith
text_lt_total (a ∷ s) [] p q = ground arith
text_lt_total (a ∷ s) (b ∷ t) p q = ground (arith, text_lt_total s t)

pub text_lt_negtrans :
    (s t u : Text) → text_lt s t ≡ false → text_lt t u ≡ false → text_lt s u ≡ false
unfolding text_lt
text_lt_negtrans s [] [] p q = p
text_lt_negtrans [] [] (c ∷ u) p q = ground arith
text_lt_negtrans (a ∷ s) [] (c ∷ u) p q = ground arith
text_lt_negtrans s (b ∷ t) [] p q = refl
text_lt_negtrans [] (b ∷ t) (c ∷ u) p q = ground arith
text_lt_negtrans (a ∷ s) (b ∷ t) (c ∷ u) p q = ground (arith, text_lt_negtrans s t u)

-- `xs.includes(a)` on an array of strings, and `set.has(a)`.
unfoldable pub includes : List Text → Text → Bool
includes [] a = false
includes (x ∷ xs) a = let rest = includes xs a in if text_eq x a then true else rest
