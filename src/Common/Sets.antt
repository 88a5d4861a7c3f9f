-- ===== src/Common/Sets.antt =====
-- JavaScript's `Set` of strings as its members in insertion order, and arrays of strings seen
-- through `includes`: which strings they hold, and whether any is there twice.
use oh_my_pm.Common.Tests.{if◌then◌else◌, Bool-cases}
use oh_my_pm.Common.Lists.{length, length-append}
use oh_my_pm.Common.Text.{Text, text_eq, text_eq_iff, text_eq_refl, text_lt, includes}
use oh_my_pm.Common.Sort.{insert_sorted, sort}
use Prim.Native.Nat.{◌+◌, ◌≤◌}
use mathlib.Core.Path.{◌≡◌, refl, sym, ◌∙◌, ap}
use mathlib.Core.Logic.{inl, inr}
use mathlib.Core.Bool.{Bool, true, false, not}
use mathlib.Core.List.{List, [], ◌∷◌, ◌++◌, append-nil, append_assoc}
use native.Mathlib.Omega.{arith}

-- No string stands in the array twice.
abbrev pub Distinct : List Text → Type 0
Distinct [] = Unit
Distinct (x ∷ xs) = (includes xs x ≡ false) × Distinct xs

-- Every string of the first array stands in the second.
abbrev pub Within : List Text → List Text → Type 0
Within xs ys = (a : Text) → includes xs a ≡ true → includes ys a ≡ true

unfoldable pub set_add : List Text → Text → List Text
set_add s x = if includes s x then s else s ++ x ∷ []

unfoldable pub set_adds : List Text → List Text → List Text
set_adds s [] = s
set_adds s (x ∷ xs) = set_adds (set_add s x) xs

-- `new Set(xs)`
abbrev pub set_of : List Text → List Text
set_of = set_adds []

-- `xs.sort()`, by code units.
abbrev pub text_le : Text → Text → Bool
text_le a b = not (text_lt b a)

abbrev pub sort_texts : List Text → List Text
sort_texts = sort text_le

pub includes-append :
    (xs ys : List Text) (a : Text)
    → includes (xs ++ ys) a ≡ (if includes xs a then true else includes ys a)
unfolding includes
includes-append [] ys a = refl
includes-append (x ∷ xs) ys a = ground (arith, includes-append xs ys a)

pub includes-set_add :
    (s : List Text) (x a : Text)
    → includes (set_add s x) a ≡ (if text_eq x a then true else includes s a)
unfolding set_add includes
includes-set_add s x a = ground (arith, includes-append s (x ∷ []) a, text_eq_iff x a)

pub Distinct-snoc :
    (s : List Text) (x : Text) → Distinct s → includes s x ≡ false → Distinct (s ++ x ∷ [])
unfolding includes
Distinct-snoc [] x d h = (refl, tt)
Distinct-snoc (y ∷ s) x d h = (
  ground (arith, includes-append s (x ∷ []) y, text_eq_iff x y, text_eq_iff y x),
  Distinct-snoc s x d.1 (ground arith),
)

pub set_add-Distinct : (s : List Text) (x : Text) → Distinct s → Distinct (set_add s x)
unfolding set_add
set_add-Distinct s x d = elim (Bool-cases (includes s x)) [
  | inl h ↦ rw h d
  | inr h ↦ rw h (Distinct-snoc s x d h)
]

pub set_adds-Distinct : (s xs : List Text) → Distinct s → Distinct (set_adds s xs)
unfolding set_adds
set_adds-Distinct s [] d = d
set_adds-Distinct s (x ∷ xs) d = set_adds-Distinct (set_add s x) xs (set_add-Distinct s x d)

length-set_add_le : (s : List Text) (x : Text) → length (set_add s x) ≤ length s + 1
unfolding set_add
length-set_add_le s x = ground (arith, length-append s (x ∷ []))

length-set_adds_le : (s xs : List Text) → length (set_adds s xs) ≤ length s + length xs
unfolding set_adds
length-set_adds_le s [] = omega arith
length-set_adds_le s (x ∷ xs) =
    omega (arith, length-set_adds_le (set_add s x) xs, length-set_add_le s x)

-- A set as large as the array that it was made of is that array.
set_adds_full :
    (s xs : List Text) → length (set_adds s xs) ≡ length s + length xs → set_adds s xs ≡ s ++ xs
unfolding set_adds
set_adds_full s [] e = sym (append-nil s)
set_adds_full s (x ∷ xs) e = elim (Bool-cases (includes s x)) [
  | inl h ↦
      (let same : set_add s x ≡ s = unfold set_add in rw h refl in
        absurd (omega (arith, e, length-set_adds_le s xs, ap (λ t. length (set_adds t xs)) same)))
  | inr h ↦
      (let fresh : set_add s x ≡ s ++ x ∷ [] = unfold set_add in rw h refl in
        rw fresh (
          set_adds_full (s ++ x ∷ []) xs
            (omega (arith, e, ap (λ t. length (set_adds t xs)) fresh, length-append s (x ∷ [])))
          ∙ append_assoc s (x ∷ []) xs))
]

pub set_of_full : (xs : List Text) → length (set_of xs) ≡ length xs → set_of xs ≡ xs
set_of_full xs e = set_adds_full [] xs (omega (arith, e))

pub Distinct-middle :
    (s : List Text) (x : Text) (xs : List Text) → Distinct (s ++ x ∷ xs) → includes s x ≡ false
unfolding includes
Distinct-middle [] x xs d = refl
Distinct-middle (y ∷ s) x xs d = ground (
  arith,
  Distinct-middle s x xs d.1,
  d.0,
  includes-append s (x ∷ xs) y,
  text_eq_iff y x,
  text_eq_refl x,
)

set_adds_fresh : (s xs : List Text) → Distinct (s ++ xs) → set_adds s xs ≡ s ++ xs
unfolding set_adds
set_adds_fresh s [] d = sym (append-nil s)
set_adds_fresh s (x ∷ xs) d =
    let fresh : set_add s x ≡ s ++ x ∷ [] = unfold set_add in rw (Distinct-middle s x xs d) refl in
    let moved = append_assoc s (x ∷ []) xs in
    rw fresh (set_adds_fresh (s ++ x ∷ []) xs (rw moved d) ∙ moved)

pub set_of-Distinct : (xs : List Text) → Distinct xs → set_of xs ≡ xs
set_of-Distinct xs d = set_adds_fresh [] xs d

-- Sorting and adding, seen through `includes`.
includes-insert_sorted :
    (le : Text → Text → Bool) (x : Text) (xs : List Text) (a : Text)
    → includes (insert_sorted le x xs) a ≡ (if text_eq x a then true else includes xs a)
unfolding insert_sorted includes
includes-insert_sorted le x [] a = refl
includes-insert_sorted le x (y ∷ ys) a = ground (arith, includes-insert_sorted le x ys a)

pub includes-sort :
    (le : Text → Text → Bool) (xs : List Text) (a : Text) → includes (sort le xs) a ≡ includes xs a
unfolding sort includes
includes-sort le [] a = refl
includes-sort le (x ∷ xs) a =
    ground (arith, includes-sort le xs a, includes-insert_sorted le x (sort le xs) a)

insert_sorted-Distinct :
    (le : Text → Text → Bool) (x : Text) (xs : List Text)
    → includes xs x ≡ false
    → Distinct xs
    → Distinct (insert_sorted le x xs)
unfolding insert_sorted includes
insert_sorted-Distinct le x [] h d = (refl, tt)
insert_sorted-Distinct le x (y ∷ ys) h d = elim (Bool-cases (le x y)) [
  | inl e ↦ rw e (h, d)
  | inr e ↦ rw e (
    ground (arith, includes-insert_sorted le x ys y, text_eq_iff x y, text_eq_iff y x),
    insert_sorted-Distinct le x ys (ground arith) d.1,
  )
]

pub sort-Distinct : (le : Text → Text → Bool) (xs : List Text) → Distinct xs → Distinct (sort le xs)
unfolding sort
sort-Distinct le [] d = tt
sort-Distinct le (x ∷ xs) d =
    insert_sorted-Distinct le x (sort le xs) (includes-sort le xs x ∙ d.0) (sort-Distinct le xs d.1)

-- Leaving one string out.
without : Text → List Text → List Text
without x [] = []
without x (y ∷ ys) = let rest = without x ys in if text_eq y x then rest else y ∷ rest

includes-without :
    (x : Text) (ys : List Text) (a : Text)
    → includes (without x ys) a ≡ (if text_eq x a then false else includes ys a)
unfolding without includes
includes-without x [] a = ground arith
includes-without x (y ∷ ys) a =
    ground (arith, includes-without x ys a, text_eq_iff y x, text_eq_iff y a, text_eq_iff x a)

without-Distinct : (x : Text) (ys : List Text) → Distinct ys → Distinct (without x ys)
unfolding without includes
without-Distinct x [] d = tt
without-Distinct x (y ∷ ys) d = elim (Bool-cases (text_eq y x)) [
  | inl e ↦ rw e (without-Distinct x ys d.1)
  | inr e ↦ rw e (ground (arith, d.0, includes-without x ys y), without-Distinct x ys d.1)
]

length-without :
    (x : Text) (ys : List Text)
    → Distinct ys
    → length (without x ys) + (if includes ys x then 1 else 0) ≡ length ys
unfolding without includes
length-without x [] d = omega arith
length-without x (y ∷ ys) d = ground (arith, length-without x ys d.1, d.0, text_eq_iff y x)

-- Distinct strings that all stand among others are no more than those.
pub length-Within_le :
    (xs ys : List Text) → Distinct xs → Distinct ys → Within xs ys → length xs ≤ length ys
unfolding includes
length-Within_le [] ys dx dy w = omega arith
length-Within_le (x ∷ xs) ys dx dy w =
    let inside : includes ys x ≡ true = w x (ground (arith, text_eq_refl x)) in
    let rest : Within xs (without x ys) =
      λ a h. ground (arith, includes-without x ys a, w a, text_eq_iff x a, dx.0) in
    ground (
      arith,
      length-Within_le xs (without x ys) dx.1 (without-Distinct x ys dy) rest,
      length-without x ys dy,
    )

-- If they are as many, they are the same strings.
pub Within-flip :
    (xs ys : List Text)
    → Distinct xs
    → Distinct ys
    → Within xs ys
    → length xs ≡ length ys
    → Within ys xs
Within-flip xs ys dx dy w e a h = elim (Bool-cases (includes xs a)) [
  | inl found ↦ found
  | inr gone ↦
      (let rest : Within xs (without a ys) =
          λ b hb. ground (arith, includes-without a ys b, w b hb, text_eq_iff a b) in
        absurd (
          ground (
            arith,
            length-Within_le xs (without a ys) dx (without-Distinct a ys dy) rest,
            length-without a ys dy,
          )))
]
