-- ===== src/Runtime/Timeline/Window.antt =====
-- Which pairs runtime/src/projectbrain/timeline.ts compares.
use oh_my_pm.Common.{
  ℕ, zero, suc, ◌-◌, ◌≤◌, ◌≡◌, ◌⊎◌, inl, inr, refl, ap, Bool, true, false, Option, List, [], ◌∷◌,
  ◌++◌, length, length-drop, drop, All, All-imp, arith, ltb, Bool-cases, if◌then◌else◌,
}
use oh_my_pm.Common.Json.{Number}
use oh_my_pm.Runtime.Timeline.{
  ChronologyEntry, Pair, max_comparisons, is_before, eligible_pairs, select_window,
}

-- Two entries stand side by side in the chronology.
abbrev pub IsAdjacent : List ChronologyEntry → Pair → Type 0
IsAdjacent chronology pair =
    (front : List ChronologyEntry) × (back : List ChronologyEntry) × (chronology
      ≡ front ++ pair.previous ∷ pair.current ∷ back)

-- Side by side, and the current one below the bound.
abbrev pub IsEligible : Option Number → List ChronologyEntry → Pair → Type 0
IsEligible before chronology pair =
    IsAdjacent chronology pair × (is_before before pair.current ≡ true)

later-IsEligible :
    (before : Option Number) (a : ChronologyEntry) (rest : List ChronologyEntry) (pair : Pair)
    → IsEligible before rest pair
    → IsEligible before (a ∷ rest) pair
later-IsEligible before a rest pair ((front, back, e), bound) =
    ((a ∷ front, back, ap (λ t. a ∷ t) e), bound)

eligible_pairs-IsEligible :
    (before : Option Number) (es : List ChronologyEntry)
    → All (IsEligible before es) (eligible_pairs before es)
unfolding eligible_pairs
eligible_pairs-IsEligible before [] = tt
eligible_pairs-IsEligible before (a ∷ []) = tt
eligible_pairs-IsEligible before (a ∷ b ∷ rest) =
    let others =
      All-imp (IsEligible before (a ∷ b ∷ rest)) (eligible_pairs before (b ∷ rest))
        (later-IsEligible before a (b ∷ rest)) (eligible_pairs-IsEligible before (b ∷ rest)) in
    elim (Bool-cases (is_before before b)) [
      | inl yes_before ↦ rw yes_before ((([], rest, refl), yes_before), others)
      | inr not_before ↦ rw not_before others
    ]

All-drop : {A : Type 0} (P : A → Type 0) (n : ℕ) (xs : List A) → All P xs → All P (drop n xs)
All-drop P zero xs h = h
All-drop P (suc n) [] h = h
All-drop P (suc n) (x ∷ xs) h = All-drop P n xs h.1

-- The pair stands in the list.
abbrev pub IsIn : Pair → List Pair → Type 0
IsIn pair [] = ⊥
IsIn pair (p ∷ ps) = (p ≡ pair) ⊎ IsIn pair ps

IsIn-later :
    (c : Bool) (pair p : Pair) (ps : List Pair)
    → IsIn pair ps
    → IsIn pair (if c then p ∷ ps else ps)
IsIn-later true pair p ps h = inr h
IsIn-later false pair p ps h = h

eligible_pairs_complete :
    (before : Option Number) (front : List ChronologyEntry) (pair : Pair)
    (back : List ChronologyEntry)
    → is_before before pair.current ≡ true
    → IsIn pair (eligible_pairs before (front ++ pair.previous ∷ pair.current ∷ back))
unfolding eligible_pairs
eligible_pairs_complete before [] pair back h = rw h (inl refl)
eligible_pairs_complete before (x ∷ []) pair back h =
    IsIn-later (is_before before pair.previous) pair _ _
      (eligible_pairs_complete before [] pair back h)
eligible_pairs_complete before (x ∷ y ∷ front) pair back h =
    IsIn-later (is_before before y) pair _ _
      (eligible_pairs_complete before (y ∷ front) pair back h)

drop-suffix : {A : Type 0} (n : ℕ) (xs : List A) → (older : List A) × (xs ≡ older ++ drop n xs)
drop-suffix zero xs = ([], refl)
drop-suffix (suc n) [] = ([], refl)
drop-suffix (suc n) (x ∷ xs) = let (older, e) = drop-suffix n xs in (x ∷ older, ap (λ t. x ∷ t) e)

-- What the window is to the chronology.
pub record IsWindow (before : Option Number) (chronology : List ChronologyEntry)
    (window : List Pair) : Type 0 where
  pub sound : All (IsEligible before chronology) window
  pub bounded : length window ≤ 200
  pub newest : (older : List Pair) × (eligible_pairs before chronology ≡ older ++ window)
  pub complete :
      (pair : Pair) → IsEligible before chronology pair → IsIn pair window ⊎ (length window ≡ 200)

-- The pairs to compare stand side by side in the chronology, with the current one below the bound.
-- They are at most 200, the newest of the eligible ones, and all of them unless they are 200.
pub select_window-IsWindow :
    (chronology : List ChronologyEntry) (before : Option Number)
    → IsWindow before chronology (select_window chronology before)
unfolding select_window
select_window-IsWindow chronology before =
    let pairs = eligible_pairs before chronology in
    let sound = eligible_pairs-IsEligible before chronology in
    let found : (pair : Pair) → IsEligible before chronology pair → IsIn pair pairs =
      λ pair ((front, back, e), bound).
        rw e (eligible_pairs_complete before front pair back bound) in
    elim (Bool-cases (ltb max_comparisons (length pairs))) [
      | inl long ↦ rw long (record {
        sound = All-drop (IsEligible before chronology) (length pairs - 200) pairs sound;
        bounded = ground (arith, length-drop (length pairs - 200) pairs);
        newest = drop-suffix (length pairs - 200) pairs;
        complete = λ pair h. inr (ground (arith, length-drop (length pairs - 200) pairs));
      })
      | inr short ↦ rw short (record {
        sound = sound;
        bounded = ground arith;
        newest = ([], refl);
        complete = λ pair h. inl (found pair h);
      })
    ]
