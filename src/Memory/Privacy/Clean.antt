-- ===== src/Memory/Privacy/Clean.antt =====
-- Which payloads project-memory/src/privacy.ts lets through.
use oh_my_pm.Common.{ℕ, ◌+◌, ◌≤◌, ◌≡◌, ◌↔◌, refl, Bool, false, arith}
use oh_my_pm.Common.Text.{Text}
use oh_my_pm.Common.Json.{
  Json, null, bool, number, string, array, object, Items, nil, cons, Fields, end, field,
}
use oh_my_pm.Memory.Errors.{ok, >>=-eq-ok}
use oh_my_pm.Memory.Privacy.{is_forbidden, walk, walk_items, walk_fields, assert_no_forbidden_keys}

module _ (to_lower_case : Text → Text) where
  -- Nowhere in the value is there a forbidden key, nor a value nested more than 128 deep.
  mutual
    pub data IsClean : Json → ℕ → Type 0 where
      clean_null : {d : ℕ} → d ≤ 128 → IsClean null d
      clean_bool : {d : ℕ} {b : Bool} → d ≤ 128 → IsClean (bool b) d
      clean_number : {d : ℕ} {n : _} → d ≤ 128 → IsClean (number n) d
      clean_string : {d : ℕ} {s : Text} → d ≤ 128 → IsClean (string s) d
      clean_array : {d : ℕ} {xs : Items} → d ≤ 128 → AllClean xs (d + 1) → IsClean (array xs) d
      clean_object :
          {d : ℕ} {fs : Fields} → d ≤ 128 → CleanFields fs (d + 1) → IsClean (object fs) d

    pub data AllClean : Items → ℕ → Type 0 where
      clean_nil : {d : ℕ} → AllClean nil d
      clean_cons :
          {d : ℕ} {x : Json} {xs : Items} → IsClean x d → AllClean xs d → AllClean (cons x xs) d

    pub data CleanFields : Fields → ℕ → Type 0 where
      clean_end : {d : ℕ} → CleanFields end d
      clean_field :
          {d : ℕ} {k : Text} {v : Json} {fs : Fields}
          → is_forbidden to_lower_case k ≡ false
          → IsClean v d
          → CleanFields fs d
          → CleanFields (field k v fs) d

  mutual
    unfolding walk walk_items walk_fields

    walk-IsClean : (x : Json) (d : ℕ) → walk to_lower_case x d ≡ ok tt → IsClean x d
    walk-IsClean null d h = clean_null (ground arith)
    walk-IsClean (bool b) d h = clean_bool (ground arith)
    walk-IsClean (number n) d h = clean_number (ground arith)
    walk-IsClean (string s) d h = clean_string (ground arith)
    walk-IsClean (array xs) d h =
        clean_array (ground arith) (walk_items-AllClean xs (d + 1) (ground arith))
    walk-IsClean (object fs) d h =
        clean_object (ground arith) (walk_fields-CleanFields fs (d + 1) (ground arith))

    walk_items-AllClean :
        (xs : Items) (d : ℕ) → walk_items to_lower_case xs d ≡ ok tt → AllClean xs d
    walk_items-AllClean nil d h = clean_nil
    walk_items-AllClean (cons x xs) d h =
        let (u, one, rest) = >>=-eq-ok (walk to_lower_case x d) _ h in
        clean_cons (walk-IsClean x d one) (walk_items-AllClean xs d rest)

    walk_fields-CleanFields :
        (fs : Fields) (d : ℕ) → walk_fields to_lower_case fs d ≡ ok tt → CleanFields fs d
    walk_fields-CleanFields end d h = clean_end
    walk_fields-CleanFields (field k v fs) d h =
        let (u, one, rest) =
          >>=-eq-ok (walk to_lower_case v d) (λ _. walk_fields to_lower_case fs d) (ground arith) in
        clean_field (ground arith) (walk-IsClean v d one) (walk_fields-CleanFields fs d rest)

  mutual
    unfolding walk walk_items walk_fields

    IsClean-walk : {x : Json} {d : ℕ} → IsClean x d → walk to_lower_case x d ≡ ok tt
    IsClean-walk (clean_null b) = ground arith
    IsClean-walk (clean_bool b) = ground arith
    IsClean-walk (clean_number b) = ground arith
    IsClean-walk (clean_string b) = ground arith
    IsClean-walk (clean_array b c) = ground (arith, AllClean-walk c)
    IsClean-walk (clean_object b c) = ground (arith, CleanFields-walk c)

    AllClean-walk : {xs : Items} {d : ℕ} → AllClean xs d → walk_items to_lower_case xs d ≡ ok tt
    AllClean-walk clean_nil = refl
    AllClean-walk (clean_cons c cs) = ground (arith, IsClean-walk c, AllClean-walk cs)

    CleanFields-walk :
        {fs : Fields} {d : ℕ} → CleanFields fs d → walk_fields to_lower_case fs d ≡ ok tt
    CleanFields-walk clean_end = refl
    CleanFields-walk (clean_field f c cs) = ground (arith, f, IsClean-walk c, CleanFields-walk cs)

  -- A payload is let through exactly when no key at any depth normalizes to a forbidden name and no
  -- value is nested more than 128 deep.
  pub assert_no_forbidden_keys_iff :
      (payload : Json)
      → (assert_no_forbidden_keys to_lower_case payload ≡ ok tt) ↔ IsClean payload 0
  unfolding assert_no_forbidden_keys
  assert_no_forbidden_keys_iff payload = (walk-IsClean payload 0, λ c. IsClean-walk c)
