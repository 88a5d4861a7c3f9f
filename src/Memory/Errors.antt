-- ===== src/Memory/Errors.antt =====
-- project-memory/src/errors.ts: the controlled errors. A code stands for its `OMP-MEM-` number.
use oh_my_pm.Common.Text.{Text}
use oh_my_pm.Common.{String, Option, none, some, ◌≡◌, refl, ◌⊎◌, inl, inr}

pub data ProjectMemoryErrorCode : Type 0 where
  invalid_input_code path_escape_code store_locked_code corruption_code integrity_mismatch_code
        unsupported_store_version_code migration_required_code record_conflict_code
        missing_referenced_record_code limit_exceeded_code atomic_commit_failure_code
        export_conflict_code delete_confirmation_mismatch_code :
      ProjectMemoryErrorCode

pub record ProjectMemoryError : Type 0 where
  pub code : ProjectMemoryErrorCode
  pub message : String
  pub recovery_hint : Option String

-- A function that may throw, and changes no state.
pub data Result (A : Type 0) : Type 0 where
  ok : A → Result A
  err : ProjectMemoryError → Result A

-- A throw skips what follows.
infixl 5 ◌>>=◌ ◌>>◌
abbrev pub ◌>>=◌ : {A B : Type 0} → Result A → (A → Result B) → Result B
err thrown >>= next = err thrown
ok value >>= next = next value

abbrev pub ◌>>◌ : {A B : Type 0} → Result A → Result B → Result B
first >> second = first >>= λ ignored. second

abbrev pub with_hint : ProjectMemoryErrorCode → String → String → ProjectMemoryError
with_hint code message hint = record { code = code; message = message; recovery_hint = some hint }

abbrev pub without_hint : ProjectMemoryErrorCode → String → ProjectMemoryError
without_hint code message = record { code = code; message = message; recovery_hint = none }

-- A chain that succeeded went through its first part.
pub >>=-eq-ok :
    {A B : Type 0} (first : Result A) (next : A → Result B) {answer : B}
    → (first >>= next) ≡ ok answer
    → (value : A) × (first ≡ ok value) × (next value ≡ ok answer)
>>=-eq-ok (err thrown) next went = cc
>>=-eq-ok (ok value) next went = (value, refl, went)

pub Result-cases :
    {A : Type 0} (r : Result A) → ((a : A) × (r ≡ ok a)) ⊎ ((e : ProjectMemoryError) × (r ≡ err e))
Result-cases (ok a) = inl (a, refl)
Result-cases (err e) = inr (e, refl)

-- What a call throws: an error of the project memory, or anything else.
pub data Thrown : Type 0 where
  memory_error : ProjectMemoryError → Thrown
  foreign : Text → Thrown
