-- ===== src/Tests/Gates.antt =====
-- Operation ids and versions at the gates of project-memory/src/store.ts.
use oh_my_pm.Common.{ℕ, ◌≡◌, ◌↔◌, refl, length, arith}
use oh_my_pm.Common.Text.{Text, lit, text_eq}
use oh_my_pm.Memory.Errors.{ok}
use oh_my_pm.Memory.Gates.{all_safe, assert_operation_id, temp_name, assert_own_and_readable}
use oh_my_pm.Memory.Gates.Safe.{IsSafe, IsSegment, assert_operation_id-IsSafe}
use oh_my_pm.Memory.Gates.Version.{IsReadable, assert_own_and_readable_iff}
use oh_my_pm.Tests.Manifest.{one_snapshot}

-- As if all were ASCII.
abbrev utf8_byte_length : Text → ℕ
utf8_byte_length t = length t

assert_operation_id-IsSafe_example :
    IsSafe (lit "op-1") × IsSegment (temp_name (lit "op-1") (lit "7") (lit "m"))
unfolding assert_operation_id all_safe text_eq
assert_operation_id-IsSafe_example =
    assert_operation_id-IsSafe utf8_byte_length (lit "op-1") (lit "7") (lit "m") (λ t. omega arith)
      refl (((λ e. ground arith), (λ e. ground arith), λ e. ground arith), tt)
      (((λ e. ground arith), (λ e. ground arith), λ e. ground arith), tt)

assert_own_and_readable_iff_example :
    (assert_own_and_readable one_snapshot (lit "p") (lit "k") ≡ ok tt)
    ↔ IsReadable one_snapshot (lit "p") (lit "k")
assert_own_and_readable_iff_example = assert_own_and_readable_iff one_snapshot (lit "p") (lit "k")
