-- ===== src/Tests/Privacy.antt =====
-- A payload that project-memory/src/privacy.ts lets through.
use oh_my_pm.Common.{◌≡◌, ◌↔◌}
use oh_my_pm.Common.Text.{Text, lit}
use oh_my_pm.Common.Json.{Json, string, array, object, cons, nil, field, end}
use oh_my_pm.Memory.Errors.{ok}
use oh_my_pm.Memory.Privacy.{assert_no_forbidden_keys}
use oh_my_pm.Memory.Privacy.Clean.{IsClean, assert_no_forbidden_keys_iff}

-- As if all were lowercase.
abbrev same_case : Text → Text
same_case t = t

abbrev record_payload : Json
record_payload = object (field (lit "title") (array (cons (string (lit "token")) nil)) end)

assert_no_forbidden_keys_iff_example :
    (assert_no_forbidden_keys same_case record_payload ≡ ok tt) ↔ IsClean same_case record_payload 0
assert_no_forbidden_keys_iff_example = assert_no_forbidden_keys_iff same_case record_payload
