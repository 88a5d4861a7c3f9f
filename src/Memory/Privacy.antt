-- ===== src/Memory/Privacy.antt =====
-- project-memory/src/privacy.ts: no record has a key that names a secret or raw content. The
-- lowercasing of JavaScript is a parameter.
pub mod Clean
use oh_my_pm.Common.{ℕ, ◌+◌, Bool, true, false, ◌&&◌, ◌||◌, List, [], ◌∷◌, ltb, leb, if◌then◌else◌}
use oh_my_pm.Common.Text.{Text, lit, includes}
use oh_my_pm.Common.Json.{Json, array, object, Items, nil, cons, Fields, end, field}
use oh_my_pm.Memory.Errors.{Result, ok, err, ◌>>=◌, invalid_input_code, with_hint, without_hint}

abbrev pub forbidden_key_normalized : List Text
forbidden_key_normalized =
    lit "token"
    ∷ lit "accesstoken"
    ∷ lit "refreshtoken"
    ∷ lit "authorization"
    ∷ lit "bearer"
    ∷ lit "password"
    ∷ lit "secret"
    ∷ lit "apikey"
    ∷ lit "privatekey"
    ∷ lit "cookie"
    ∷ lit "setcookie"
    ∷ lit "rawbody"
    ∷ lit "body"
    ∷ lit "diff"
    ∷ lit "diffhunk"
    ∷ lit "commithash"
    ∷ lit "commitsha"
    ∷ lit "absolutepath"
    ∷ lit "projectroot"
    ∷ []

-- One character of `[a-z0-9]`.
abbrev pub is_key_unit : ℕ → Bool
is_key_unit c = (leb 97 c && leb c 122) || (leb 48 c && leb c 57)

unfoldable pub strip : Text → Text
strip [] = []
strip (c ∷ t) = let rest = strip t in if is_key_unit c then c ∷ rest else rest

abbrev pub max_walk_depth : ℕ
max_walk_depth = 128

module _ (to_lower_case : Text → Text) where
  unfoldable pub normalize_key : Text → Text
  normalize_key key = strip (to_lower_case key)

  abbrev pub is_forbidden : Text → Bool
  is_forbidden key = includes forbidden_key_normalized (normalize_key key)

  -- The messages name the payload and the key.
  abbrev pub nests_too_deep : Result (Unit {0})
  nests_too_deep = err (without_hint invalid_input_code "exceeds the maximum nesting depth")

  abbrev pub has_forbidden_key : Result (Unit {0})
  has_forbidden_key = err (
      with_hint invalid_input_code "contains a forbidden key"
        "records must be minimized; no secrets or raw content may be stored")

  unfoldable mutual
    pub walk : Json → ℕ → Result (Unit {0})
    walk (array xs) depth =
        if ltb max_walk_depth depth then nests_too_deep else walk_items xs (depth + 1)
    walk (object fs) depth =
        if ltb max_walk_depth depth then nests_too_deep else walk_fields fs (depth + 1)
    walk _ depth = if ltb max_walk_depth depth then nests_too_deep else ok tt

    pub walk_items : Items → ℕ → Result (Unit {0})
    walk_items nil depth = ok tt
    walk_items (cons x xs) depth = walk x depth >>= λ _. walk_items xs depth

    pub walk_fields : Fields → ℕ → Result (Unit {0})
    walk_fields end depth = ok tt
    walk_fields (field k v fs) depth =
        let rest = walk v depth >>= λ _. walk_fields fs depth in
        if is_forbidden k then has_forbidden_key else rest

  unfoldable pub assert_no_forbidden_keys : Json → Result (Unit {0})
  assert_no_forbidden_keys payload = walk payload 0
