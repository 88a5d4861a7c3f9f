-- ===== src/Tests/Paths.antt =====
-- Paths of project-memory/src/path-safety.ts over a small path arithmetic.
use oh_my_pm.Common.{
  inr, ==_iff, any_of, Bool-cases, inl, ◌≢◌, ◌≡◌, refl, Bool, false, [], ◌∷◌, ◌++◌, arith, ◌==◌,
  if◌then◌else◌,
}
use oh_my_pm.Common.Text.{text_eq, Text, lit}
use oh_my_pm.Memory.Errors.{ok}
use oh_my_pm.Memory.Paths.{
  confine, split_from, starts_with_dots, NodePath, StoreLayout, assert_project_data_separation,
}
use oh_my_pm.Memory.Paths.Confined.{WayLaws, IsWithin, confine_lem}
use oh_my_pm.Memory.Paths.Separation.{NodePathLaws, nested_roots_refused, dotted_data_root}

abbrev pub begins_with_slash : Text → Bool
begins_with_slash [] = false
begins_with_slash (c ∷ t) = c == 47

-- What is behind the first path and a slash, or one step up.
unfoldable pub way : Text → Text → Text
way [] [] = []
way [] (c ∷ t) = if c == 47 then t else lit ".."
way (a ∷ o) [] = lit ".."
way (a ∷ o) (b ∷ i) = let rest = way o i in if a == b then rest else lit ".."

abbrev pub posix : NodePath
posix = record {
  is_absolute = begins_with_slash;
  resolve = λ path. path;
  relative = way;
  join = λ dir name. dir ++ lit "/" ++ name;
  sep = 47;
}

abbrev layout : StoreLayout
layout = record {
  data_root = lit "/data";
  store_root = lit "/data/project-brain/v1";
  locks_dir = lit "/data/project-brain/v1/locks";
  projects_dir = lit "/data/project-brain/v1/projects";
}

way-down : (base rest : Text) → way base (base ++ lit "/" ++ rest) ≡ rest
unfolding way
way-down [] rest = refl
way-down (c ∷ base) rest = ground (arith, way-down base rest)

way-up : (base rest : Text) → way (base ++ lit "/" ++ rest) base ≡ lit ".."
unfolding way
way-up [] rest = refl
way-up (c ∷ base) rest = ground (arith, way-up base rest)

posix_laws : NodePathLaws posix
posix_laws = record {
  again = λ path. refl;
  down = λ base rest _ _. way-down base rest;
  up = λ base rest _ _. ([], way-up base rest);
}

-- The way is what is behind the first path and a slash, or it begins with two dots.
way_inside :
    (base target : Text)
    → way base target ≢ []
    → starts_with_dots (way base target) ≡ false
    → target ≡ base ++ lit "/" ++ way base target
unfolding way starts_with_dots
way_inside [] [] some_way plain = absurd (some_way refl)
way_inside [] (c ∷ t) some_way plain = elim (Bool-cases (c == 47)) [
  | inl slash ↦ ground (arith, ==_iff c 47)
  | inr other ↦ absurd (ground arith)
]
way_inside (a ∷ o) [] some_way plain = absurd (ground arith)
way_inside (a ∷ o) (b ∷ i) some_way plain = elim (Bool-cases (a == b)) [
  | inl same ↦ ground (arith, ==_iff a b, way_inside o i)
  | inr other ↦ absurd (ground arith)
]

posix_ways : WayLaws posix
posix_ways = record {
  again = λ path. refl;
  way_inside = λ base target _ _ _ some_way plain _. way_inside base target some_way plain;
}

confine_lem_example : (lit "/data/k" ≡ lit "/data/k") × IsWithin posix (lit "/data") (lit "/data/k")
unfolding confine way any_of split_from text_eq starts_with_dots
confine_lem_example =
    confine_lem posix (lit "/data") (lit "/data/k") (lit "/data/k") posix_ways (λ e. ground arith)
      refl

nested_roots_refused_example :
    assert_project_data_separation posix (lit "/p/data") (lit "/p") ≢ ok tt
unfolding starts_with_dots
nested_roots_refused_example =
    nested_roots_refused posix posix_laws (lit "/p/data") (lit "/p") (lit "data")
      (λ e. ground arith) refl refl (inl refl)

dotted_data_root_example : assert_project_data_separation posix (lit "/p/..data") (lit "/p") ≡ ok tt
dotted_data_root_example =
    dotted_data_root posix posix_laws (lit "/p/..data") (lit "/p") (lit "data") refl refl
