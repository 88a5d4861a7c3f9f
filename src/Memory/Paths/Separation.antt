-- ===== src/Memory/Paths/Separation.antt =====
-- A data root inside the project that the guard of project-memory/src/path-safety.ts lets pass.
use oh_my_pm.Common.{
  ◌≡◌, ◌≢◌, ◌⊎◌, inl, inr, refl, Bool-cases, sym, ap, ◌∙◌, true, false, [], ◌∷◌, ◌++◌, arith,
}
use oh_my_pm.Common.Text.{Text, lit, text_eq, text_eq_iff}
use oh_my_pm.Memory.Errors.{ok}
use oh_my_pm.Memory.Manifest.{is_empty}
use oh_my_pm.Memory.Paths.{
  NodePath, starts_with_dots, is_same_or_inside, assert_project_data_separation,
}

-- What node:path does on a resolved path below a resolved directory: the way down is what is behind
-- the directory's slash, and the way up begins with two dots. Resolving twice is resolving once.
pub record NodePathLaws (np : NodePath) : Type 0 where
  pub again : (path : Text) → np.resolve (np.resolve path) ≡ np.resolve path
  pub down :
      (base rest : Text)
      → np.resolve base ≡ base
      → np.resolve (base ++ lit "/" ++ rest) ≡ base ++ lit "/" ++ rest
      → np.relative base (base ++ lit "/" ++ rest) ≡ rest
  pub up :
      (base rest : Text)
      → np.resolve base ≡ base
      → np.resolve (base ++ lit "/" ++ rest) ≡ base ++ lit "/" ++ rest
      → (steps : Text) × (np.relative (base ++ lit "/" ++ rest) base ≡ lit ".." ++ steps)

longer : (base rest : Text) → base ++ lit "/" ++ rest ≢ base
longer [] rest e = absurd (cc)
longer (a ∷ base) rest e = longer base rest (ground arith)

not_empty : (t : Text) → t ≢ [] → is_empty t ≡ false
not_empty [] h = absurd (h refl)
not_empty (c ∷ t) h = refl

module _ (np : NodePath) (laws : NodePathLaws np) where
  -- The second path is below the first, by `rest`.
  abbrev pub IsBelow : Text → Text → Text → Type 0
  IsBelow outer inner rest = np.resolve inner ≡ np.resolve outer ++ lit "/" ++ rest

  below_apart :
      (outer inner rest : Text)
      → IsBelow outer inner rest
      → text_eq (np.resolve inner) (np.resolve outer) ≡ false
  below_apart outer inner rest e =
      elim (Bool-cases (text_eq (np.resolve inner) (np.resolve outer))) [
        | inl same ↦ absurd (
            longer (np.resolve outer) rest
              (sym e ∙ (text_eq_iff (np.resolve inner) (np.resolve outer)).0 same))
        | inr apart ↦ apart
      ]

  way_down :
      (outer inner rest : Text)
      → IsBelow outer inner rest
      → np.relative (np.resolve outer) (np.resolve inner) ≡ rest
  way_down outer inner rest e =
      ap (np.relative (np.resolve outer)) e
      ∙ laws.down (np.resolve outer) rest (laws.again outer)
          (ap np.resolve (sym e) ∙ laws.again inner ∙ e)

  way_up :
      (outer inner rest : Text)
      → IsBelow outer inner rest
      → (steps : Text) × (np.relative (np.resolve inner) (np.resolve outer) ≡ lit ".." ++ steps)
  way_up outer inner rest e =
      let (steps, up) =
        laws.up (np.resolve outer) rest (laws.again outer)
          (ap np.resolve (sym e) ∙ laws.again inner ∙ e) in
      (steps, ap (λ p. np.relative p (np.resolve outer)) e ∙ up)

  -- What begins with two dots is never seen inside.
  dots_outside :
      (outer inner t : Text)
      → text_eq (np.resolve outer) (np.resolve inner) ≡ false
      → np.relative (np.resolve outer) (np.resolve inner) ≡ lit ".." ++ t
      → is_same_or_inside np (np.resolve outer) (np.resolve inner) ≡ false
  unfolding is_same_or_inside starts_with_dots
  dots_outside outer inner t apart dots =
      ground (arith, laws.again outer, laws.again inner, apart, dots)

  seen_inside :
      (outer inner rest : Text)
      → IsBelow outer inner rest
      → rest ≢ []
      → starts_with_dots rest ≡ false
      → np.is_absolute rest ≡ false
      → is_same_or_inside np (np.resolve outer) (np.resolve inner) ≡ true
  unfolding is_same_or_inside
  seen_inside outer inner rest below some_name plain relative = ground (
    arith,
    laws.again outer,
    laws.again inner,
    way_down outer inner rest below,
    not_empty rest some_name,
  )

  -- On POSIX paths: a data root below the project's boundary, or a boundary below the data root, is
  -- refused, if the way down is not empty, is not absolute, and does not begin with two dots.
  pub nested_roots_refused :
      (data_root boundary rest : Text)
      → rest ≢ []
      → starts_with_dots rest ≡ false
      → np.is_absolute rest ≡ false
      → IsBelow boundary data_root rest ⊎ IsBelow data_root boundary rest
      → assert_project_data_separation np data_root boundary ≢ ok tt
  unfolding assert_project_data_separation
  nested_roots_refused data_root boundary rest some_name plain relative (inl below) h =
      ground (arith, seen_inside boundary data_root rest below some_name plain relative)
  nested_roots_refused data_root boundary rest some_name plain relative (inr below) h =
      ground (arith, seen_inside data_root boundary rest below some_name plain relative)

  -- On POSIX paths: if the boundary of the project is absolute, and the data root is a path below
  -- the project whose first name begins with two dots, the guard that is to keep the data root out
  -- of the project lets it pass.
  pub dotted_data_root :
      (data_root boundary name : Text)
      → np.is_absolute boundary ≡ true
      → IsBelow boundary data_root (lit ".." ++ name)
      → assert_project_data_separation np data_root boundary ≡ ok tt
  unfolding assert_project_data_separation
  dotted_data_root data_root boundary name absolute below =
      let apart = below_apart boundary data_root _ below in
      let (steps, up) = way_up boundary data_root _ below in
      let apart' : text_eq (np.resolve boundary) (np.resolve data_root) ≡ false = ground (
        arith,
        text_eq_iff (np.resolve boundary) (np.resolve data_root),
        text_eq_iff (np.resolve data_root) (np.resolve boundary),
      ) in
      ground (
        arith,
        absolute,
        apart,
        dots_outside boundary data_root name apart' (way_down boundary data_root _ below),
        dots_outside data_root boundary steps apart up,
      )
