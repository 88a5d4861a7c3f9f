-- ===== src/Memory/Paths/Confined.antt =====
-- What `confine` of project-memory/src/path-safety.ts lets through.
use oh_my_pm.Common.{
  ◌≡◌, ◌≢◌, inl, inr, sym, subst, ◌∙◌, false, List, [], ◌∷◌, ◌++◌, All, any_of, Bool-cases, arith,
}
use oh_my_pm.Common.Text.{Text, lit, text_eq, text_eq_iff}
use oh_my_pm.Memory.Errors.{ok}
use oh_my_pm.Memory.Manifest.{is_empty}
use oh_my_pm.Memory.Paths.{NodePath, starts_with_dots, split_on, confine}

-- What node:path tells by a way between resolved paths that is not empty, is not absolute and does
-- not begin with two dots: it is what is behind the first one and a slash, unless that is the root
-- of the disk.
pub record WayLaws (np : NodePath) : Type 0 where
  pub again : (path : Text) → np.resolve (np.resolve path) ≡ np.resolve path
  pub way_inside :
      (base target : Text)
      → np.resolve base ≡ base
      → np.resolve target ≡ target
      → base ≢ lit "/"
      → np.relative base target ≢ []
      → starts_with_dots (np.relative base target) ≡ false
      → np.is_absolute (np.relative base target) ≡ false
      → target ≡ base ++ lit "/" ++ np.relative base target

-- The root itself, or a path below it by names of which none is two dots.
pub data IsWithin (np : NodePath) (root : Text) : Text → Type 0 where
  root_itself : IsWithin np root root
  below :
      (rest : Text)
      → rest ≢ []
      → All (λ segment. segment ≢ lit "..") (split_on np.sep rest)
      → IsWithin np root (root ++ lit "/" ++ rest)

none_is_dots :
    (segments : List Text)
    → any_of (λ segment. text_eq segment (lit "..")) segments ≡ false
    → All (λ segment. segment ≢ lit "..") segments
unfolding any_of
none_is_dots [] h = tt
none_is_dots (segment ∷ segments) h =
    (λ e. ground (arith, text_eq_iff segment (lit "..")), none_is_dots segments (ground arith))

-- On POSIX paths, below a root that is not the root of the disk: a candidate that `confine` returns
-- is the resolved candidate, and it is the resolved root, or is below it by names of which none is
-- two dots.
pub confine_lem :
    (np : NodePath) (data_root candidate target : Text)
    → WayLaws np
    → np.resolve data_root ≢ lit "/"
    → confine np data_root candidate ≡ ok target
    → (target ≡ np.resolve candidate) × IsWithin np (np.resolve data_root) target
unfolding confine
confine_lem np data_root candidate target laws deep h =
    let root = np.resolve data_root in
    let found = np.resolve candidate in
    let rel = np.relative root found in
    elim (Bool-cases (text_eq found root)) [
      | inl same ↦
          let here : target ≡ found = ground arith in
          (
            here,
            subst (IsWithin np root) (sym (here ∙ (text_eq_iff found root).0 same)) root_itself,
          )
      | inr other ↦ elim (Bool-cases (is_empty rel)) [
        | inl nothing ↦ absurd (ground arith)
        | inr some_way ↦ elim (Bool-cases (starts_with_dots rel)) [
          | inl dots ↦ absurd (ground arith)
          | inr plain ↦ elim (Bool-cases (np.is_absolute rel)) [
            | inl absolute ↦ absurd (ground arith)
            | inr relative ↦
                elim (Bool-cases
                  (any_of (λ segment. text_eq segment (lit "..")) (split_on np.sep rel))) [
                    | inl traversal ↦ absurd (ground arith)
                    | inr clean ↦
                        let here : target ≡ found = ground arith in
                        let way_on : rel ≢ [] = λ e. ground arith in
                        let behind =
                          laws.way_inside root found (laws.again data_root) (laws.again candidate)
                            deep way_on plain relative in
                        (
                          here,
                          subst (IsWithin np root) (sym (here ∙ behind))
                              (below rel way_on (none_is_dots (split_on np.sep rel) clean)),
                        )
                  ]
          ]
        ]
      ]
    ]
