-- ===== src/Memory/Migrations/Plan.antt =====
-- Plans of project-memory/src/migrations.ts end, and lead from the one version to the other.
use oh_my_pm.Common.{
  ℕ, zero, suc, ◌+◌, ◌-◌, ◌≤◌, ◌<◌, ◌≡◌, inl, inr, refl, none, some, List, [], ◌∷◌, length, arith,
  Bool-cases, Option-cases, ltb, ◌==◌,
}
use oh_my_pm.Memory.Errors.{Result, ok, err, ◌>>=◌, >>=-eq-ok}
use oh_my_pm.Memory.Migrations.{
  MigrationDefinition, MigrationRegistry, get, register, register_all, no_step, plan_steps,
  plan_migration,
}

-- Each definition stands under its source version and leads one version on.
abbrev IsKeyed : MigrationRegistry → Type 0
IsKeyed [] = Unit
IsKeyed ((k, d) ∷ r) = (d.from_version ≡ k) × (d.to_version ≡ k + 1) × IsKeyed r

get-IsKeyed :
    (r : MigrationRegistry) (v : ℕ) (d : MigrationDefinition)
    → IsKeyed r
    → get r v ≡ some d
    → (d.from_version ≡ v) × (d.to_version ≡ v + 1)
unfolding get
get-IsKeyed [] v d keyed h = absurd (ground arith)
get-IsKeyed ((k, e) ∷ r) v d keyed h = elim (Bool-cases (k == v)) [
  | inl same ↦ (ground arith, ground arith)
  | inr other ↦ get-IsKeyed r v d keyed.2 (ground arith)
]

register-IsKeyed :
    (r r' : MigrationRegistry) (d : MigrationDefinition)
    → IsKeyed r
    → register r d ≡ ok r'
    → IsKeyed r'
unfolding register
register-IsKeyed r r' d keyed h =
    let (e, step) : (r' ≡ (d.from_version, d) ∷ r) × (d.to_version ≡ d.from_version + 1) =
      (ground arith, ground arith) in
    rw e (refl, step, keyed)

register_all-IsKeyed :
    (defs : List MigrationDefinition) (r r' : MigrationRegistry)
    → IsKeyed r
    → register_all r defs ≡ ok r'
    → IsKeyed r'
unfolding register_all
register_all-IsKeyed [] r r' keyed h = let e : r ≡ r' = cc in rw e at keyed
register_all-IsKeyed (d ∷ defs) r r' keyed h =
    let (next, one, rest) = >>=-eq-ok (register r d) (λ x. register_all x defs) h in
    register_all-IsKeyed defs next r' (register-IsKeyed r next d keyed one) rest

-- Steps of one version each, from `current` to `to`.
abbrev pub Leads : ℕ → ℕ → List MigrationDefinition → Type 0
Leads current to [] = current ≡ to
Leads current to (s ∷ steps) =
    (s.from_version ≡ current) × (s.to_version ≡ current + 1) × Leads (current + 1) to steps

-- How planning ends: with such steps, or at a version that nothing is registered for.
abbrev pub Planned : MigrationRegistry → ℕ → ℕ → Result (List MigrationDefinition) → Type 0
Planned r current to (ok steps) = Leads current to steps × (length steps ≡ to - current)
Planned r current to (err e) =
    (e ≡ no_step) × ((v : ℕ) × (current ≤ v) × (v < to) × (get r v ≡ none))

module _ (r : MigrationRegistry) (keyed : IsKeyed r) where
  Planned-cons :
      (current to : ℕ) (s : MigrationDefinition) (rest : Result (List MigrationDefinition))
      → current < to
      → (s.from_version ≡ current) × (s.to_version ≡ current + 1)
      → Planned r (current + 1) to rest
      → Planned r current to (rest >>= λ steps. ok (s ∷ steps))
  Planned-cons current to s (ok steps) below e p = ((e.0, e.1, p.0), omega (arith, p.1))
  Planned-cons current to s (err x) below e (p, (v, lo, hi, gone)) = (p, (v, omega arith, hi, gone))

  plan_steps_total :
      (fuel current to : ℕ)
      → current ≤ to
      → to - current ≤ fuel
      → (x : Result (List MigrationDefinition)) × (plan_steps fuel r current to ≡ some x)
        × Planned r current to x
  unfolding plan_steps
  plan_steps_total zero current to le h = (ok [], ground arith, (omega arith, omega arith))
  plan_steps_total (suc fuel) current to le h = elim (Bool-cases (ltb current to)) [
    | inr done ↦ (ok [], ground arith, (ground arith, ground arith))
    | inl below ↦ elim (Option-cases (get r current)) [
      | inl gone ↦ (err no_step, ground arith, (refl, (current, omega arith, ground arith, gone)))
      | inr (s, found) ↦
          (let e = get-IsKeyed r current s keyed found in
            let (rest, planned, p) =
              plan_steps_total fuel (current + 1) to (ground arith) (ground arith) in
            (
              (rest >>= λ steps. ok (s ∷ steps)),
              ground (arith, planned, e),
              Planned-cons current to s rest (ground arith) e p,
            ))
    ]
  ]

-- A registry that its constructor accepts plans every upward migration in `to - from` rounds of the
-- loop. The plan is one step for each version from the source to the target; or planning stops
-- with the error for a version in between that nothing is registered for.
pub plan_migration_total :
    (defs : List MigrationDefinition) (r : MigrationRegistry) (from to : ℕ)
    → register_all [] defs ≡ ok r
    → from < to
    → (x : Result (List MigrationDefinition)) × (plan_migration r from to ≡ some x)
      × Planned r from to x
unfolding plan_migration
plan_migration_total defs r from to h below =
    let (x, planned, p) =
      plan_steps_total r (register_all-IsKeyed defs [] r tt h) (to - from) from to (omega arith)
        (omega arith) in
    (x, ground (arith, planned), p)
