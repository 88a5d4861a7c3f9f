-- ===== src/Memory/RepairPlan/Split.antt =====
-- How `buildRepairPlan` of project-memory/src/repair-plan.ts parts the findings of a scan.
use oh_my_pm.Common.{
  ◌≡◌, refl, Bool, not, ◌&&◌, List, [], ◌∷◌, arith, count_if, any_of, Bool-cases, inl, inr,
}
use oh_my_pm.Common.Text.{Text}
use oh_my_pm.Memory.Errors.{ok, >>=-eq-ok, Result-cases}
use oh_my_pm.Memory.Integrity.{Platform}
use oh_my_pm.Memory.RepairTypes.{RepairActionCode, RepairFinding, RepairPlannedAction}
use oh_my_pm.Memory.RepairPlan.{
  is_executable, is_quarantine, derive_quarantine_entry_key, planned_action_for, split_findings,
}

planned_action_for-action :
    (p : Platform) (f : RepairFinding) (planned : RepairPlannedAction)
    → planned_action_for p f ≡ ok planned
    → (planned.action ≡ f.action) × (planned.target ≡ f.target)
unfolding planned_action_for
planned_action_for-action p f planned h = elim (Bool-cases (is_quarantine f.action)) [
  | inl q ↦ elim (Result-cases (derive_quarantine_entry_key p f.target)) [
    | inl (key, derived) ↦ (ground arith, ground arith)
    | inr (e, failed) ↦ absurd (ground arith)
  ]
  | inr q ↦ (ground arith, ground arith)
]

module _ (p : Platform) (test : RepairActionCode → Text → Bool) where
  abbrev pub passes : RepairPlannedAction → Bool
  passes a = test a.action a.target

  -- The two lists hold the findings of either kind, as the test sees them.
  pub record Parted (fs : List RepairFinding) (actions blocked : List RepairPlannedAction)
      : Type 0 where
    pub executable :
        count_if passes actions ≡ count_if (λ f. is_executable f && test f.action f.target) fs
    pub kept_blocked :
        count_if passes blocked ≡ count_if (λ f. not (is_executable f) && test f.action f.target) fs
    pub any_executable :
        any_of passes actions ≡ any_of (λ f. is_executable f && test f.action f.target) fs

  pub split_findings-Parted :
      (fs : List RepairFinding) (actions blocked : List RepairPlannedAction)
      → split_findings p fs ≡ ok (actions, blocked)
      → Parted fs actions blocked
  unfolding split_findings count_if any_of
  split_findings-Parted [] actions blocked h =
      let a : [] ≡ actions = cc in
      let b : [] ≡ blocked = cc in
      rw (← a, ← b) (record { executable = refl; kept_blocked = refl; any_executable = refl })
  split_findings-Parted (f ∷ fs) actions blocked h =
      let (planned, one, h1) = >>=-eq-ok (planned_action_for p f) _ h in
      let ((actions', blocked'), others, h2) = >>=-eq-ok (split_findings p fs) _ h1 in
      let same = planned_action_for-action p f planned one in
      let rest = split_findings-Parted fs actions' blocked' others in
      elim (Bool-cases (is_executable f)) [
        | inl runs ↦
            (let a : planned ∷ actions' ≡ actions = ground arith in
              let b : blocked' ≡ blocked = ground arith in
              rw (← a, ← b)
                (record {
                  executable = ground (arith, same.0, same.1, rest.executable);
                  kept_blocked = ground (arith, same.0, same.1, rest.kept_blocked);
                  any_executable = ground (arith, same.0, same.1, rest.any_executable);
                }))
        | inr waits ↦
            (let a : actions' ≡ actions = ground arith in
              let b : planned ∷ blocked' ≡ blocked = ground arith in
              rw (← a, ← b)
                (record {
                  executable = ground (arith, same.0, same.1, rest.executable);
                  kept_blocked = ground (arith, same.0, same.1, rest.kept_blocked);
                  any_executable = ground (arith, same.0, same.1, rest.any_executable);
                }))
      ]
