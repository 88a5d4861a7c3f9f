-- ===== src/Planner/Plan.antt =====
-- When planner/src/planner.ts plans, and what.
use oh_my_pm.Common.{
  ◌≡◌, ◌≢◌, ◌↔◌, refl, sym, ap, Bool, true, Option, none, some, List, [], ◌∷◌, ◌++◌, All,
  Bool-cases, Option-cases, inl, inr, arith,
}
use oh_my_pm.Common.Text.{Text, includes}
use oh_my_pm.Planner.{
  IntentCategory, ProviderRequest, TaskNode, Extraction, extracted, rejected, graph, PlannerInput,
  PlannerHost, classify_intent, extract_provider_requests, unavailable_from,
  unavailable_provider_ids, build_task_graph, plan_available, plan_extracted, plan_project,
}

-- Every provider that is asked for is registered, if there is a registry.
abbrev pub AllAvailable : Option (Text → Bool) → List ProviderRequest → Type 0
AllAvailable none rs = Unit
AllAvailable (some has) rs = All (λ r. has r.provider_id ≡ true) rs

never_empties :
    (has : Text → Bool) (x : Text) (found : List Text) (rs : List ProviderRequest)
    → unavailable_from has (x ∷ found) rs ≢ []
unfolding unavailable_from
never_empties has x found [] h = cc
never_empties has x found (r ∷ rs) h = elim (Bool-cases (has r.provider_id)) [
  | inl there ↦ never_empties has x found rs (ground arith)
  | inr gone ↦ elim (Bool-cases (includes (x ∷ found) r.provider_id)) [
    | inl known ↦ never_empties has x found rs (ground arith)
    | inr new ↦ never_empties has x (found ++ r.provider_id ∷ []) rs (ground arith)
  ]
]

unavailable_from_iff :
    (has : Text → Bool) (rs : List ProviderRequest)
    → (unavailable_from has [] rs ≡ []) ↔ All (λ r. has r.provider_id ≡ true) rs
unfolding unavailable_from includes
unavailable_from_iff has [] = (λ h. tt, λ h. refl)
unavailable_from_iff has (r ∷ rs) = elim (Bool-cases (has r.provider_id)) [
  | inl there ↦ (
    λ h. (there, (unavailable_from_iff has rs).0 (ground arith)),
    λ h. rw there ((unavailable_from_iff has rs).1 h.1),
  )
  | inr gone ↦
      (λ h. absurd (never_empties has r.provider_id [] rs (ground arith)), λ h. absurd (cc))
]

unavailable_iff :
    (host : PlannerHost) (rs : List ProviderRequest)
    → (unavailable_provider_ids host rs ≡ []) ↔ AllAvailable host.registry rs
unfolding unavailable_provider_ids
unavailable_iff host rs =
    elim host.registry
      as (λ registry.
        (elim registry [ none ↦ [] | some has ↦ unavailable_from has [] rs ] ≡ [])
        ↔ AllAvailable registry rs) [
          | none ↦ (λ h. tt, λ h. refl)
          | some has ↦ unavailable_from_iff has rs
        ]

-- What a plan is made of.
pub record IsPlan (host : PlannerHost) (input : PlannerInput) (g : List TaskNode) : Type 0 where
  pub intent : IntentCategory
  pub requests : List ProviderRequest
  pub classified : classify_intent host input.request ≡ some intent
  pub read : extract_provider_requests host input.context ≡ extracted requests
  pub available : AllAvailable host.registry requests
  pub built : g ≡ build_task_graph host intent input.request input.locale requests

module _ (host : PlannerHost) (intent : IntentCategory) (input : PlannerInput)
    (g : List TaskNode) where
  plan_available_inv :
      (rs : List ProviderRequest) (ids : List Text)
      → plan_available host intent input rs ids ≡ graph g
      → (ids ≡ []) × (g ≡ build_task_graph host intent input.request input.locale rs)
  unfolding plan_available
  plan_available_inv rs [] h = (refl, cc)
  plan_available_inv rs (id ∷ ids) h = absurd (cc)

  plan_extracted_inv :
      (e : Extraction)
      → classify_intent host input.request ≡ some intent
      → extract_provider_requests host input.context ≡ e
      → plan_extracted host intent input e ≡ graph g
      → IsPlan host input g
  unfolding plan_extracted
  plan_extracted_inv (rejected m) classified read h = absurd (cc)
  plan_extracted_inv (extracted rs) classified read h =
      let (available, built) = plan_available_inv rs (unavailable_provider_ids host rs) h in
      record {
        intent = intent;
        requests = rs;
        classified = classified;
        read = read;
        available = (unavailable_iff host rs).0 available;
        built = built;
      }

-- The planner returns a task graph exactly if the request has an intent, the context's requests can
-- be read, and every provider they name is registered where there is a registry; it is the graph
-- that is built of them.
pub plan_project_iff :
    (host : PlannerHost) (input : PlannerInput) (g : List TaskNode)
    → (plan_project host input ≡ graph g) ↔ IsPlan host input g
unfolding plan_project plan_extracted plan_available
plan_project_iff host input g = (
  λ h. elim (Option-cases (classify_intent host input.request)) [
    | inl nothing ↦ absurd (ground arith)
    | inr (intent, classified) ↦
        plan_extracted_inv host intent input g _ classified refl (ground arith)
  ],
  λ p.
      let nothing_missing = (unavailable_iff host p.requests).1 p.available in
      rw (plan_project, p.classified, p.read, plan_extracted, nothing_missing, plan_available)
        (ap graph (sym p.built)),
)
