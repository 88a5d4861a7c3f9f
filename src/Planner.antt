-- ===== src/Planner.antt =====
-- The planner, planner/src: the requests of a context, the intent of a request, the task graph, and
-- the plan. Strings are trimmed, lowercased and collapsed by JavaScript, which is a parameter.
pub mod Graph
pub mod Plan
pub mod Payload
use oh_my_pm.Common.{
  ℕ, ◌+◌, Bool, true, false, not, ◌||◌, Option, none, some, List, [], ◌∷◌, ◌++◌, map, any_of,
  if◌then◌else◌,
}
use oh_my_pm.Common.Text.{Text, lit, text_eq, includes}
use oh_my_pm.Common.Json.{
  Number, natural, negative, fraction, Json, null, bool, number, string, array, object, Items, nil,
  cons, Fields, end, field, property, get_field,
}

pub data IntentCategory : Type 0 where
  status risk_review next_task planning handoff : IntentCategory

pub record ProviderRequest : Type 0 where
  pub provider_id : Text
  pub action : Text
  pub query : Text
  pub limit : Option Number

pub data NodeKind : Type 0 where
  provider_read skill_execution : NodeKind

pub record TaskNode : Type 0 where
  pub id : Text
  pub kind : NodeKind
  pub title : Text
  pub depends_on : List Text
  pub payload : Json

-- A reason and the context that is asked for.
pub record MissingContext : Type 0 where
  pub reason : Text
  pub requested_context : List Text

-- The requests of a context, or why there are none.
pub data Extraction : Type 0 where
  extracted : List ProviderRequest → Extraction
  rejected : MissingContext → Extraction

pub data PlannerResult : Type 0 where
  graph : List TaskNode → PlannerResult
  missing_context : MissingContext → PlannerResult

pub record PlannerInput : Type 0 where
  pub request : Text
  pub locale : Json
  pub context : Json

-- What the planner uses of JavaScript, of the contracts' lists and of the provider registry.
pub record PlannerHost : Type 0 where
  pub normalize_request_text : Text → Text
  pub number_text : Number → Text
  pub provider_id_values : List Text
  pub provider_action_values : List Text
  -- `registry.get(id) !== undefined`, where there is a registry.
  pub registry : Option (Text → Bool)

-- `text.startsWith(part)`
unfoldable pub starts_with : Text → Text → Bool
starts_with [] t = true
starts_with (c ∷ p) [] = false
starts_with (c ∷ p) (d ∷ t) =
    let rest = starts_with p t in if text_eq (c ∷ []) (d ∷ []) then rest else false

-- `text.includes(part)`
unfoldable pub contains : Text → Text → Bool
contains [] part = starts_with part []
contains (c ∷ t) part =
    let rest = contains t part in if starts_with part (c ∷ t) then true else rest

-- The rules in their order, each an intent with its keywords.
abbrev pub intent_rules : List (IntentCategory × List Text)
intent_rules =
    (status, lit "status" ∷ lit "health" ∷ lit "doctor" ∷ [])
    ∷ (risk_review, lit "risk" ∷ lit "risks" ∷ lit "blocked" ∷ lit "blocker" ∷ [])
    ∷ (next_task, lit "next" ∷ lit "todo" ∷ lit "task" ∷ lit "action item" ∷ [])
    ∷ (handoff, lit "handoff" ∷ lit "summary" ∷ lit "brief" ∷ [])
    ∷ []

unfoldable pub first_rule : List (IntentCategory × List Text) → Text → IntentCategory
first_rule [] normalized = planning
first_rule ((intent, keywords) ∷ rules) normalized =
    let rest = first_rule rules normalized in
    if any_of (contains normalized) keywords then intent else rest

unfoldable pub as_text : Option Json → Option Text
as_text (some (string t)) = some t
as_text _ = none

-- A string that is one of the values.
unfoldable pub one_of : List Text → Option Json → Option Text
one_of values value = elim (as_text value) [
  | none ↦ none
  | some t ↦ if includes values t then some t else none
]

-- `limit !== undefined`: then it must be an integer.
unfoldable pub read_limit : Option Json → Option (Option Number)
read_limit none = some none
read_limit (some (number (natural n))) = some (some (natural n))
read_limit (some (number (negative n))) = some (some (negative n))
read_limit (some _) = none

abbrev pub missing : Text → List Text → MissingContext
missing reason requested = record { reason = reason; requested_context = requested }

abbrev pub final_node_title : IntentCategory → Text
final_node_title status = lit "Prepare project status"
final_node_title risk_review = lit "Review project risks"
final_node_title next_task = lit "Derive next tasks"
final_node_title planning = lit "Create project plan"
final_node_title handoff = lit "Create project handoff"

abbrev pub intent_text : IntentCategory → Text
intent_text status = lit "status"
intent_text risk_review = lit "riskReview"
intent_text next_task = lit "nextTask"
intent_text planning = lit "planning"
intent_text handoff = lit "handoff"

abbrev pub limit_field : Option Number → Fields
limit_field none = end
limit_field (some n) = field (lit "limit") (number n) end

unfoldable pub provider_request_payload : ProviderRequest → Json
provider_request_payload r = object (
    field (lit "providerId") (string r.provider_id) (
      field (lit "action") (string r.action)
        (field (lit "query") (string r.query) (limit_field r.limit))))

unfoldable pub final_node_id : IntentCategory → Text
final_node_id intent = lit "plan:" ++ intent_text intent

-- The loop of `unavailableProviderIds`, with the ids found so far in their order.
unfoldable pub unavailable_from : (Text → Bool) → List Text → List ProviderRequest → List Text
unavailable_from has found [] = found
unavailable_from has found (r ∷ rs) =
    unavailable_from has
      (if not (has r.provider_id)
        then (if includes found r.provider_id then found else found ++ r.provider_id ∷ [])
        else found)
      rs

module _ (host : PlannerHost) where
  -- No intent for an empty request.
  unfoldable pub classify_intent : Text → Option IntentCategory
  classify_intent request =
      let normalized = host.normalize_request_text request in
      if text_eq normalized [] then none else some (first_rule intent_rules normalized)

  unfoldable pub as_provider_request : Json → Option ProviderRequest
  as_provider_request (object fs) =
      elim (one_of host.provider_id_values (get_field fs (lit "providerId"))) [
        | none ↦ none
        | some provider ↦ elim (one_of host.provider_action_values (get_field fs (lit "action"))) [
          | none ↦ none
          | some action ↦ elim (as_text (get_field fs (lit "query"))) [
            | none ↦ none
            | some query ↦ elim (read_limit (get_field fs (lit "limit"))) [
              | none ↦ none
              | some limit ↦
                  some (record {
                    provider_id = provider;
                    action = action;
                    query = query;
                    limit = limit;
                  })
            ]
          ]
        ]
      ]
  as_provider_request _ = none

  unfoldable pub read_requests : Items → Option (List ProviderRequest)
  read_requests nil = some []
  read_requests (cons x xs) = elim (as_provider_request x) [
    | none ↦ none
    | some r ↦ elim (read_requests xs) [ none ↦ none | some rs ↦ some (r ∷ rs) ]
  ]

  unfoldable pub extract_from : Option Json → Extraction
  extract_from none = extracted []
  extract_from (some (array xs)) = elim (read_requests xs) [
    | none ↦ rejected (missing (lit "invalid_provider_request") (lit "providerRequests" ∷ []))
    | some rs ↦ extracted rs
  ]
  extract_from (some _) =
      rejected (missing (lit "provider_requests_must_be_array") (lit "providerRequests" ∷ []))

  unfoldable pub extract_provider_requests : Json → Extraction
  extract_provider_requests (object fs) = extract_from (get_field fs (lit "providerRequests"))
  extract_provider_requests _ =
      rejected (missing (lit "context_must_be_object") (lit "context" ∷ []))

  unfoldable pub unavailable_provider_ids : List ProviderRequest → List Text
  unavailable_provider_ids rs = elim host.registry [
    | none ↦ []
    | some has ↦ unavailable_from has [] rs
  ]

  unfoldable pub provider_node_id : ℕ → ProviderRequest → Text
  provider_node_id index r =
      lit "provider:"
      ++ host.number_text (natural index)
      ++ lit ":"
      ++ r.provider_id
      ++ lit ":"
      ++ r.action

  unfoldable pub provider_nodes : ℕ → List ProviderRequest → List TaskNode
  provider_nodes index [] = []
  provider_nodes index (r ∷ rs) =
      record {
        id = provider_node_id index r;
        kind = provider_read;
        title = lit "Read " ++ r.provider_id ++ lit " context";
        depends_on = [];
        payload = object (field (lit "providerRequest") (provider_request_payload r) end);
      }
      ∷ provider_nodes (index + 1) rs

  unfoldable pub final_node : IntentCategory → Text → Json → List TaskNode → TaskNode
  final_node intent request locale providers = record {
    id = final_node_id intent;
    kind = skill_execution;
    title = final_node_title intent;
    depends_on = map (λ n. n.id) providers;
    payload = object (
        field (lit "intent") (string (intent_text intent))
          (field (lit "request") (string request) (field (lit "locale") locale end)));
  }

  unfoldable pub build_task_graph :
      IntentCategory → Text → Json → List ProviderRequest → List TaskNode
  build_task_graph intent request locale rs =
      let providers = provider_nodes 0 rs in
      providers ++ final_node intent request locale providers ∷ []

  unfoldable pub plan_available :
      IntentCategory → PlannerInput → List ProviderRequest → List Text → PlannerResult
  plan_available intent input rs [] = graph (build_task_graph intent input.request input.locale rs)
  plan_available intent input rs (id ∷ ids) =
      missing_context
        (missing (lit "provider_not_available") (map (λ i. lit "provider:" ++ i) (id ∷ ids)))

  unfoldable pub plan_extracted : IntentCategory → PlannerInput → Extraction → PlannerResult
  plan_extracted intent input (rejected m) = missing_context m
  plan_extracted intent input (extracted rs) =
      plan_available intent input rs (unavailable_provider_ids rs)

  unfoldable pub plan_project : PlannerInput → PlannerResult
  plan_project input = elim (classify_intent input.request) [
    | none ↦ missing_context (missing (lit "request_missing") (lit "request" ∷ []))
    | some intent ↦ plan_extracted intent input (extract_provider_requests input.context)
  ]

-- The ids of the providers' nodes, and that of the first other node or the empty string.
unfoldable pub collect_planner_node_ids : List TaskNode → List Text × Text
collect_planner_node_ids [] = ([], [])
collect_planner_node_ids (n ∷ ns) =
    let (providers, final) = collect_planner_node_ids ns in
    elim n.kind [ provider_read ↦ (n.id ∷ providers, final) | skill_execution ↦ (providers, n.id) ]
