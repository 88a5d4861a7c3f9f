-- ===== src/Tests/Planner.antt =====
-- A request for the status of a project, with one read of its notes.
use oh_my_pm.Common.{◌≡◌, refl, some, none, List, [], ◌∷◌, ◌↔◌, any_of}
use oh_my_pm.Common.Text.{Text, lit, text_eq, includes}
use oh_my_pm.Common.Json.{
  natural, negative, fraction, Json, string, array, object, nil, cons, end, field, get_field,
}
use oh_my_pm.Planner.{
  status, ProviderRequest, TaskNode, classify_intent, first_rule, contains, starts_with,
  extract_provider_requests, extract_from, read_requests, as_provider_request, one_of, as_text,
  read_limit, final_node_id, graph, PlannerHost, PlannerInput, build_task_graph, plan_project,
  collect_planner_node_ids,
}
use oh_my_pm.Planner.Graph.{IsOrdered, last_depends, node_ids, build_task_graph_lem}
use oh_my_pm.Planner.{provider_request_payload}
use oh_my_pm.Planner.Payload.{as_provider_request-provider_request_payload}
use oh_my_pm.Planner.Plan.{IsPlan, plan_project_iff}

-- Only the notes are registered.
abbrev host : PlannerHost
host = record {
  normalize_request_text = λ t. t;
  number_text =
      λ n. elim n [ natural _ ↦ lit "0" | negative _ ↦ lit "-1" | fraction _ ↦ lit "0.5" ];
  provider_id_values = lit "notes" ∷ lit "github" ∷ [];
  provider_action_values = lit "read" ∷ [];
  registry = some (text_eq (lit "notes"));
}

abbrev read_notes : ProviderRequest
read_notes = record {
  provider_id = lit "notes";
  action = lit "read";
  query = lit "all";
  limit = none;
}

abbrev read_notes_json : Text → Json
read_notes_json provider = object (
    field (lit "providerId") (string provider)
      (field (lit "action") (string (lit "read")) (field (lit "query") (string (lit "all")) end)))

abbrev input : Text → PlannerInput
input provider = record {
  request = lit "project status";
  locale = string (lit "en");
  context =
      object (field (lit "providerRequests") (array (cons (read_notes_json provider) nil)) end);
}

abbrev plan : List TaskNode
plan = build_task_graph host status (lit "project status") (string (lit "en")) (read_notes ∷ [])

build_task_graph_lem_example :
    IsOrdered [] plan
    × (collect_planner_node_ids plan ≡ (node_ids host 0 (read_notes ∷ []), final_node_id status))
    × (last_depends plan ≡ node_ids host 0 (read_notes ∷ []))
build_task_graph_lem_example =
    build_task_graph_lem host status (lit "project status") (string (lit "en")) (read_notes ∷ [])

plan_project_iff_example :
    (plan_project host (input (lit "notes")) ≡ graph plan) ↔ IsPlan host (input (lit "notes")) plan
plan_project_iff_example = plan_project_iff host (input (lit "notes")) plan

plans_notes : plan_project host (input (lit "notes")) ≡ graph plan
unfolding classify_intent text_eq first_rule any_of contains starts_with extract_provider_requests
    extract_from get_field read_requests as_provider_request one_of as_text includes read_limit
plans_notes = (plan_project_iff host (input (lit "notes")) plan).1 (record {
  intent = status;
  requests = read_notes ∷ [];
  classified = refl;
  read = refl;
  available = (refl, tt);
  built = refl;
})

as_provider_request-provider_request_payload_example :
    as_provider_request host
      (provider_request_payload (record read_notes { limit = some (natural 5) }))
    ≡ some (record read_notes { limit = some (natural 5) })
unfolding includes text_eq
as_provider_request-provider_request_payload_example =
    as_provider_request-provider_request_payload host
      (record read_notes { limit = some (natural 5) }) refl refl tt
