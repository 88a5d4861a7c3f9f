-- ===== src/Planner/Payload.antt =====
-- The payload of a provider's node in planner/src/graph.ts is read by planner/src/context.ts.
use oh_my_pm.Common.{◌≡◌, refl, true, Option, none, some, List}
use oh_my_pm.Common.Text.{Text, lit, includes, text_eq}
use oh_my_pm.Common.Json.{Number, natural, negative, fraction, string, get_field}
use oh_my_pm.Planner.{
  ProviderRequest, PlannerHost, provider_request_payload, as_provider_request, one_of, as_text,
  read_limit, limit_field,
}

-- A limit that is absent or an integer.
abbrev pub IsIntegerLimit : Option Number → Type 0
IsIntegerLimit none = Unit
IsIntegerLimit (some (natural n)) = Unit
IsIntegerLimit (some (negative n)) = Unit
IsIntegerLimit (some (fraction n)) = ⊥

read_limit-limit_field :
    (l : Option Number)
    → IsIntegerLimit l
    → read_limit (get_field (limit_field l) (lit "limit")) ≡ some l
unfolding read_limit get_field text_eq
read_limit-limit_field none h = refl
read_limit-limit_field (some (natural n)) h = refl
read_limit-limit_field (some (negative n)) h = refl
read_limit-limit_field (some (fraction n)) h = absurd h

one_of-string :
    (values : List Text) (t : Text)
    → includes values t ≡ true
    → one_of values (some (string t)) ≡ some t
unfolding one_of as_text
one_of-string values t h = rw h refl

-- The payload of a request whose provider and action the contracts know, and whose limit is absent
-- or an integer, is read back as that request.
pub as_provider_request-provider_request_payload :
    (host : PlannerHost) (r : ProviderRequest)
    → includes host.provider_id_values r.provider_id ≡ true
    → includes host.provider_action_values r.action ≡ true
    → IsIntegerLimit r.limit
    → as_provider_request host (provider_request_payload r) ≡ some r
unfolding as_provider_request provider_request_payload get_field text_eq as_text
as_provider_request-provider_request_payload host r p a l =
    rw
      (
        as_provider_request,
        provider_request_payload,
        one_of-string host.provider_id_values r.provider_id p,
        one_of-string host.provider_action_values r.action a,
        read_limit-limit_field r.limit l,
      )
      refl
