-- ===== src/Api/Tests.antt =====
-- Runs of requests and of what a user reads about their failures.
use miguel_n_ai_trackflow_pr.Common.{
  Bool, Json, List, Text, [], arith, codes, end, false, field, if◌then◌else◌, includes,
  is_inherited, is_object, length, lookup, none, null, obj, refl, some, str, text_eq, trim, true, ℕ,
  ◌+◌, ◌-◌, ◌↔◌, ◌∷◌, ◌≡◌, ◌≤◌,
}
use miguel_n_ai_trackflow_pr.Api.Checked.{IsAccepted, checked_request, checked_request_iff, gives}
use miguel_n_ai_trackflow_pr.Api.Fields.{describe_error-inherited}
use miguel_n_ai_trackflow_pr.Api.Friendly.{
  Failure, api_error, describe_error, general_error_copy, unauthorized,
}
use miguel_n_ai_trackflow_pr.Api.Placed.{
  form_fallback, form_message, homeless, last_for, to_field_errors, to_field_errors_lem,
}
use miguel_n_ai_trackflow_pr.Api.Recorded.{IsRecorded, record_api_call-IsRecorded}
use miguel_n_ai_trackflow_pr.Api.Requests.{
  Client, Net, Pending, arrive, expire, finish_authenticated, record_api_call, record_classified,
  record_error, request_authenticated_api, settle_authenticated, start, start_at, with_token,
}
use miguel_n_ai_trackflow_pr.Api.Responses.{
  Init, build_api_url, filled, settle, throws, with_json_headers,
}
use miguel_n_ai_trackflow_pr.Api.Safe.{IsSafe, describe_error-IsSafe}
use miguel_n_ai_trackflow_pr.Api.Sent.{Sends, request_authenticated_api-Sends}
use miguel_n_ai_trackflow_pr.Api.Sessions.{
  is_unauthorized, request_authenticated_api-tab, request_authenticated_api-unauthorized,
}
use miguel_n_ai_trackflow_pr.Routes.Classes.{http_method, status_class}
use miguel_n_ai_trackflow_pr.Session.Token.{clear_token, handle_unauthorized, read_token}
use miguel_n_ai_trackflow_pr.Session.Paths.{without_end_slashes}
use miguel_n_ai_trackflow_pr.Telemetry.Defs.{init, max_queue_size}
use miguel_n_ai_trackflow_pr.Telemetry.Service.{enabled, get_session_id}

abbrev refusal : Json ℕ
refusal = obj (
    field (codes "detail")
      (obj (
        field (codes "field") (str (codes "title"))
          (field (codes "message") (str (codes "Too long")) end)))
      end)

abbrev refused : Failure ℕ
refused = api_error 400 refusal

describe_error-IsSafe_example :
    IsSafe refused
      (codes "Not saved.")
      general_error_copy
      (describe_error refused (codes "Not saved.") general_error_copy)
describe_error-IsSafe_example =
    describe_error-IsSafe refused (codes "Not saved.") general_error_copy

constructor_is_inherited : is_inherited (codes "constructor") ≡ true
unfolding is_inherited includes text_eq
constructor_is_inherited = refl

describe_error-inherited_example :
    lookup
      (describe_error refused (codes "Not saved.") general_error_copy).field_errors
      (codes "constructor")
    ≡ none
describe_error-inherited_example =
    describe_error-inherited (codes "constructor") refused (codes "Not saved.") general_error_copy
      constructor_is_inherited

abbrev form_fields : List Text
form_fields = codes "title" ∷ codes "category" ∷ []

no_form_field : includes form_fields (codes "form") ≡ false
unfolding includes text_eq
no_form_field = refl

title_field : includes form_fields (codes "title") ≡ true
unfolding includes text_eq
title_field = refl

to_field_errors_lem_example :
    let described = describe_error refused form_fallback general_error_copy in
    (lookup (to_field_errors form_fields [] refused) (codes "title")
      ≡ last_for form_fields [] (codes "title") described.field_errors)
    × (lookup (to_field_errors form_fields [] refused) (codes "form")
        ≡ form_message form_fields [] described.message
            (homeless form_fields [] described.field_errors)
            described.field_errors)
to_field_errors_lem_example =
    to_field_errors_lem form_fields [] refused (codes "title") no_form_field title_field

-- A page whose token the API no longer takes.
abbrev net : Net ℕ
net = record {
  browser = record { has_window = true; can_get = true; can_set = true; can_remove = true };
  api_url = some (codes "https://api.test/");
  options = record {
    endpoint = codes "/t";
    has_fetch = true;
    has_beacon = true;
    uuid = λ n. n ∷ [];
    now = λ n. n;
    to_iso = λ ms. ms ∷ [];
    number = λ n. n;
  };
  upper = λ t. t;
  fetch = λ k r. some (record { status = 401; content_type = none; body = some null });
  performance_now = λ n. n;
  elapsed = λ a b. b - a;
}

abbrev client : Client ℕ
client = record {
  tab = record { stored = some (codes "old"); memory_token = none; unauthorized_events = 0 };
  telemetry = init (record { readable = true; writable = true; item = none });
  requests = [];
  readings = 0;
}

abbrev undisturbed : ℕ → Client ℕ → Client ℕ
undisturbed k c = c

abbrev listing : Init
listing = record { method = none; headers = []; body = none }

-- Opens every function of a request.
request_code : Unit {0}
unfolding request_authenticated_api with_token start start_at build_api_url finish_authenticated
    arrive record_api_call record_classified record_error settle_authenticated settle expire
    handle_unauthorized clear_token read_token http_method status_class init without_end_slashes
    trim with_json_headers get_session_id includes text_eq enabled
request_code = tt

ends_unauthorized :
    (request_authenticated_api net undisturbed (codes "/x") listing client).0
    ≡ throws (unauthorized null)
unfolding request_code
ends_unauthorized = refl

request_authenticated_api-unauthorized_example :
    read_token net.browser
      (request_authenticated_api net undisturbed (codes "/x") listing client).1.tab
    ≡ none
request_authenticated_api-unauthorized_example =
    request_authenticated_api-unauthorized net refl undisturbed (codes "/x") listing client null
      ends_unauthorized

request_authenticated_api-tab_example :
    (request_authenticated_api net undisturbed (codes "/x") listing client).1.tab ≡ (
      if is_unauthorized net
        (request_authenticated_api net undisturbed (codes "/x") listing client).0
      then handle_unauthorized net.browser client.tab
      else client.tab)
request_authenticated_api-tab_example =
    request_authenticated_api-tab net undisturbed (λ k c. refl) (codes "/x") listing client

no_header : lookup listing.headers (codes "Authorization") ≡ none
unfolding lookup
no_header = refl

request_authenticated_api-Sends_example :
    Sends listing
      (filled (read_token net.browser client.tab))
      (build_api_url net.api_url (codes "/x"))
      client.requests
      (request_authenticated_api net undisturbed (codes "/x") listing client).1.requests
request_authenticated_api-Sends_example =
    request_authenticated_api-Sends net undisturbed (λ k c. refl) (codes "/x") listing client
      no_header

abbrev waiting : Pending ℕ
waiting = record {
  path = codes "/incidents/7";
  method = none;
  started_at = 0;
  request_id = codes "r1";
  answer = none;
}

get_is_known : http_method net.upper waiting.method ≡ some (codes "GET")
unfolding http_method includes text_eq
get_is_known = refl

service_is_enabled : enabled net.options ≡ true
unfolding enabled
service_is_enabled = refl

new_service_has_room : length client.telemetry.queue + 2 ≤ max_queue_size
unfolding init
new_service_has_room = omega arith

record_api_call-IsRecorded_example :
    IsRecorded
      (codes "r1")
      404
      client.telemetry.queue
      (record_api_call net waiting 404 client).telemetry.queue
record_api_call-IsRecorded_example =
    record_api_call-IsRecorded net service_is_enabled waiting 404 (codes "GET") client get_is_known
      (omega arith) (omega arith) new_service_has_room

abbrev any_object : Json ℕ → Bool
any_object v = is_object v

checked_request_iff_example :
    ((checked_request net undisturbed
        (codes "Unreadable.")
        (codes "/x")
        any_object
        listing
        client).0
      ≡ gives refusal)
    ↔ IsAccepted any_object
        (request_authenticated_api net undisturbed (codes "/x") listing client).0
        refusal
checked_request_iff_example =
    checked_request_iff net undisturbed (codes "Unreadable.") (codes "/x") any_object listing client
      refusal
