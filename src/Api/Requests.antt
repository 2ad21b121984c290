-- ===== src/Api/Requests.antt =====
-- The requests of uis/backoffice/lib/api-client.ts, over the token of lib/auth-storage.ts and the
-- service of services/telemetry-service.ts. The functions are asynchronous: `meanwhile k` is
-- whatever other code does to the shared state while the k-th `await` of a call waits.
use miguel_n_ai_trackflow_pr.Common.{
  Json, List, Option, Text, [], codes, end, field, if◌then◌else◌, length, none, null, num, obj,
  some, str, suc, ℕ, ◌++◌, ◌==◌, ◌∷◌,
}
use miguel_n_ai_trackflow_pr.Api.Responses.{
  Init, Outcome, Request, Response, build_api_url, error_payload, filled, settle, throws,
  with_json_headers,
}
use miguel_n_ai_trackflow_pr.Api.Friendly.{unauthorized, unexpected}
use miguel_n_ai_trackflow_pr.Routes.Classes.{api_error_class, http_method, status_class}
use miguel_n_ai_trackflow_pr.Routes.Templates.{route_template}
use miguel_n_ai_trackflow_pr.Session.Token.{Browser, Tab, handle_unauthorized, read_token}
use miguel_n_ai_trackflow_pr.Telemetry.Defs.{Options, Service}
use miguel_n_ai_trackflow_pr.Telemetry.Service.{get_session_id, track}

-- The token, the events, the calls of `fetch` in their order, and how often `performance.now()` was
-- read.
pub record Client (N : Type 0) : Type 0 where
  pub tab : Tab
  pub telemetry : Service N
  pub requests : List Request
  pub readings : ℕ

-- What the platform and the build give: the storage, NEXT_PUBLIC_API_URL, the options of the
-- telemetry, `toUpperCase`, the answer to the n-th call of `fetch` or `none` where it rejects, the
-- n-th reading of `performance.now()`, and `Math.max(0, end - start)`.
pub record Net (N : Type 0) : Type 0 where
  pub browser : Browser
  pub api_url : Option Text
  pub options : Options N
  pub upper : Text → Text
  pub fetch : ℕ → Request → Option (Response N)
  pub performance_now : ℕ → N
  pub elapsed : N → N → N

-- What a call remembers while `fetch` waits.
pub record Pending (N : Type 0) : Type 0 where
  pub path : Text
  pub method : Option Text
  pub started_at : N
  pub request_id : Text
  pub answer : Option (Response N)

module _ {N : Type 0} (net : Net N) where
  open net use {browser, api_url, options, upper, fetch, performance_now, elapsed}

  abbrev pub latency_properties : Text → Text → Text → N → Json N
  latency_properties route verb response_class duration = obj (
      field (codes "route_template") (str route) (
        field (codes "method") (str verb) (
          field (codes "status_class") (str response_class) (
            field (codes "duration_ms") (num duration)
              (field (codes "sample_rate") (num (options.number 1)) end)))))

  abbrev pub error_properties : Text → Text → ℕ → Text → Json N
  error_properties route verb status error_class = obj (
      field (codes "route_template") (str route) (
        field (codes "method") (str verb) (
          field (codes "status_code") (num (options.number status)) (
            field (codes "error_class") (str error_class)
              (field (codes "exception_type") null end)))))

  unfoldable pub record_error : Text → Text → ℕ → Text → Option Text → Service N → Service N
  record_error route verb status request_id none s = s
  record_error route verb status request_id (some error_class) s =
      track options (codes "api_error_recorded") (error_properties route verb status error_class)
        (some request_id) s

  -- `recordApiCall` once the method and the status are classified.
  unfoldable pub record_classified : Pending N → ℕ → Option Text → Option Text → Client N → Client N
  record_classified p status (some verb) (some response_class) c =
      let route = route_template p.path in
      let duration = elapsed p.started_at (performance_now c.readings) in
      record c {
        readings = suc c.readings;
        telemetry = record_error route verb status p.request_id (api_error_class status route) (
            track options (codes "api_latency_recorded")
              (latency_properties route verb response_class duration) (some p.request_id)
              c.telemetry);
      }
  record_classified p status _ _ c = c

  unfoldable pub record_api_call : Pending N → ℕ → Client N → Client N
  record_api_call p status c =
      record_classified p status (http_method upper p.method) (status_class status) c

  -- A request up to the `await` of `fetch`, `none` where the address is not configured:
  -- `newTelemetryRequestId`, `buildApiUrl`, `withJsonHeaders` and the start of `send`.
  unfoldable pub start_at :
      Text → Init → Option Text → Text → Option Text → Client N → Option (Pending N) × Client N
  start_at path call token request_id none c = (none, c)
  start_at path call token request_id (some url) c =
      let (session, ids) = get_session_id options c.telemetry.ids in
      let request : Request = record {
        url = url;
        method = call.method;
        headers = with_json_headers session call token request_id;
        body = call.body;
      } in
      (
        some (record {
          path = path;
          method = call.method;
          started_at = performance_now c.readings;
          request_id = request_id;
          answer = fetch (length c.requests) request;
        }),
        record c {
          telemetry = record c.telemetry { ids = ids };
          requests = c.requests ++ request ∷ [];
          readings = suc c.readings;
        },
      )

  unfoldable pub start : Text → Init → Option Text → Client N → Option (Pending N) × Client N
  start path call token c =
      let ids = c.telemetry.ids in
      start_at path call token (options.uuid ids.drawn) (build_api_url api_url path)
        (record c { telemetry = record c.telemetry { ids = record ids { drawn = suc ids.drawn } } })

  -- `send` after its `await`
  unfoldable pub arrive : Pending N → Option (Response N) → Client N → Client N
  arrive p none c = c
  arrive p (some r) c = record_api_call p r.status c

  abbrev pub expired_properties : Text → Json N
  expired_properties path = obj (
      field (codes "trigger") (str (codes "api_401")) (
        field (codes "session_age_seconds") null
          (field (codes "route_template") (str (route_template path)) end)))

  -- The answer 401 of a protected route.
  unfoldable pub expire : Pending N → Client N → Client N
  expire p c = record c {
    telemetry =
        track options (codes "session_expired") (expired_properties p.path) (some p.request_id)
          c.telemetry;
    tab = handle_unauthorized browser c.tab;
  }

  -- `requestAuthenticatedApi` after `send`
  unfoldable pub settle_authenticated :
      Pending N → Option (Response N) → Client N → Outcome N (Response N) × Client N
  settle_authenticated p none c = (settle none, c)
  settle_authenticated p (some r) c =
      if r.status == 401
      then (throws (unauthorized (error_payload r)), expire p c)
      else (settle (some r), c)

  module _ (meanwhile : ℕ → Client N → Client N) where
    abbrev pub arrived : Pending N → Client N → Client N
    arrived p c = meanwhile 1 (arrive p p.answer (meanwhile 0 c))

    unfoldable pub finish_request :
        Option (Pending N) → Client N → Outcome N (Response N) × Client N
    finish_request none c = (throws unexpected, c)
    finish_request (some p) c = (settle p.answer, arrived p c)

    unfoldable pub request_api : Text → Init → Client N → Outcome N (Response N) × Client N
    request_api path call c =
        let (pending, started) = start path call none c in finish_request pending started

    unfoldable pub finish_authenticated :
        Option (Pending N) → Client N → Outcome N (Response N) × Client N
    finish_authenticated none c = (throws unexpected, c)
    finish_authenticated (some p) c = settle_authenticated p p.answer (arrived p c)

    -- `{ detail: "Your session has expired. Please sign in again." }`
    abbrev pub expired_payload : Json N
    expired_payload =
        obj (
          field (codes "detail") (str (codes "Your session has expired. Please sign in again."))
            end)

    unfoldable pub with_token :
        Option Text → Text → Init → Client N → Outcome N (Response N) × Client N
    with_token none path call c = (
      throws (unauthorized expired_payload),
      record c { tab = handle_unauthorized browser c.tab },
    )
    with_token (some token) path call c =
        let (pending, started) = start path call (some token) c in
        finish_authenticated pending started

    unfoldable pub request_authenticated_api :
        Text → Init → Client N → Outcome N (Response N) × Client N
    request_authenticated_api path call c =
        with_token (filled (read_token browser c.tab)) path call c
