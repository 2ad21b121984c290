-- ===== src/Reporting/Calls.antt =====
-- The requests and the error texts of uis/backoffice/lib/reporting.ts.
use miguel_n_ai_trackflow_pr.Common.{
  Bool, Bool-cases, Json, Numbers, Option, Text, [], codes, false, if◌then◌else◌, inl, inr,
  is_empty, none, null, refl, some, ℕ, ◌++◌, ◌==◌, ◌≡◌, ◌⊎◌,
}
use miguel_n_ai_trackflow_pr.Api.Checked.{
  Checked, ServiceFailure, checked_request, fails, gives, request_failure, response_failure,
}
use miguel_n_ai_trackflow_pr.Api.Friendly.{ErrorCopy, Failure, api_error, describe_error}
use miguel_n_ai_trackflow_pr.Api.Requests.{Client, Net}
use miguel_n_ai_trackflow_pr.Api.Responses.{Init}
use miguel_n_ai_trackflow_pr.Api.Safe.{IsSafeMessage, describe_error-IsSafe}
use miguel_n_ai_trackflow_pr.Reporting.Checks.{is_pipeline_run_status, is_weekly_performance}

abbrev pub reporting_error_copy : ErrorCopy
reporting_error_copy = record {
  offline = codes "Could not reach the reporting service. Check your connection and try again.";
  server =
      codes
        "The reporting service is having trouble right now. Please try again in a moment, and contact TrackFlow Tech if it keeps happening.";
  not_found = none;
}

abbrev pub week_not_calculated : Text
week_not_calculated =
    codes
      "The figures for this week have not been calculated yet. Each week is published on the Monday morning after it ends."

abbrev pub reporting_response_message : Text
reporting_response_message =
    codes
      "The reporting service returned figures this page cannot read. Please try again, and contact TrackFlow Tech if it keeps happening."

abbrev pub plain_get : Init
plain_get = record { method = none; headers = []; body = none }

abbrev pub is_missing : {N : Type 0} → ServiceFailure N → Bool
is_missing (request_failure (api_error status payload)) = status == 404
is_missing _ = false

-- `null` for the failure that an answer of 404 is, and the failure itself for any other.
abbrev pub missing_as_null : {N : Type 0} → Checked N → Checked N
missing_as_null (gives v) = gives v
missing_as_null (fails e) = if is_missing e then gives null else fails e

module _ {N : Type 0} (net : Net N) (meanwhile : ℕ → Client N → Client N) where
  unfoldable pub reporting_request : Text → (Json N → Bool) → Client N → Checked N × Client N
  reporting_request path check c =
      checked_request net meanwhile reporting_response_message path check plain_get c

  -- `encode` is `encodeURIComponent`.
  abbrev pub week_query : (Text → Text) → Option Text → Text
  week_query encode none = []
  week_query encode (some week) = if is_empty week then [] else codes "?week_start=" ++ encode week

  module _ (n : Numbers N) (is_day : Text → Bool) (is_safe_count : N → Bool) where
    unfoldable pub get_weekly_performance :
        (Text → Text) → Option Text → Client N → Checked N × Client N
    get_weekly_performance encode week_start c =
        reporting_request
          (codes "/reporting/weekly-warehouse-client-performance" ++ week_query encode week_start)
          (is_weekly_performance n is_day is_safe_count) c

    unfoldable pub get_pipeline_status : Client N → Checked N × Client N
    get_pipeline_status c =
        let (checked, c1) =
          reporting_request (codes "/reporting/pipeline-runs/latest")
            (is_pipeline_run_status n is_day is_safe_count) c in
        (missing_as_null checked, c1)

abbrev pub describe_failure : {N : Type 0} → Failure N → Text
describe_failure e = (describe_error e reporting_error_copy.server reporting_error_copy).message

unfoldable pub describe_reporting_error : {N : Type 0} → ServiceFailure N → Text
describe_reporting_error (response_failure message) = message
describe_reporting_error (request_failure e) =
    if is_missing (request_failure e) then week_not_calculated else describe_failure e

-- What leadership reads about a failed request is a text of this side or a message of the body that
-- keeps to the rule for such messages; and what the API says in an answer of 404 is never shown.
pub describe_reporting_error-IsSafeMessage :
    {N : Type 0} (e : Failure N)
    → (describe_reporting_error (request_failure e) ≡ week_not_calculated)
      ⊎ ((is_missing (request_failure e) ≡ false)
          × IsSafeMessage e reporting_error_copy.server reporting_error_copy
              (describe_reporting_error (request_failure e)))
unfolding describe_reporting_error
describe_reporting_error-IsSafeMessage {N} e = elim (Bool-cases (is_missing (request_failure e))) [
  | inl missing ↦ inl (rw missing refl)
  | inr other ↦
      inr (
        other,
        rw other (describe_error-IsSafe e reporting_error_copy.server reporting_error_copy).0,
      )
]
