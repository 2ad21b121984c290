-- ===== src/Api/Friendly.antt =====
-- What a user reads about a failure: uis/backoffice/lib/friendly-error.ts. `console.error` is left
-- out.
use miguel_n_ai_trackflow_pr.Common.{
  Bool, Json, List, Option, Text, [], codes, if◌then◌else◌, is_empty, is_inherited, keep, leb,
  length, none, not, or_else, some, text_eq, ℕ, ◌&&◌, ◌++◌, ◌==◌, ◌||◌, ◌∷◌,
}
use miguel_n_ai_trackflow_pr.Api.Bodies.{
  ApiFieldError, api_field_error, detail_of, extract_api_field_errors, extract_api_problems,
  first_nonempty, trimmed_text,
}
use miguel_n_ai_trackflow_pr.Api.Leaks.{leaks_internals}

-- What a request may throw: the classes of lib/api-client.ts, and anything else.
pub data Failure (N : Type 0) : Type 0 where
  unauthorized : Json N → Failure N
  network : Failure N
  unreadable : ℕ → Failure N
  api_error : ℕ → Json N → Failure N
  unexpected : Failure N

pub record ErrorCopy : Type 0 where
  pub offline : Text
  pub server : Text
  pub not_found : Option Text

-- Fields and messages: an object whose keys are no array indices, so in the order of insertion.
abbrev pub FieldMessages : Type 0
FieldMessages = List (Text × Text)

pub record FriendlyError : Type 0 where
  pub message : Text
  pub field_errors : FieldMessages

abbrev pub incident_error_copy : ErrorCopy
incident_error_copy = record {
  offline = codes "Could not reach the incident service. Check your connection and try again.";
  server =
      codes
        "The incident service is having trouble right now. Please try again in a moment, and contact TrackFlow Tech if it keeps happening.";
  not_found = some (codes "That incident no longer exists. Refresh the list to see the latest.");
}

abbrev pub general_error_copy : ErrorCopy
general_error_copy = record {
  offline = codes "Could not reach TrackFlow. Check your connection and try again.";
  server =
      codes
        "TrackFlow is having trouble right now. Please try again in a moment, and contact TrackFlow Tech if it keeps happening.";
  not_found = none;
}

abbrev pub session_message : Text
session_message = codes "Your session has expired. Please sign in again."

abbrev pub unexpected_message : Text
unexpected_message =
    codes
      "Something went wrong on our side. Please try again, and contact TrackFlow Tech if the problem continues."

-- READABLE_STATUSES
abbrev pub is_readable_status : ℕ → Bool
is_readable_status s = s == 400 || s == 401 || s == 403 || s == 404 || s == 409 || s == 422

abbrev pub max_trusted_message_length : ℕ
max_trusted_message_length = 300

unfoldable pub is_readable : Text → Bool
is_readable message =
    not (is_empty message)
    && leb (length message) max_trusted_message_length
    && not (leaks_internals message)

abbrev pub without_field : Option Text → List ApiFieldError
without_field none = []
without_field (some message) = api_field_error [] message ∷ []

unfoldable pub read_problems : {N : Type 0} → Json N → List ApiFieldError
read_problems payload = first_nonempty (extract_api_problems payload) (
    first_nonempty (extract_api_field_errors payload)
      (without_field (trimmed_text (detail_of payload))))

-- `key in record` of an object literal: an own key or an inherited one.
unfoldable pub has_key : Text → FieldMessages → Bool
has_key key [] = is_inherited key
has_key key ((k, m) ∷ r) = text_eq k key || has_key key r

-- One round of the loop: the object keeps the first message for each field.
abbrev pub add_problem : ApiFieldError → FieldMessages → FieldMessages
add_problem p r = if is_empty p.at || has_key p.at r then r else r ++ (p.at, p.message) ∷ []

unfoldable pub collect : FieldMessages → List ApiFieldError → FieldMessages
collect r [] = r
collect r (p ∷ ps) = collect (add_problem p r) ps

-- `problems.find((problem) => !problem.field)?.message`
unfoldable pub unattached : List ApiFieldError → Option Text
unattached [] = none
unattached (p ∷ ps) = if is_empty p.at then some p.message else unattached ps

abbrev pub only_message : Text → FriendlyError
only_message message = record { message = message; field_errors = [] }

-- The end of the function, for the problems that can be shown.
abbrev pub describe_problems : List ApiFieldError → ℕ → Text → ErrorCopy → FriendlyError
describe_problems [] status fallback copy =
    only_message (if status == 404 then or_else copy.not_found fallback else fallback)
describe_problems (p ∷ ps) status fallback copy = record {
  message = or_else (unattached (p ∷ ps)) fallback;
  field_errors = collect [] (p ∷ ps);
}

abbrev pub readable_problems : List ApiFieldError → List ApiFieldError
readable_problems ps = keep (λ p. is_readable p.message) ps

unfoldable pub describe_error : {N : Type 0} → Failure N → Text → ErrorCopy → FriendlyError
describe_error (unauthorized payload) fallback copy = only_message session_message
describe_error network fallback copy = only_message copy.offline
describe_error (unreadable status) fallback copy = only_message copy.server
describe_error unexpected fallback copy = only_message unexpected_message
describe_error (api_error status payload) fallback copy =
    if leb 500 status
    then only_message copy.server
    else if not (is_readable_status status)
    then only_message fallback
    else describe_problems (readable_problems (read_problems payload)) status fallback copy
