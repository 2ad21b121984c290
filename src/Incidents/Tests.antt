-- ===== src/Incidents/Tests.antt =====
-- Runs of the incident reports, and the theorems at them.
use miguel_n_ai_trackflow_pr.Common.{
  Json, List, Option, Text, [], assign, codes, end, false, field, field_of, if◌then◌else◌, includes,
  inl, inr, lookup, none, num, obj, refl, some, str, text_eq, trim, true, whole_numbers, ℕ, ◌+◌,
  ◌∷◌, ◌≡◌, ◌≤◌,
}
use miguel_n_ai_trackflow_pr.Incidents.Vocabulary.{
  format_status_label, incident_statuses, is_incident_branch, is_incident_category,
  is_incident_origin, is_incident_status,
}
use miguel_n_ai_trackflow_pr.Incidents.Lifecycle.{
  Moves, Moves-bound, allowed_transitions_from, changes_left, is_final_status, move, offers, stay,
}
use miguel_n_ai_trackflow_pr.Incidents.Form.{
  IncidentCreatePayload, IncidentFormValues, IsTrimmedFrom, build_incident_payload,
  build_incident_payload-valid, empty_incident_form_values, form_of, has_field_errors,
  validate_incident_form,
}
use miguel_n_ai_trackflow_pr.Incidents.Payloads.{
  Incident, normalize_incident, read_counts, read_counts_from,
}
use miguel_n_ai_trackflow_pr.Incidents.Normalised.{
  IsKnown, encode_incident, normalize_incident-encode_incident,
}
use miguel_n_ai_trackflow_pr.Incidents.Filters.{
  SearchParams, SearchParamsLaws, count_active_filters, read_incident_filters,
}
use miguel_n_ai_trackflow_pr.Incidents.Statuses.{
  Change, IsShown, refused_control, replace_incident, run_changes, settle_change,
  settle_change-confirmed, settle_change-refused, shows, start_change,
}
use miguel_n_ai_trackflow_pr.Api.Friendly.{Failure, describe_error, network}

solved : Moves 2 (codes "open") (codes "resolved")
unfolding offers allowed_transitions_from lookup includes text_eq
solved = move {t = codes "in_progress"} refl (move refl stay)

open_known : is_incident_status (codes "open") ≡ true
unfolding is_incident_status includes text_eq
open_known = refl

Moves-bound_example :
    (2 + changes_left (codes "resolved") ≤ changes_left (codes "open"))
    × (is_incident_status (codes "resolved") ≡ true)
Moves-bound_example = Moves-bound solved open_known

final_run : is_final_status (codes "resolved") ≡ some true
unfolding is_final_status allowed_transitions_from lookup text_eq
final_run = refl

abbrev lost_box : IncidentFormValues
lost_box = record {
  title = codes "  Lost box ";
  description = codes "It never came.";
  category = codes "lost_parcel";
  status = codes "open";
  origin = codes "customer";
  branch = codes "central";
}

lost_box_valid : has_field_errors (validate_incident_form lost_box) ≡ false
unfolding has_field_errors validate_incident_form trim
lost_box_valid = refl

empty_form_run : has_field_errors (validate_incident_form empty_incident_form_values) ≡ true
unfolding has_field_errors validate_incident_form empty_incident_form_values trim
empty_form_run = refl

build_incident_payload-valid_example :
    (p : IncidentCreatePayload) × (build_incident_payload lost_box ≡ some p)
    × IsTrimmedFrom lost_box p
    × (has_field_errors (validate_incident_form (form_of p)) ≡ false)
    × (build_incident_payload (form_of p) ≡ some p)
build_incident_payload-valid_example = build_incident_payload-valid lost_box lost_box_valid

abbrev answer : Json ℕ
answer = obj (
    field (codes "id") (num 3) (
      field (codes "status") (str (codes "resolved"))
        (field (codes "title") (str (codes "Lost box")) end)))

abbrev status_of : Option Incident → Option Text
status_of none = none
status_of (some i) = some i.status

answer_run : status_of (normalize_incident answer) ≡ some (codes "resolved")
unfolding normalize_incident field_of text_eq is_incident_status includes
answer_run = refl

abbrev sent : Incident
sent = record {
  id = codes "i1";
  title = codes "Lost box";
  description = [];
  category = codes "lost_parcel";
  status = codes "open";
  origin = codes "customer";
  branch = codes "la_office";
  created_at = codes "2026";
  updated_at = [];
}

sent-IsKnown : IsKnown sent
unfolding is_incident_category is_incident_status is_incident_origin is_incident_branch includes
    text_eq trim
sent-IsKnown = record {
  category = refl;
  status = refl;
  origin = refl;
  branch = refl;
  title = refl;
  id = inr refl;
  description = inl refl;
  created_at = inr refl;
  updated_at = inl refl;
}

normalize_incident-encode_incident_example :
    normalize_incident {N = ℕ} (encode_incident sent) ≡ some sent
normalize_incident-encode_incident_example = normalize_incident-encode_incident ℕ sent sent-IsKnown

abbrev some_counts : Option (Json ℕ)
some_counts = some (obj (field (codes "open") (num 4) end))

counts_run :
    read_counts whole_numbers some_counts incident_statuses
    ≡ (codes "open", 4)
      ∷ (codes "in_progress", 0)
      ∷ (codes "resolved", 0)
      ∷ (codes "discarded", 0)
      ∷ []
unfolding read_counts read_counts_from assign field_of text_eq
counts_run = refl

-- Parameters as the function that `get` is.
abbrev as_functions : SearchParams (Text → Option Text)
as_functions = record {
  fresh = λ k. none;
  get = λ q k. q k;
  set = λ q j v k. if text_eq j k then some v else q k;
  show = λ q. [];
}

abbrev as_functions-laws : SearchParamsLaws as_functions
as_functions-laws = record { get-fresh = λ k. refl; get-set = λ q j k v. refl }

abbrev asked : Text → Option Text
asked k = if text_eq k (codes "status") then some (codes "open") else some (codes "nowhere")

asked_run : count_active_filters (read_incident_filters as_functions asked) ≡ 1
unfolding count_active_filters read_incident_filters is_incident_status is_incident_origin
    is_incident_branch includes text_eq
asked_run = refl

abbrev other_row : Incident
other_row = record sent { id = codes "8"; status = codes "open" }

abbrev two_rows : List Incident
two_rows = sent ∷ other_row ∷ []

abbrev meanwhile : List Change
meanwhile = shows (codes "8") (codes "in_progress") ∷ []

abbrev unreachable : Failure ℕ
unreachable = network

abbrev moved : Incident
moved = record sent { status = codes "resolved"; updated_at = codes "now" }

abbrev no_hours : Text → ℕ
no_hours at = 0

refused_run :
    (settle_change no_hours sent (codes "resolved") (inl unreachable) two_rows).control.error
    ≡ some (
        codes
          "Could not reach the incident service. Check your connection and try again. Left as Open.")
unfolding settle_change refused_control describe_error format_status_label lookup text_eq
refused_run = refl

meanwhile_other : text_eq sent.id (codes "8") ≡ false
unfolding text_eq
meanwhile_other = refl

row-IsShown : IsShown sent other_row
unfolding text_eq
row-IsShown h = cc

settle_change-refused_example :
    (settle_change no_hours sent
      (codes "resolved")
      (inl unreachable)
      (run_changes meanwhile (start_change sent (codes "resolved") two_rows))).rows
    ≡ run_changes meanwhile two_rows
settle_change-refused_example =
    settle_change-refused no_hours sent (codes "resolved") unreachable meanwhile two_rows
      (meanwhile_other, tt) ((λ h. refl), (row-IsShown, tt))

settle_change-confirmed_example :
    (settle_change no_hours sent
      (codes "resolved")
      (inr moved)
      (run_changes meanwhile (start_change sent (codes "resolved") two_rows))).rows
    ≡ run_changes meanwhile (replace_incident moved two_rows)
settle_change-confirmed_example =
    settle_change-confirmed no_hours sent moved (codes "resolved") meanwhile two_rows
      (meanwhile_other, tt) refl
