-- ===== src/Candidates/Tests.antt =====
-- Runs of the candidates' form.
use miguel_n_ai_trackflow_pr.Common.{
  List, Text, [], codes, none, null, refl, str, trim, ℕ, ◌∷◌, ◌≡◌,
}
use miguel_n_ai_trackflow_pr.Candidates.Records.{
  CandidateFormValues, CandidateRecord, apply_candidate_form_values, get_candidate_form_values,
  validate_candidate_form,
}
use miguel_n_ai_trackflow_pr.Candidates.Shown.{
  get_candidate_form_values-apply_candidate_form_values, trimmed_values,
}

abbrev filled_form : CandidateFormValues
filled_form = record {
  full_name = codes " Ada Lovelace ";
  email = codes "ada@x.es";
  position = codes "Analyst";
  status = codes "active";
  stage = codes "interview";
}

-- A record with other names than the form's.
abbrev other_names : CandidateRecord ℕ
other_names =
    (codes "name", str (codes "Ada"))
    ∷ (codes "currentStatus", str (codes "new"))
    ∷ (codes "jobTitle", null)
    ∷ []

abbrev whole_name : Text → List Text
whole_name t = t ∷ []

no_error : validate_candidate_form filled_form ≡ none
unfolding validate_candidate_form trim
no_error = refl

get_candidate_form_values-apply_candidate_form_values_example :
    get_candidate_form_values (apply_candidate_form_values whole_name filled_form other_names)
    ≡ trimmed_values filled_form
get_candidate_form_values-apply_candidate_form_values_example =
    get_candidate_form_values-apply_candidate_form_values whole_name filled_form other_names
      no_error
