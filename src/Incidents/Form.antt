-- ===== src/Incidents/Form.antt =====
-- The incident form: uis/backoffice/lib/incident.ts, emptyIncidentFormValues to
-- buildIncidentPayload.
use miguel_n_ai_trackflow_pr.Common.{
  Bool, Option, Text, [], ap, arith, codes, false, if◌then◌else◌, is_empty, is_some, length, ltb,
  none, refl, some, subst, sym, trim, trim-trim, ℕ, ◌||◌, ◌↔◌, ◌∙◌, ◌≡◌, ◌≤◌,
}
use miguel_n_ai_trackflow_pr.Incidents.Vocabulary.{description_max_length, title_max_length}

-- An enum field that is not chosen yet is the empty text.
pub record IncidentFormValues : Type 0 where
  pub title : Text
  pub description : Text
  pub category : Text
  pub status : Text
  pub origin : Text
  pub branch : Text

pub record IncidentCreatePayload : Type 0 where
  pub title : Text
  pub description : Text
  pub category : Text
  pub status : Text
  pub origin : Text
  pub branch : Text

pub record IncidentFieldErrors : Type 0 where
  pub title : Option Text
  pub description : Option Text
  pub category : Option Text
  pub status : Option Text
  pub origin : Option Text
  pub branch : Option Text

unfoldable pub empty_incident_form_values : IncidentFormValues
empty_incident_form_values = record {
  title = [];
  description = [];
  category = [];
  status = codes "open";
  origin = [];
  branch = [];
}

-- The error of a text field of which at most `most` code units are allowed.
abbrev pub text_error : ℕ → Text → Text → Text → Option Text
text_error most if_empty if_long value =
    if is_empty value then some if_empty else if ltb most (length value) then some if_long else none

abbrev pub choice_error : Text → Text → Option Text
choice_error value message = if is_empty value then some message else none

unfoldable pub validate_incident_form : IncidentFormValues → IncidentFieldErrors
validate_incident_form values = record {
  title =
      text_error title_max_length (codes "Give the incident a short title.")
        (codes "Keep the title under 120 characters.") (trim values.title);
  description =
      text_error description_max_length (codes "Describe what happened.")
        (codes "Keep the description under 4000 characters.") (trim values.description);
  category = choice_error values.category (codes "Choose a category.");
  status = none;
  origin = choice_error values.origin (codes "Choose where this report came from.");
  branch =
      choice_error values.branch
        (codes "Choose a branch. Use Central if no single facility owns this.");
}

-- `Object.keys(errors).length > 0`
unfoldable pub has_field_errors : IncidentFieldErrors → Bool
has_field_errors e =
    is_some e.title
    || is_some e.description
    || is_some e.category
    || is_some e.status
    || is_some e.origin
    || is_some e.branch

-- `none` where the source throws.
unfoldable pub build_incident_payload : IncidentFormValues → Option IncidentCreatePayload
build_incident_payload values =
    if is_empty values.category || is_empty values.origin || is_empty values.branch
    then none
    else some (record {
      title = trim values.title;
      description = trim values.description;
      category = values.category;
      status = values.status;
      origin = values.origin;
      branch = values.branch;
    })

-- The text is not empty after trimming, and then has at most `most` code units.
abbrev pub FitsIn : ℕ → Text → Type 0
FitsIn most value = (is_empty value ≡ false) × (length value ≤ most)

pub record IsSubmittable (values : IncidentFormValues) : Type 0 where
  pub title_fits : FitsIn title_max_length (trim values.title)
  pub description_fits : FitsIn description_max_length (trim values.description)
  pub category_chosen : is_empty values.category ≡ false
  pub origin_chosen : is_empty values.origin ≡ false
  pub branch_chosen : is_empty values.branch ≡ false

text_error_iff :
    (most : ℕ) (a b value : Text)
    → (is_some (text_error most a b value) ≡ false) ↔ FitsIn most value
text_error_iff most a b value = ground arith

choice_error_iff :
    (value a : Text) → (is_some (choice_error value a) ≡ false) ↔ (is_empty value ≡ false)
choice_error_iff value a = ground arith

none_of_five :
    (a b c d e : Bool)
    → ((a || b || c || false || d || e) ≡ false)
      ↔ ((a ≡ false) × (b ≡ false) × (c ≡ false) × (d ≡ false) × (e ≡ false))
none_of_five a b c d e = ground arith

-- The form has no error exactly when its title and its description, trimmed, are not empty and at
-- most 120 and 4000 code units long, and a category, an origin and a branch are chosen.
pub validate_incident_form_iff :
    (values : IncidentFormValues)
    → (has_field_errors (validate_incident_form values) ≡ false) ↔ IsSubmittable values
unfolding has_field_errors validate_incident_form
validate_incident_form_iff values = (
  λ h.
      let (title, description, category, origin, branch) =
        (none_of_five (is_some (validate_incident_form values).title)
            (is_some (validate_incident_form values).description)
            (is_some (validate_incident_form values).category)
            (is_some (validate_incident_form values).origin)
            (is_some (validate_incident_form values).branch)).0
          h in
      record {
        title_fits = (text_error_iff _ _ _ _).0 title;
        description_fits = (text_error_iff _ _ _ _).0 description;
        category_chosen = (choice_error_iff values.category _).0 category;
        origin_chosen = (choice_error_iff values.origin _).0 origin;
        branch_chosen = (choice_error_iff values.branch _).0 branch;
      },
  λ h. (none_of_five _ _ _ _ _).1 (
    (text_error_iff title_max_length _ _ _).1 h.title_fits,
    (text_error_iff description_max_length _ _ _).1 h.description_fits,
    (choice_error_iff values.category _).1 h.category_chosen,
    (choice_error_iff values.origin _).1 h.origin_chosen,
    (choice_error_iff values.branch _).1 h.branch_chosen,
  ),
)

-- The form that shows a payload.
abbrev pub form_of : IncidentCreatePayload → IncidentFormValues
form_of p = record {
  title = p.title;
  description = p.description;
  category = p.category;
  status = p.status;
  origin = p.origin;
  branch = p.branch;
}

abbrev payload_of : IncidentFormValues → IncidentCreatePayload
payload_of values = record {
  title = trim values.title;
  description = trim values.description;
  category = values.category;
  status = values.status;
  origin = values.origin;
  branch = values.branch;
}

build_incident_payload-chosen :
    (values : IncidentFormValues)
    → IsSubmittable values
    → build_incident_payload values ≡ some (payload_of values)
unfolding build_incident_payload
build_incident_payload-chosen values h =
    rw (h.category_chosen, h.origin_chosen, h.branch_chosen) refl

payload_of-trimmed :
    (values : IncidentFormValues) → payload_of (form_of (payload_of values)) ≡ payload_of values
payload_of-trimmed values = rw (trim-trim values.title, trim-trim values.description) refl

form_of-IsSubmittable :
    (values : IncidentFormValues)
    → IsSubmittable values
    → IsSubmittable (form_of (payload_of values))
form_of-IsSubmittable values h = record {
  title_fits = subst (FitsIn title_max_length) (sym (trim-trim values.title)) h.title_fits;
  description_fits =
      subst (FitsIn description_max_length) (sym (trim-trim values.description)) h.description_fits;
  category_chosen = h.category_chosen;
  origin_chosen = h.origin_chosen;
  branch_chosen = h.branch_chosen;
}

-- The payload has the form's two texts, trimmed, and its choices as they are.
pub record IsTrimmedFrom (values : IncidentFormValues) (p : IncidentCreatePayload) : Type 0 where
  pub title : p.title ≡ trim values.title
  pub description : p.description ≡ trim values.description
  pub category : p.category ≡ values.category
  pub status : p.status ≡ values.status
  pub origin : p.origin ≡ values.origin
  pub branch : p.branch ≡ values.branch

-- A form without errors builds a payload that has each text of the form trimmed and each choice as
-- it is; a form that shows the payload has no errors either and builds it again.
pub build_incident_payload-valid :
    (values : IncidentFormValues)
    → has_field_errors (validate_incident_form values) ≡ false
    → (p : IncidentCreatePayload) × (build_incident_payload values ≡ some p)
      × IsTrimmedFrom values p
      × (has_field_errors (validate_incident_form (form_of p)) ≡ false)
      × (build_incident_payload (form_of p) ≡ some p)
build_incident_payload-valid values h =
    let fine = (validate_incident_form_iff values).0 h in
    let again = form_of-IsSubmittable values fine in
    (
      payload_of values,
      build_incident_payload-chosen values fine,
      record {
        title = refl;
        description = refl;
        category = refl;
        status = refl;
        origin = refl;
        branch = refl;
      },
      (validate_incident_form_iff (form_of (payload_of values))).1 again,
      build_incident_payload-chosen (form_of (payload_of values)) again
          ∙ ap some (payload_of-trimmed values),
    )
