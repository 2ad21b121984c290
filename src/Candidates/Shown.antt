-- ===== src/Candidates/Shown.antt =====
-- A form that was applied to a candidate is shown as it was filled in: uis/website/lib/candidate.ts.
use miguel_n_ai_trackflow_pr.Common.{
  &&_iff, Bool, List, Option, Text, [], all, arith, codes, false, if◌then◌else◌, includes, is_empty,
  is_written, lookup, none, not, refl, some, str, text_eq, trim, trim-trim, true, ◌∙◌, ◌∷◌, ◌≡◌,
}
use miguel_n_ai_trackflow_pr.Candidates.Records.{
  CandidateFormValues, CandidateRecord, Names, all_names, apply_candidate_form_values,
  apply_status_and_stage, build_candidate_payload, email_names, full_name_names,
  get_candidate_form_values, get_candidate_full_name, get_string_field, or_text, position_names,
  refresh, required_text, set_names, set_parts, stage_names, status_names, validate_candidate_form,
}
use miguel_n_ai_trackflow_pr.Candidates.Updates.{
  all-Holds, get_string_field-Holds, guarded_has, refresh-lookup, set_names-lookup,
}

abbrev is_apart : List Text → List Text → Bool
is_apart keys others = all (λ k. not (includes others k)) keys

or_text_written : (t : Text) → is_written t ≡ true → (d : Text) → or_text (trim t) d ≡ trim t
or_text_written t w d = ground arith

required_if :
    (b : Bool) (message : Text) (rest : Option Text)
    → (if not b then some message else rest) ≡ none
    → (b ≡ true) × (rest ≡ none)
required_if true message rest h = (refl, h)
required_if false message rest h = cc

required_lem :
    (t message : Text) (rest : Option Text)
    → required_text t message rest ≡ none
    → (is_written t ≡ true) × (rest ≡ none)
required_lem t message rest h = required_if (is_written t) message rest h

module _ {N : Type 0} where
  -- What a record shows under names depends on what it has under them.
  get_string_field-same :
      (c d : CandidateRecord N) (others keys : List Text)
      → is_apart keys others ≡ true
      → ((k : Text) → includes others k ≡ false → lookup c k ≡ lookup d k)
      → get_string_field c keys ≡ get_string_field d keys
  unfolding get_string_field
  get_string_field-same c d others [] h f = refl
  get_string_field-same c d others (k ∷ keys) h f =
      let (first, rest) = (&&_iff (not (includes others k)) (is_apart keys others)).0 h in
      rw (f k (ground arith), get_string_field-same c d others keys rest f) refl

  get-set_names :
      (names : Names) (t : Text) (c : CandidateRecord N)
      → all (includes names.others) names.guards ≡ true
      → all (includes (all_names names)) (all_names names) ≡ true
      → is_written t ≡ true
      → get_string_field (set_names names (trim t) c) (all_names names) ≡ trim t
  get-set_names names t c g a w =
      get_string_field-Holds (trim t) (set_names names (trim t) c) (all_names names) (trim-trim t)
        (ground arith) (all-Holds names (trim t) c (all_names names) a)
        (guarded_has names (trim t) c g)

  get-apart :
      (names : Names) (t : Text) (c : CandidateRecord N) (keys : List Text)
      → is_apart keys (all_names names) ≡ true
      → get_string_field (set_names names t c) keys ≡ get_string_field c keys
  get-apart names t c keys h =
      get_string_field-same (set_names names t c) c (all_names names) keys h
        (set_names-lookup names t c)

  refresh-apart :
      (others : List Text) (t : Text) (c : CandidateRecord N) (keys : List Text)
      → is_apart keys others ≡ true
      → get_string_field (refresh others t c) keys ≡ get_string_field c keys
  refresh-apart others t c keys h =
      get_string_field-same (refresh others t c) c others keys h
        (λ k lacks. refresh-lookup others t c k ∙ rw lacks refl)

  set_parts-apart :
      (parts : List Text) (c : CandidateRecord N) (keys : List Text)
      → is_apart keys (codes "lastName" ∷ codes "last_name" ∷ []) ≡ true
      → is_apart keys (codes "firstName" ∷ codes "first_name" ∷ []) ≡ true
      → get_string_field (set_parts parts c) keys ≡ get_string_field c keys
  unfolding set_parts
  set_parts-apart parts c keys h k = refresh-apart _ _ _ keys h ∙ refresh-apart _ _ c keys k

  module _ (split : Text → List Text) (v : CandidateFormValues) (c : CandidateRecord N) where
    abbrev staged : CandidateRecord N
    staged = apply_status_and_stage (trim v.status) (trim v.stage) c

    abbrev named : CandidateRecord N
    named = set_names full_name_names (trim v.full_name) staged

    abbrev parted : CandidateRecord N
    parted = set_parts (split (trim v.full_name)) named

    abbrev mailed : CandidateRecord N
    mailed = set_names email_names (trim v.email) parted

    -- What the later updates leave alone.
    shown_later :
        (keys : List Text)
        → is_apart keys (all_names position_names) ≡ true
        → is_apart keys (all_names email_names) ≡ true
        → is_apart keys (codes "lastName" ∷ codes "last_name" ∷ []) ≡ true
        → is_apart keys (codes "firstName" ∷ codes "first_name" ∷ []) ≡ true
        → get_string_field (apply_candidate_form_values split v c) keys
          ≡ get_string_field named keys
    unfolding apply_candidate_form_values
    shown_later keys p e l f =
        get-apart position_names (trim v.position) mailed keys p
        ∙ get-apart email_names (trim v.email) parted keys e
        ∙ set_parts-apart (split (trim v.full_name)) named keys l f

    shown_status :
        is_written v.status ≡ true
        → get_string_field (apply_candidate_form_values split v c) (all_names status_names)
          ≡ trim v.status
    unfolding includes text_eq apply_status_and_stage
    shown_status w =
        shown_later (all_names status_names) refl refl refl refl
        ∙ get-apart full_name_names (trim v.full_name) staged (all_names status_names) refl
        ∙ get-apart stage_names (trim v.stage) (set_names status_names (trim v.status) c)
            (all_names status_names) refl
        ∙ get-set_names status_names v.status c refl refl w

    shown_stage :
        is_written v.stage ≡ true
        → get_string_field (apply_candidate_form_values split v c) (all_names stage_names)
          ≡ trim v.stage
    unfolding includes text_eq apply_status_and_stage
    shown_stage w =
        shown_later (all_names stage_names) refl refl refl refl
        ∙ get-apart full_name_names (trim v.full_name) staged (all_names stage_names) refl
        ∙ get-set_names stage_names v.stage (set_names status_names (trim v.status) c) refl refl w

    shown_full_name :
        is_written v.full_name ≡ true
        → get_candidate_full_name (apply_candidate_form_values split v c) ≡ trim v.full_name
    unfolding includes text_eq get_candidate_full_name
    shown_full_name w =
        rw
          (shown_later (all_names full_name_names) refl refl refl refl
            ∙ get-set_names full_name_names v.full_name staged refl refl w)
          (or_text_written v.full_name w _)

    shown_email :
        is_written v.email ≡ true
        → get_string_field (apply_candidate_form_values split v c) (all_names email_names)
          ≡ trim v.email
    unfolding includes text_eq apply_candidate_form_values
    shown_email w =
        get-apart position_names (trim v.position) mailed (all_names email_names) refl
        ∙ get-set_names email_names v.email parted refl refl w

    shown_position :
        is_written v.position ≡ true
        → get_string_field (apply_candidate_form_values split v c) (all_names position_names)
          ≡ trim v.position
    unfolding includes text_eq apply_candidate_form_values
    shown_position w = get-set_names position_names v.position mailed refl refl w

-- The values of the form without the white space around them.
abbrev pub trimmed_values : CandidateFormValues → CandidateFormValues
trimmed_values v = record {
  full_name = trim v.full_name;
  email = trim v.email;
  position = trim v.position;
  status = trim v.status;
  stage = trim v.stage;
}

-- Whatever names a record has for its texts, a form without an error that was applied to it is what the
-- record then shows, trimmed.
pub get_candidate_form_values-apply_candidate_form_values :
    {N : Type 0} (split : Text → List Text) (v : CandidateFormValues) (c : CandidateRecord N)
    → validate_candidate_form v ≡ none
    → get_candidate_form_values (apply_candidate_form_values split v c) ≡ trimmed_values v
unfolding get_candidate_form_values validate_candidate_form
get_candidate_form_values-apply_candidate_form_values split v c h =
    let (name, h1) = required_lem v.full_name _ _ h in
    let (email, h2) = required_lem v.email _ _ h1 in
    let (position, h3) = required_lem v.position _ _ h2 in
    let (status, h4) = required_lem v.status _ _ h3 in
    let (stage, _) = required_lem v.stage _ _ h4 in
    rw
      (
        shown_full_name split v c name,
        shown_email split v c email,
        shown_position split v c position,
        shown_status split v c status,
        shown_stage split v c stage,
      )
      refl

shown_if : (t d : Text) → is_written t ≡ true → (if is_empty (trim t) then d else trim t) ≡ trim t
shown_if t d w = ground arith

-- The first value of a trimmed text is shown.
first_shown :
    {N : Type 0} (c : CandidateRecord N) (key : Text) (keys : List Text) (t : Text)
    → is_written t ≡ true
    → lookup c key ≡ some (str (trim t))
    → get_string_field c (key ∷ keys) ≡ trim t
unfolding get_string_field
first_shown c key keys t w e = rw (e, trim-trim t) (shown_if t (get_string_field c keys) w)

-- A new candidate that is built from a form without an error shows the form, trimmed.
pub get_candidate_form_values-build_candidate_payload :
    (N : Type 0) (v : CandidateFormValues)
    → validate_candidate_form v ≡ none
    → get_candidate_form_values (build_candidate_payload {N = N} v) ≡ trimmed_values v
unfolding get_candidate_form_values validate_candidate_form get_candidate_full_name lookup text_eq
    build_candidate_payload
get_candidate_form_values-build_candidate_payload N v h =
    let (name, h1) = required_lem v.full_name _ _ h in
    let (email, h2) = required_lem v.email _ _ h1 in
    let (position, h3) = required_lem v.position _ _ h2 in
    let (status, h4) = required_lem v.status _ _ h3 in
    let (stage, _) = required_lem v.stage _ _ h4 in
    let c : CandidateRecord N = build_candidate_payload v in
    rw
      (
        first_shown c (codes "fullName") full_name_names.others v.full_name name refl,
        first_shown c (codes "email") email_names.others v.email email refl,
        first_shown c (codes "position") position_names.others v.position position refl,
        first_shown c (codes "status") status_names.others v.status status refl,
        first_shown c (codes "stage") stage_names.others v.stage stage refl,
        or_text_written v.full_name name,
      )
      refl
