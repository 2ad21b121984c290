-- ===== src/Candidates/Records.antt =====
-- Reading and writing candidate records, uis/website/lib/candidate.ts. A record is an object whose
-- keys nobody fixed: a table of decoded values, none of them under a key that objects inherit.
use miguel_n_ai_trackflow_pr.Common.{
  Bool, Json, List, Numbers, Option, Text, [], any, arr, assign, codes, drop, elems, end, field,
  if◌then◌else◌, is_empty, is_object, is_some, is_written, join, keep, length, lookup, none, not,
  num, obj, prop, some, str, trim, ◌++◌, ◌||◌, ◌∷◌,
}

abbrev pub CandidateRecord : Type 0 → Type 0
CandidateRecord N = List (Text × Json N)

pub record CandidateFormValues : Type 0 where
  pub full_name : Text
  pub email : Text
  pub position : Text
  pub status : Text
  pub stage : Text

-- Five texts, trimmed, and the names that a record may have for each: the name that a record without
-- any gets, the names that stand in for it, and all others.
pub record Names : Type 0 where
  pub primary : Text
  pub guards : List Text
  pub others : List Text

abbrev pub full_name_names : Names
full_name_names = record {
  primary = codes "fullName";
  guards = codes "name" ∷ [];
  others = codes "name" ∷ codes "full_name" ∷ codes "candidateName" ∷ [];
}

abbrev pub email_names : Names
email_names = record {
  primary = codes "email";
  guards = codes "emailAddress" ∷ codes "contactEmail" ∷ [];
  others = codes "emailAddress" ∷ codes "contactEmail" ∷ [];
}

abbrev pub position_names : Names
position_names = record {
  primary = codes "position";
  guards = codes "appliedPosition" ∷ codes "role" ∷ codes "jobTitle" ∷ [];
  others = codes "appliedPosition" ∷ codes "role" ∷ codes "jobTitle" ∷ [];
}

abbrev pub status_names : Names
status_names = record {
  primary = codes "status";
  guards = codes "currentStatus" ∷ [];
  others = codes "currentStatus" ∷ [];
}

abbrev pub stage_names : Names
stage_names = record {
  primary = codes "stage";
  guards = codes "currentStage" ∷ codes "pipelineStage" ∷ [];
  others = codes "currentStage" ∷ codes "pipelineStage" ∷ [];
}

abbrev pub required_text : Text → Text → Option Text → Option Text
required_text t message rest = if not (is_written t) then some message else rest

unfoldable pub validate_candidate_form : CandidateFormValues → Option Text
validate_candidate_form v = required_text v.full_name (codes "Full name is required.") (
    required_text v.email (codes "Email is required.") (
      required_text v.position (codes "Position is required.") (
        required_text v.status (codes "Status is required.")
          (required_text v.stage (codes "Stage is required.") none))))

abbrev pub all_names : Names → List Text
all_names names = names.primary ∷ names.others

abbrev pub or_text : Text → Text → Text
or_text t d = if is_empty t then d else t

-- `parts` is `name.split(/\\s+/).filter(Boolean)`.
abbrev pub first_part : List Text → Text
first_part [] = []
first_part (p ∷ parts) = p

module _ {N : Type 0} where
  -- The text of a value that is a string with more than white space.
  abbrev pub text_value : Option (Json N) → Text
  text_value (some (str t)) = trim t
  text_value _ = []

  unfoldable pub get_string_field : CandidateRecord N → List Text → Text
  get_string_field c [] = []
  get_string_field c (key ∷ keys) =
      let rest = get_string_field c keys in
      if is_empty (text_value (lookup c key)) then rest else text_value (lookup c key)

  unfoldable pub get_candidate_full_name : CandidateRecord N → Text
  get_candidate_full_name c = or_text (get_string_field c (all_names full_name_names)) (
      or_text
        (trim (
          get_string_field c (codes "firstName" ∷ codes "first_name" ∷ [])
          ++ codes " "
          ++ get_string_field c (codes "lastName" ∷ codes "last_name" ∷ [])))
        (codes "Unnamed candidate"))

  unfoldable pub get_candidate_form_values : CandidateRecord N → CandidateFormValues
  get_candidate_form_values c = record {
    full_name = get_candidate_full_name c;
    email = get_string_field c (all_names email_names);
    position = get_string_field c (all_names position_names);
    status = get_string_field c (all_names status_names);
    stage = get_string_field c (all_names stage_names);
  }

  -- `key in record`
  abbrev pub has : Text → CandidateRecord N → Bool
  has key c = is_some (lookup c key)

  unfoldable pub set_primary : Names → Text → CandidateRecord N → CandidateRecord N
  set_primary names t c =
      if has names.primary c || not (any (λ key. has key c) names.guards)
      then assign names.primary (str t) c
      else c

  -- `if (key in record) record[key] = text`, for each of the keys.
  unfoldable pub refresh : List Text → Text → CandidateRecord N → CandidateRecord N
  refresh [] t c = c
  refresh (key ∷ keys) t c = refresh keys t (if has key c then assign key (str t) c else c)

  unfoldable pub set_names : Names → Text → CandidateRecord N → CandidateRecord N
  set_names names t c = refresh names.others t (set_primary names t c)

  unfoldable pub apply_status_and_stage : Text → Text → CandidateRecord N → CandidateRecord N
  apply_status_and_stage status stage c =
      set_names stage_names stage (set_names status_names status c)

  unfoldable pub set_parts : List Text → CandidateRecord N → CandidateRecord N
  set_parts parts c =
      refresh (codes "lastName" ∷ codes "last_name" ∷ []) (join (codes " ") (drop 1 parts))
        (refresh (codes "firstName" ∷ codes "first_name" ∷ []) (first_part parts) c)

  unfoldable pub apply_candidate_form_values :
      (Text → List Text) → CandidateFormValues → CandidateRecord N → CandidateRecord N
  apply_candidate_form_values split v c = set_names position_names (trim v.position) (
      set_names email_names (trim v.email) (
        set_parts (split (trim v.full_name)) (
          set_names full_name_names (trim v.full_name)
            (apply_status_and_stage (trim v.status) (trim v.stage) c))))

  unfoldable pub build_candidate_payload : CandidateFormValues → CandidateRecord N
  build_candidate_payload v =
      (codes "fullName", str (trim v.full_name))
      ∷ (codes "name", str (trim v.full_name))
      ∷ (codes "email", str (trim v.email))
      ∷ (codes "position", str (trim v.position))
      ∷ (codes "status", str (trim v.status))
      ∷ (codes "currentStatus", str (trim v.status))
      ∷ (codes "stage", str (trim v.stage))
      ∷ (codes "currentStage", str (trim v.stage))
      ∷ []

  module _ (n : Numbers N) (number_of_text : Text → N) where
    -- `Number(text)` is `number_of_text`.
    unfoldable pub parse_numeric_value : Option (Json N) → N → N
    parse_numeric_value (some (num a)) fallback = if n.is_finite a then a else fallback
    parse_numeric_value (some (str t)) fallback =
        if n.is_finite (number_of_text t) then number_of_text t else fallback
    parse_numeric_value _ fallback = fallback

    pub record CandidateListResponse : Type 0 where
      pub candidates : List (Json N)
      pub total : N
      pub page : N
      pub limit : N

    abbrev pub data_of : Option (Json N) → List (Json N)
    data_of (some (arr vs)) = elems vs
    data_of _ = []

    -- What is no object or array has none of the properties.
    unfoldable pub normalize_candidates_payload : Json N → CandidateListResponse
    normalize_candidates_payload payload =
        let items = data_of (prop payload (codes "data")) in
        record {
          candidates = keep is_object items;
          total = parse_numeric_value (prop payload (codes "total")) (n.of_ℕ (length items));
          page = parse_numeric_value (prop payload (codes "page")) (n.of_ℕ 1);
          limit = parse_numeric_value (prop payload (codes "limit")) (n.of_ℕ (length items));
        }

    abbrev pub inner_of : Option (Json N) → Json N → Json N
    inner_of (some v) payload = if is_object v then v else payload
    inner_of none payload = payload

    -- The object that stands for a candidate.
    unfoldable pub normalize_candidate_payload : Json N → Json N
    normalize_candidate_payload payload =
        if is_object payload
        then inner_of (prop payload (codes "data")) payload
        else obj (field (codes "value") payload end)
