-- ===== src/Incidents/Payloads.antt =====
-- What uis/backoffice/lib/incident.ts makes of the answers of the API: normalizeIncident to
-- normalizeIncidentSummary. `none` stands for a throw.
use miguel_n_ai_trackflow_pr.Common.{
  Bool, Json, List, Numbers, Option, Text, [], arr, assign, codes, elems, if◌then◌else◌, is_object,
  is_written, none, num, prop, some, str, ◌∷◌,
}
use miguel_n_ai_trackflow_pr.Incidents.Vocabulary.{
  incident_branches, incident_categories, incident_origins, incident_statuses, is_incident_branch,
  is_incident_category, is_incident_origin, is_incident_status,
}

pub record Incident : Type 0 where
  pub id : Text
  pub title : Text
  pub description : Text
  pub category : Text
  pub status : Text
  pub origin : Text
  pub branch : Text
  pub created_at : Text
  pub updated_at : Text

pub record IncidentCreated : Type 0 where
  pub id : Text
  pub title : Text
  pub status : Text
  pub branch : Text

pub record IncidentSummary (N : Type 0) : Type 0 where
  pub total : N
  pub by_status : List (Text × N)
  pub by_category : List (Text × N)
  pub by_origin : List (Text × N)
  pub by_branch : List (Text × N)

abbrev pub created : Option Text → Option Text → Option Text → Option Text → Option IncidentCreated
created (some id) (some title) (some status) (some branch) =
    some (record { id = id; title = title; status = status; branch = branch })
created _ _ _ _ = none

-- `payload.map(normalizeIncident)`, which throws as soon as one element does.
abbrev pub both {ℓ} : {A : Type ℓ} → Option A → Option (List A) → Option (List A)
both (some a) (some as_) = some (a ∷ as_)
both _ _ = none

module _ {N : Type 0} where
  -- `typeof value === "string" && test(value) ? value : fallback`
  abbrev pub text_if : (Text → Bool) → Option (Json N) → Text → Text
  text_if test (some (str t)) fallback = if test t then t else fallback
  text_if test _ fallback = fallback

  -- The object that is returned.
  abbrev pub incident_of : Json N → Incident
  incident_of payload = record {
    id = text_if is_written (prop payload (codes "id")) [];
    title = text_if is_written (prop payload (codes "title")) (codes "Untitled incident");
    description = text_if is_written (prop payload (codes "description")) [];
    category = text_if is_incident_category (prop payload (codes "category")) (codes "other");
    status = text_if is_incident_status (prop payload (codes "status")) (codes "open");
    origin = text_if is_incident_origin (prop payload (codes "origin")) (codes "internal");
    branch = text_if is_incident_branch (prop payload (codes "branch")) (codes "central");
    created_at = text_if is_written (prop payload (codes "created_at")) [];
    updated_at = text_if is_written (prop payload (codes "updated_at")) [];
  }

  unfoldable pub normalize_incident : Json N → Option Incident
  normalize_incident payload = if is_object payload then some (incident_of payload) else none

  -- A string that passes the test.
  abbrev pub text_that : (Text → Bool) → Option (Json N) → Option Text
  text_that test (some (str t)) = if test t then some t else none
  text_that test _ = none

  unfoldable pub normalize_incident_created : Json N → Option IncidentCreated
  normalize_incident_created payload =
      if is_object payload
      then created (text_that is_written (prop payload (codes "id")))
          (text_that is_written (prop payload (codes "title")))
          (text_that is_incident_status (prop payload (codes "status")))
          (text_that is_incident_branch (prop payload (codes "branch")))
      else none

  unfoldable pub normalize_all : List (Json N) → Option (List Incident)
  normalize_all [] = some []
  normalize_all (v ∷ vs) = both (normalize_incident v) (normalize_all vs)

  unfoldable pub normalize_incidents : Json N → Option (List Incident)
  normalize_incidents (arr vs) = normalize_all (elems vs)
  normalize_incidents _ = some []

module _ {N : Type 0} (n : Numbers N) where
  open n use {is_finite, of_ℕ}

  -- `typeof raw === "number" && Number.isFinite(raw) ? raw : 0`
  abbrev pub number_of : Option (Json N) → N
  number_of (some (num a)) = if is_finite a then a else of_ℕ 0
  number_of _ = of_ℕ 0

  -- `typeof value === "object" && value !== null ? value : {}`
  abbrev pub source_of : Option (Json N) → Text → Option (Json N)
  source_of none key = none
  source_of (some value) key = prop value key

  unfoldable pub read_counts_from : Option (Json N) → List (Text × N) → List Text → List (Text × N)
  read_counts_from value counts [] = counts
  read_counts_from value counts (key ∷ keys) =
      read_counts_from value (assign key (number_of (source_of value key)) counts) keys

  unfoldable pub read_counts : Option (Json N) → List Text → List (Text × N)
  read_counts value keys = read_counts_from value [] keys

  unfoldable pub normalize_incident_summary : Json N → IncidentSummary N
  normalize_incident_summary payload = record {
    total = number_of (prop payload (codes "total"));
    by_status = read_counts (prop payload (codes "by_status")) incident_statuses;
    by_category = read_counts (prop payload (codes "by_category")) incident_categories;
    by_origin = read_counts (prop payload (codes "by_origin")) incident_origins;
    by_branch = read_counts (prop payload (codes "by_branch")) incident_branches;
  }
