-- ===== src/Incidents/Filters.antt =====
-- The filters of the list of incidents: readIncidentFilters and countActiveFilters of
-- uis/backoffice/lib/incident.ts, and buildIncidentsQuery of
-- uis/backoffice/services/incidents-service.ts. `URLSearchParams` is of the platform: `get` is a
-- parameter, and so are an empty list of parameters and `set`.
use miguel_n_ai_trackflow_pr.Common.{
  Bool, Bool-cases, Option, Text, [], ap, arith, codes, false, if◌then◌else◌, includes, inl, inr,
  is_empty, none, not, or_else, refl, some, text_eq, text_eq_refl, ℕ, ◌++◌, ◌+◌, ◌∙◌, ◌∷◌, ◌≡◌,
}
use miguel_n_ai_trackflow_pr.Incidents.Vocabulary.{
  is_incident_branch, is_incident_origin, is_incident_status,
}

pub record IncidentFilters : Type 0 where
  pub status : Text
  pub origin : Text
  pub branch : Text

-- `URLSearchParams`: its type, `new URLSearchParams()`, `get`, `set` and `toString()`.
pub record SearchParams (P : Type 0) : Type 0 where
  pub fresh : P
  pub get : P → Text → Option Text
  pub set : P → Text → Text → P
  pub show : P → Text

-- What the source relies on: a new object has no parameter, and `set` sets one.
pub record SearchParamsLaws {P : Type 0} (p : SearchParams P) : Type 0 where
  pub get-fresh : (k : Text) → p.get p.fresh k ≡ none
  pub get-set :
      (q : P) (j k v : Text) → p.get (p.set q j v) k ≡ (if text_eq j k then some v else p.get q k)

abbrev pub filter_if : (Text → Bool) → Text → Text
filter_if test value = if test value then value else []

-- A filter that was read reads the same again, when it is passed on only if set.
filter_if-filter_if :
    (test : Text → Bool) (value : Text)
    → test [] ≡ false
    → filter_if test (
        or_else
          (if not (is_empty (filter_if test value)) then some (filter_if test value) else none)
          [])
      ≡ filter_if test value
filter_if-filter_if test [] h = ground arith
filter_if-filter_if test (c ∷ value) h = elim (Bool-cases (test (c ∷ value))) [
  | inl passes ↦ rw (passes, passes) refl
  | inr fails ↦ rw (fails, h) refl
]

abbrev filters : Text → Text → Text → IncidentFilters
filters status origin branch = record { status = status; origin = origin; branch = branch }

same_filters :
    {s1 s2 o1 o2 b1 b2 : Text} → s1 ≡ s2 → o1 ≡ o2 → b1 ≡ b2 → filters s1 o1 b1 ≡ filters s2 o2 b2
same_filters s o b = cc

abbrev pub one_if_set : Text → ℕ
one_if_set value = if is_empty value then 0 else 1

unfoldable pub count_active_filters : IncidentFilters → ℕ
count_active_filters f = one_if_set f.status + one_if_set f.origin + one_if_set f.branch

module _ {P : Type 0} (p : SearchParams P) where
  open p use {fresh, get, set, show}

  unfoldable pub read_incident_filters : P → IncidentFilters
  read_incident_filters params = record {
    status = filter_if is_incident_status (or_else (get params (codes "status")) []);
    origin = filter_if is_incident_origin (or_else (get params (codes "origin")) []);
    branch = filter_if is_incident_branch (or_else (get params (codes "branch")) []);
  }

  -- `if (value) params.set(name, value)`
  abbrev pub set_if : Text → Text → P → P
  set_if name value params = if is_empty value then params else set params name value

  unfoldable pub incidents_params : IncidentFilters → P
  incidents_params f =
      set_if (codes "branch") f.branch
        (set_if (codes "origin") f.origin (set_if (codes "status") f.status fresh))

  abbrev pub after_question_mark : Text → Text
  after_question_mark query = if is_empty query then [] else codes "?" ++ query

  unfoldable pub build_incidents_query : IncidentFilters → Text
  build_incidents_query f = after_question_mark (show (incidents_params f))

  module _ (laws : SearchParamsLaws p) where
    open laws use {get-fresh, get-set}

    set_if-other : (q : P) (j k v : Text) → text_eq j k ≡ false → get (set_if j v q) k ≡ get q k
    set_if-other q j k v h = ground (arith, get-set q j k v)

    set_if-same :
        (q : P) (k v : Text) → get (set_if k v q) k ≡ (if not (is_empty v) then some v else get q k)
    set_if-same q k v = ground (arith, get-set q k k v, text_eq_refl k)

    get-incidents_params :
        (f : IncidentFilters)
        → (get (incidents_params f) (codes "status")
            ≡ (if not (is_empty f.status) then some f.status else none))
          × (get (incidents_params f) (codes "origin")
              ≡ (if not (is_empty f.origin) then some f.origin else none))
          × (get (incidents_params f) (codes "branch")
              ≡ (if not (is_empty f.branch) then some f.branch else none))
    unfolding incidents_params text_eq
    get-incidents_params f = (
      set_if-other _ _ _ f.branch refl
          ∙ set_if-other _ _ _ f.origin refl
          ∙ set_if-same fresh _ f.status
          ∙ ap (λ o. if not (is_empty f.status) then some f.status else o) (get-fresh _),
      set_if-other _ _ _ f.branch refl
          ∙ set_if-same _ _ f.origin
          ∙ ap (λ o. if not (is_empty f.origin) then some f.origin else o)
              (set_if-other _ _ _ f.status refl ∙ get-fresh _),
      set_if-same _ _ f.branch
          ∙ ap (λ o. if not (is_empty f.branch) then some f.branch else o)
              (set_if-other _ _ _ f.origin refl ∙ set_if-other _ _ _ f.status refl ∙ get-fresh _),
    )

    -- Filters that were read from an address come back as they are from the query that they make,
    -- so a list of incidents is asked for with the filters that the page shows.
    pub read_incident_filters-incidents_params :
        (params : P)
        → read_incident_filters (incidents_params (read_incident_filters params))
          ≡ read_incident_filters params
    unfolding read_incident_filters incidents_params is_incident_status is_incident_origin
        is_incident_branch includes text_eq
    read_incident_filters-incidents_params params =
        let f = read_incident_filters params in
        let (status, origin, branch) = get-incidents_params f in
        same_filters
          (ap (λ o. filter_if is_incident_status (or_else o [])) status
            ∙ filter_if-filter_if is_incident_status (or_else (get params (codes "status")) [])
                refl)
          (ap (λ o. filter_if is_incident_origin (or_else o [])) origin
            ∙ filter_if-filter_if is_incident_origin (or_else (get params (codes "origin")) [])
                refl)
          (ap (λ o. filter_if is_incident_branch (or_else o [])) branch
            ∙ filter_if-filter_if is_incident_branch (or_else (get params (codes "branch")) [])
                refl)
