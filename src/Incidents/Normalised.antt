-- ===== src/Incidents/Normalised.antt =====
-- What the normalisation of uis/backoffice/lib/incident.ts promises of the answers of the API.
use miguel_n_ai_trackflow_pr.Common.{
  All, Bool, Bool-cases, Items, Json, List, Option, Text, [], all, ap, arith, arr, bool, codes,
  elems, end, false, field, field_of, includes, inl, inr, is_object, is_written, length, none, null,
  num, obj, prop, refl, some, str, suc, text_eq, trim, true, ◌∷◌, ◌≡◌, ◌⊎◌,
}
use miguel_n_ai_trackflow_pr.Incidents.Vocabulary.{
  is_incident_branch, is_incident_category, is_incident_origin, is_incident_status,
}
use miguel_n_ai_trackflow_pr.Incidents.Payloads.{
  Incident, both, incident_of, normalize_all, normalize_incident, normalize_incidents, text_if,
}

-- The four values of the incident are of their unions, its title is written, and its other texts
-- are written or empty.
pub record IsKnown (i : Incident) : Type 0 where
  pub category : is_incident_category i.category ≡ true
  pub status : is_incident_status i.status ≡ true
  pub origin : is_incident_origin i.origin ≡ true
  pub branch : is_incident_branch i.branch ≡ true
  pub title : is_written i.title ≡ true
  pub id : (i.id ≡ []) ⊎ (is_written i.id ≡ true)
  pub description : (i.description ≡ []) ⊎ (is_written i.description ≡ true)
  pub created_at : (i.created_at ≡ []) ⊎ (is_written i.created_at ≡ true)
  pub updated_at : (i.updated_at ≡ []) ⊎ (is_written i.updated_at ≡ true)

module _ {N : Type 0} where
  text_if-passes :
      (test : Text → Bool) (v : Option (Json N)) (fallback : Text)
      → test fallback ≡ true
      → test (text_if test v fallback) ≡ true
  text_if-passes test none fallback h = h
  text_if-passes test (some (str t)) fallback h = ground arith
  text_if-passes test (some null) fallback h = h
  text_if-passes test (some (bool b)) fallback h = h
  text_if-passes test (some (num a)) fallback h = h
  text_if-passes test (some (arr vs)) fallback h = h
  text_if-passes test (some (obj fs)) fallback h = h

  text_if-written :
      (v : Option (Json N))
      → (text_if is_written v [] ≡ []) ⊎ (is_written (text_if is_written v []) ≡ true)
  text_if-written none = inl refl
  text_if-written (some (str t)) = ground arith
  text_if-written (some null) = inl refl
  text_if-written (some (bool b)) = inl refl
  text_if-written (some (num a)) = inl refl
  text_if-written (some (arr vs)) = inl refl
  text_if-written (some (obj fs)) = inl refl

  incident_of-IsKnown : (payload : Json N) → IsKnown (incident_of payload)
  unfolding is_incident_category is_incident_status is_incident_origin is_incident_branch includes
      text_eq trim
  incident_of-IsKnown payload = record {
    category =
        text_if-passes is_incident_category (prop payload (codes "category")) (codes "other") refl;
    status = text_if-passes is_incident_status (prop payload (codes "status")) (codes "open") refl;
    origin =
        text_if-passes is_incident_origin (prop payload (codes "origin")) (codes "internal") refl;
    branch =
        text_if-passes is_incident_branch (prop payload (codes "branch")) (codes "central") refl;
    title =
        text_if-passes is_written (prop payload (codes "title")) (codes "Untitled incident") refl;
    id = text_if-written (prop payload (codes "id"));
    description = text_if-written (prop payload (codes "description"));
    created_at = text_if-written (prop payload (codes "created_at"));
    updated_at = text_if-written (prop payload (codes "updated_at"));
  }

  -- Every object, whatever it holds, is read as an incident whose four values are of their unions,
  -- whose title is written, and whose other texts are written or empty.
  pub normalize_incident-IsKnown :
      (payload : Json N)
      → is_object payload ≡ true
      → (i : Incident) × (normalize_incident payload ≡ some i) × IsKnown i
  unfolding normalize_incident
  normalize_incident-IsKnown payload h =
      (incident_of payload, rw h refl, incident_of-IsKnown payload)

  -- An incident as the API sends it.
  abbrev pub encode_incident : Incident → Json N
  encode_incident i = obj (
      field (codes "id") (str i.id) (
        field (codes "title") (str i.title) (
          field (codes "description") (str i.description) (
            field (codes "category") (str i.category) (
              field (codes "status") (str i.status) (
                field (codes "origin") (str i.origin) (
                  field (codes "branch") (str i.branch) (
                    field (codes "created_at") (str i.created_at)
                      (field (codes "updated_at") (str i.updated_at) end)))))))))

  text_if-same :
      (test : Text → Bool) (v : Option (Json N)) (t fallback : Text)
      → v ≡ some (str t)
      → test t ≡ true
      → text_if test v fallback ≡ t
  text_if-same test v t fallback e h = rw (e, h) refl

  text_if-kept :
      (v : Option (Json N)) (t : Text)
      → v ≡ some (str t)
      → (t ≡ []) ⊎ (is_written t ≡ true)
      → text_if is_written v [] ≡ t
  text_if-kept v t e (inl h) = rw (e, h) (ground arith)
  text_if-kept v t e (inr h) = text_if-same is_written v t [] e h

same_incident :
    (i j : Incident)
    → i.id ≡ j.id
    → i.title ≡ j.title
    → i.description ≡ j.description
    → i.category ≡ j.category
    → i.status ≡ j.status
    → i.origin ≡ j.origin
    → i.branch ≡ j.branch
    → i.created_at ≡ j.created_at
    → i.updated_at ≡ j.updated_at
    → i ≡ j
same_incident i j a b c d e f g h k = cc

module _ (N : Type 0) where
  -- An incident with known values and written texts is read back as it was sent.
  pub normalize_incident-encode_incident :
      (i : Incident) → IsKnown i → normalize_incident {N = N} (encode_incident i) ≡ some i
  unfolding normalize_incident field_of text_eq
  normalize_incident-encode_incident i known = ap some (
      same_incident (incident_of (encode_incident {N = N} i)) i
        (text_if-kept {N = N} (some (str i.id)) i.id refl known.id)
        (text_if-same {N = N} is_written (some (str i.title)) i.title _ refl known.title)
        (text_if-kept {N = N} (some (str i.description)) i.description refl known.description)
        (text_if-same {N = N} is_incident_category (some (str i.category)) i.category _ refl
          known.category)
        (text_if-same {N = N} is_incident_status (some (str i.status)) i.status _ refl known.status)
        (text_if-same {N = N} is_incident_origin (some (str i.origin)) i.origin _ refl known.origin)
        (text_if-same {N = N} is_incident_branch (some (str i.branch)) i.branch _ refl known.branch)
        (text_if-kept {N = N} (some (str i.created_at)) i.created_at refl known.created_at)
        (text_if-kept {N = N} (some (str i.updated_at)) i.updated_at refl known.updated_at))

both-none {ℓ} : {A : Type ℓ} (o : Option A) {os : Option (List A)} → os ≡ none → both o os ≡ none
both-none none e = refl
both-none (some a) e = rw e refl

module _ {N : Type 0} where
  normalize_incident-none :
      (payload : Json N) → is_object payload ≡ false → normalize_incident payload ≡ none
  unfolding normalize_incident
  normalize_incident-none payload h = rw h refl

  normalize_all_lem :
      (vs : List (Json N))
      → ((all is_object vs ≡ true)
          × ((is : List Incident) × (normalize_all vs ≡ some is)
              × (length is ≡ length vs)
              × All IsKnown is))
        ⊎ ((all is_object vs ≡ false) × (normalize_all vs ≡ none))
  unfolding normalize_all
  normalize_all_lem [] = inl (refl, ([], refl, refl, tt))
  normalize_all_lem (v ∷ vs) = elim (Bool-cases (is_object v)) [
    | inl fine ↦ elim (normalize_all_lem vs) [
      | inl (all_are, (is, e, l, known)) ↦
          let (i, here, is_known) = normalize_incident-IsKnown v fine in
          inl (rw fine all_are, (i ∷ is, rw (here, e) refl, ap suc l, (is_known, known)))
      | inr (one_not, e) ↦ inr (rw fine one_not, both-none (normalize_incident v) e)
    ]
    | inr bad ↦ inr (rw bad refl, rw (normalize_incident-none v bad) refl)
  ]

  -- A list of incidents is read if each of its elements is an object or an array, as that many
  -- incidents with known values; if one element is not, the reading throws.
  pub normalize_incidents_lem :
      (vs : Items N)
      → ((all is_object (elems vs) ≡ true)
          × ((is : List Incident) × (normalize_incidents (arr vs) ≡ some is)
              × (length is ≡ length (elems vs))
              × All IsKnown is))
        ⊎ ((all is_object (elems vs) ≡ false) × (normalize_incidents (arr vs) ≡ none))
  unfolding normalize_incidents
  normalize_incidents_lem vs = normalize_all_lem (elems vs)
