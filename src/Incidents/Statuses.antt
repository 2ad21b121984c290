-- ===== src/Incidents/Statuses.antt =====
-- Moving an incident along its lifecycle from inside the list: handleChange of
-- uis/backoffice/components/incidents/IncidentStatusControl.tsx, with applyStatus and
-- replaceIncident of IncidentsListPage.tsx. A row's change is shown at once and is confirmed or
-- put back when the answer comes; other rows may change in between.
use miguel_n_ai_trackflow_pr.Common.{
  All, Bool, Bool-cases, List, Option, Text, [], ap, codes, false, if◌then◌else◌, inl, inr, lookup,
  none, or_else, refl, some, sym, text_eq, text_eq_sound, true, ◌++◌, ◌==◌, ◌∙◌, ◌∷◌, ◌≡◌, ◌⊎◌,
}
use miguel_n_ai_trackflow_pr.Api.Friendly.{Failure, api_error, describe_error, incident_error_copy}
use miguel_n_ai_trackflow_pr.Incidents.Payloads.{Incident}
use miguel_n_ai_trackflow_pr.Incidents.Vocabulary.{format_status_label}

-- `{ ...incident, status }`
abbrev pub set_status : Text → Text → Incident → Incident
set_status id status i = if text_eq i.id id then record i { status = status } else i

abbrev pub swap_row : Incident → Incident → Incident
swap_row updated i = if text_eq i.id updated.id then updated else i

-- The two callbacks that the page gives a row's control, on the rows of its list.
pub data Change : Type 0 where
  shows : Text → Text → Change
  confirms : Incident → Change

abbrev pub target : Change → Text
target (shows id status) = id
target (confirms updated) = updated.id

unfoldable pub change_row : Change → Incident → Incident
change_row (shows id status) i = set_status id status i
change_row (confirms updated) i = swap_row updated i

unfoldable pub change_rows : Change → List Incident → List Incident
change_rows c [] = []
change_rows c (i ∷ rows) = change_row c i ∷ change_rows c rows

abbrev pub apply_status : Text → Text → List Incident → List Incident
apply_status id status rows = change_rows (shows id status) rows

abbrev pub replace_incident : Incident → List Incident → List Incident
replace_incident updated rows = change_rows (confirms updated) rows

unfoldable pub run_changes : List Change → List Incident → List Incident
run_changes [] rows = rows
run_changes (c ∷ cs) rows = run_changes cs (change_rows c rows)

pub record StatusControl : Type 0 where
  pub is_saving : Bool
  pub error : Option Text
  pub is_gone : Bool

-- The event `incident_status_changed`.
pub record StatusChanged (N : Type 0) : Type 0 where
  pub incident_id : Text
  pub from_status : Text
  pub to_status : Text
  pub age_hours : N

-- What the answer leaves: the page's rows, the control, whether the page's `summaryToken` counts
-- on, and the event.
pub record Settled (N : Type 0) : Type 0 where
  pub rows : List Incident
  pub control : StatusControl
  pub reloads_summary : Bool
  pub event : Option (StatusChanged N)

-- A label in a template, where a text that is no status has none.
abbrev pub printed_status : Text → Text
printed_status status = or_else (format_status_label status) (codes "undefined")

abbrev pub is_not_found : {N : Type 0} → Failure N → Bool
is_not_found (api_error status payload) = status == 404
is_not_found e = false

abbrev pub move_fallback : Text → Text
move_fallback next = codes "Could not move this incident to " ++ printed_status next ++ codes "."

abbrev pub left_as : Text → Text → Text
left_as reason previous = reason ++ codes " Left as " ++ printed_status previous ++ codes "."

unfoldable pub refused_control : {N : Type 0} → Failure N → Text → Text → StatusControl
refused_control e previous next =
    let described = describe_error e (move_fallback next) incident_error_copy in
    if is_not_found e
    then record {
      is_saving = false;
      error = some (or_else incident_error_copy.not_found described.message);
      is_gone = true;
    }
    else record {
      is_saving = false;
      error = some (
          left_as (or_else (lookup described.field_errors (codes "status")) described.message)
            previous);
      is_gone = false;
    }

-- What `handleChange` does before the request, and after its answer.
abbrev pub saving : StatusControl
saving = record { is_saving = true; error = none; is_gone = false }

unfoldable pub start_change : Incident → Text → List Incident → List Incident
start_change incident next rows = apply_status incident.id next rows

-- `age` is the time since a date, in hours.
unfoldable pub settle_change :
    {N : Type 0} → (Text → N) → Incident → Text → Failure N ⊎ Incident → List Incident → Settled N
settle_change age incident next (inl e) rows = record {
  rows = apply_status incident.id incident.status rows;
  control = refused_control e incident.status next;
  reloads_summary = false;
  event = none;
}
settle_change age incident next (inr updated) rows = record {
  rows = replace_incident updated rows;
  control = record saving { is_saving = false };
  reloads_summary = true;
  event = some (record {
    incident_id = incident.id;
    from_status = incident.status;
    to_status = next;
    age_hours = age incident.created_at;
  });
}

-- A change of another row, and a row that shows what the control was given.
abbrev pub IsOther : Text → Change → Type 0
IsOther id c = text_eq id (target c) ≡ false

abbrev pub IsShown : Incident → Incident → Type 0
IsShown incident i = text_eq i.id incident.id ≡ true → i.status ≡ incident.status

change_row-id : (c : Change) (i : Incident) → (change_row c i).id ≡ i.id
unfolding change_row
change_row-id (shows id status) i = elim (Bool-cases (text_eq i.id id)) [
  | inl h ↦ rw h refl
  | inr h ↦ rw h refl
]
change_row-id (confirms updated) i = elim (Bool-cases (text_eq i.id updated.id)) [
  | inl h ↦ rw h (sym (text_eq_sound i.id updated.id h))
  | inr h ↦ rw h refl
]

change_row-other :
    (c : Change) (i : Incident) → text_eq i.id (target c) ≡ false → change_row c i ≡ i
unfolding change_row
change_row-other (shows id status) i h = rw h refl
change_row-other (confirms updated) i h = rw h refl

-- Two changes of different rows may come in either order.
change_row-swap :
    (c d : Change) (i : Incident)
    → text_eq (target c) (target d) ≡ false
    → change_row c (change_row d i) ≡ change_row d (change_row c i)
change_row-swap c d i h = elim (Bool-cases (text_eq i.id (target c))) [
  | inl e ↦
      let same = text_eq_sound i.id (target c) e in
      let out = ap (λ t. text_eq t (target d)) same ∙ h in
      ap (change_row c) (change_row-other d i out)
      ∙ sym (
          change_row-other d (change_row c i)
            (ap (λ t. text_eq t (target d)) (change_row-id c i) ∙ out))
  | inr e ↦
      change_row-other c (change_row d i) (ap (λ t. text_eq t (target c)) (change_row-id d i) ∙ e)
      ∙ sym (ap (change_row d) (change_row-other c i e))
]

change_rows-swap :
    (c d : Change) (rows : List Incident)
    → text_eq (target c) (target d) ≡ false
    → change_rows c (change_rows d rows) ≡ change_rows d (change_rows c rows)
unfolding change_rows
change_rows-swap c d [] h = refl
change_rows-swap c d (i ∷ rows) h = rw (change_row-swap c d i h, change_rows-swap c d rows h) refl

run_changes-swap :
    (c : Change) (cs : List Change) (rows : List Incident)
    → All (IsOther (target c)) cs
    → change_rows c (run_changes cs rows) ≡ run_changes cs (change_rows c rows)
unfolding run_changes
run_changes-swap c [] rows h = refl
run_changes-swap c (d ∷ cs) rows (h, hs) =
    run_changes-swap c cs (change_rows d rows) hs
    ∙ ap (run_changes cs) (change_rows-swap c d rows h)

put_back :
    (incident : Incident) (next : Text) (rows : List Incident)
    → All (IsShown incident) rows
    → apply_status incident.id incident.status (apply_status incident.id next rows) ≡ rows
unfolding change_rows change_row
put_back incident next [] h = refl
put_back incident next (i ∷ rows) (h, hs) =
    rw (put_back incident next rows hs) (elim (Bool-cases (text_eq i.id incident.id)) [
      | inl e ↦ rw (e, e, sym (h e)) refl
      | inr e ↦ rw (e, e) refl
    ])

taken_over :
    (updated : Incident) (next : Text) (rows : List Incident)
    → replace_incident updated (apply_status updated.id next rows) ≡ replace_incident updated rows
unfolding change_rows change_row
taken_over updated next [] = refl
taken_over updated next (i ∷ rows) =
    rw (taken_over updated next rows) (elim (Bool-cases (text_eq i.id updated.id)) [
      | inl e ↦ rw (e, e) refl
      | inr e ↦ rw (e, e) refl
    ])

-- A refused move leaves no trace in the list: whatever happens to other rows meanwhile, the list
-- is then what those changes alone make of it, if the row showed the status its control was given.
pub settle_change-refused :
    {N : Type 0} (age : Text → N) (incident : Incident) (next : Text) (e : Failure N)
    (cs : List Change) (rows : List Incident)
    → All (IsOther incident.id) cs
    → All (IsShown incident) rows
    → (settle_change age incident next
        (inl e)
        (run_changes cs (start_change incident next rows))).rows
      ≡ run_changes cs rows
unfolding settle_change start_change
settle_change-refused age incident next e cs rows other shown =
    run_changes-swap (shows incident.id incident.status) cs (apply_status incident.id next rows)
      other
    ∙ ap (run_changes cs) (put_back incident next rows shown)

-- A confirmed move leaves the row the API returned, whatever happens to other rows meanwhile, and
-- nothing of the status that was shown before the answer.
pub settle_change-confirmed :
    {N : Type 0} (age : Text → N) (incident updated : Incident) (next : Text) (cs : List Change)
    (rows : List Incident)
    → All (IsOther incident.id) cs
    → updated.id ≡ incident.id
    → (settle_change age incident next
        (inr updated)
        (run_changes cs (start_change incident next rows))).rows
      ≡ run_changes cs (replace_incident updated rows)
unfolding settle_change start_change
settle_change-confirmed age incident updated next cs rows other h =
    run_changes-swap (confirms updated) cs (apply_status incident.id next rows) (rw h other)
    ∙ ap (run_changes cs) (
        ap (λ id. replace_incident updated (apply_status id next rows)) (sym h)
        ∙ taken_over updated next rows)
