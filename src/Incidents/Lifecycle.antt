-- ===== src/Incidents/Lifecycle.antt =====
-- The lifecycle of an incident, uis/backoffice/lib/incident.ts: which status may follow which.
use miguel_n_ai_trackflow_pr.Common.{
  All, Bool, List, Option, Option-cases, Text, [], arith, codes, false, if◌then◌else◌, includes,
  includes-All, inl, inr, is_some, is_some-lookup, length, lookup, lookup-All, none, refl, some,
  subst, suc, text_eq, text_eq_refl, true, ℕ, ◌+◌, ◌<◌, ◌==◌, ◌↔◌, ◌∙◌, ◌∷◌, ◌≡◌, ◌≤◌,
}
use miguel_n_ai_trackflow_pr.Incidents.Vocabulary.{is_incident_status}

abbrev pub allowed_transitions : List (Text × List Text)
allowed_transitions =
    (codes "open", codes "in_progress" ∷ codes "discarded" ∷ [])
    ∷ (codes "in_progress", codes "resolved" ∷ codes "discarded" ∷ [])
    ∷ (codes "resolved", [])
    ∷ (codes "discarded", [])
    ∷ []

unfoldable pub allowed_transitions_from : Text → Option (List Text)
allowed_transitions_from status = lookup allowed_transitions status

-- `.length === 0`; of `undefined` it throws.
abbrev pub has_none : Option (List Text) → Option Bool
has_none none = none
has_none (some nexts) = some (length nexts == 0)

unfoldable pub is_final_status : Text → Option Bool
is_final_status status = has_none (allowed_transitions_from status)

abbrev pub among : Option (List Text) → Text → Bool
among none next = false
among (some nexts) next = includes nexts next

-- Whether the list offers `next` for an incident of the status.
unfoldable pub offers : Text → Text → Bool
offers status next = among (allowed_transitions_from status) next

-- The ways that an incident's status may go, with the number of changes.
pub data Moves : ℕ → Text → Text → Type 0 where
  stay : {s : Text} → Moves 0 s s
  move : {n : ℕ} {s t u : Text} → offers s t ≡ true → Moves n t u → Moves (suc n) s u

-- The changes that a status has left at most.
abbrev pub changes_left : Text → ℕ
changes_left s =
    if text_eq s (codes "open") then 2 else if text_eq s (codes "in_progress") then 1 else 0

abbrev IsStep : Text → Text → Type 0
IsStep s t = (is_incident_status t ≡ true) × (changes_left t < changes_left s)

transitions-IsStep : All (λ row. All (IsStep row.0) row.1) allowed_transitions
unfolding is_incident_status includes text_eq
transitions-IsStep = (
  ((refl, omega arith), ((refl, omega arith), tt)),
  (((refl, omega arith), ((refl, omega arith), tt)), (tt, (tt, tt))),
)

offers-IsStep : (s t : Text) → offers s t ≡ true → IsStep s t
unfolding offers allowed_transitions_from
offers-IsStep s t h = elim (Option-cases (lookup allowed_transitions s)) [
  | inl missing ↦ absurd (cc (subst (λ o. among o t ≡ true) missing h))
  | inr (nexts, e) ↦
      includes-All (IsStep s) nexts t
        (lookup-All (λ k row. All (IsStep k) row) allowed_transitions s nexts transitions-IsStep e)
        (subst (λ o. among o t ≡ true) e h)
]

-- Each change that the list offers of a known status leads to a known status with fewer changes
-- left, so a status changes at most twice, from `open`.
pub Moves-bound :
    {n : ℕ} {s t : Text}
    → Moves n s t
    → is_incident_status s ≡ true
    → (n + changes_left t ≤ changes_left s) × (is_incident_status t ≡ true)
Moves-bound stay known = (omega arith, known)
Moves-bound (move {n} {s} {t} {u} step rest) known =
    let (next_known, fewer) = offers-IsStep s t step in
    let (bound, last_known) = Moves-bound rest next_known in (omega arith, last_known)

has_none_iff :
    (o : Option (List Text))
    → is_some o ≡ true
    → (has_none o ≡ some true) ↔ ((t : Text) → among o t ≡ false)
unfolding includes
has_none_iff none h = cc
has_none_iff (some []) h = (λ _ t. refl, λ _. refl)
has_none_iff (some (next ∷ nexts)) h =
    (λ e t. ground arith, λ none_offered. ground (arith, none_offered next, text_eq_refl next))

-- A known status is final exactly when the list offers no change of it.
pub is_final_status_iff :
    (s : Text)
    → is_incident_status s ≡ true
    → (is_final_status s ≡ some true) ↔ ((t : Text) → offers s t ≡ false)
unfolding is_final_status offers allowed_transitions_from is_incident_status
is_final_status_iff s known =
    has_none_iff (lookup allowed_transitions s) (is_some-lookup allowed_transitions s ∙ known)
