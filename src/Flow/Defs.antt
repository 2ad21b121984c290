-- ===== src/Flow/Defs.antt =====
-- One form's lifecycle, uis/backoffice/hooks/useFlowTelemetry.ts: the state that the refs hold and
-- the functions of the hook. The clock's readings are arguments, and the flow's own name, which
-- every event has alike, is left out of the events.
use miguel_n_ai_trackflow_pr.Common.{
  Bool, List, Text, [], codes, if◌then◌else◌, includes, map, none, starts_with, ℕ, ◌++◌, ◌∷◌,
}
use miguel_n_ai_trackflow_pr.Api.Leaks.{anywhere, fold_case}

pub data FormErrorCode : Type 0 where
  required : FormErrorCode
  invalid_format : FormErrorCode
  out_of_range : FormErrorCode
  exceeds_available_stock : FormErrorCode
  mismatch : FormErrorCode
  other : FormErrorCode

pub data Step : Type 0 where
  opened : Step
  field_edited : Step
  submit_failed : Step
  submitted_awaiting_response : Step

pub data ExitReason : Type 0 where
  navigated_away : ExitReason
  tab_closed : ExitReason

-- `fields` is the set, its elements in the order in which they were added.
pub record FlowState (N : Type 0) : Type 0 where
  pub started : Bool
  pub started_at : N
  pub attempts : ℕ
  pub fields : List Text
  pub step : Step

pub data FlowEvent (N : Type 0) : Type 0 where
  flow_started : FlowEvent N
  flow_abandoned : Step → ℕ → N → ExitReason → FlowEvent N
  flow_completed : N → ℕ → FlowEvent N
  form_validation_failed : Text → FormErrorCode → FlowEvent N

-- `state`, whether the page's listener is there, whether the timer of `pendingAbandon` will fire, and
-- the calls of `track`.
pub record Hook (N : Type 0) : Type 0 where
  pub state : FlowState N
  pub listening : Bool
  pub timer : Bool
  pub log : List (FlowEvent N)

-- What happens to a hook. A reading of the clock comes with what may read it.
pub data Action (N : Type 0) : Type 0 where
  mounts : N → Action N
  unmounts : Action N
  timer_fires : N → Action N
  page_hides : N → Action N
  edits : Text → N → Action N
  edits_fields : List Text → N → Action N
  submits : N → Action N
  submit_fails : Action N
  validation_fails : Text → FormErrorCode → Action N
  fields_fail : List Text → Action N
  completes : N → Action N

-- `set.add(text)`
unfoldable pub add_text : List Text → Text → List Text
add_text ts t = if includes ts t then ts else ts ++ t ∷ []

-- `/confirm/i.test(field)`
unfoldable pub is_confirmation : Text → Bool
is_confirmation s = anywhere (λ _ rest. starts_with (map fold_case rest) (codes "confirm")) none s
