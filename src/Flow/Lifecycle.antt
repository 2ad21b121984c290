-- ===== src/Flow/Lifecycle.antt =====
-- The order of the events of a form: what the comment of useFlowTelemetry promises,
-- uis/backoffice/hooks/useFlowTelemetry.ts.
use miguel_n_ai_trackflow_pr.Common.{
  Bool, List, Option, Text, [], arith, false, if_intro, none, not, refl, some, take, true, ◌++◌,
  ◌∙◌, ◌∷◌, ◌≡◌,
}
use miguel_n_ai_trackflow_pr.Flow.Defs.{
  Action, ExitReason, FlowEvent, FormErrorCode, Hook, completes, edits, edits_fields, fields_fail,
  flow_abandoned, flow_completed, flow_started, form_validation_failed, mounts, navigated_away,
  page_hides, submit_fails, submits, tab_closed, timer_fires, unmounts, validation_fails,
}
use miguel_n_ai_trackflow_pr.Flow.Hook.{
  abandon, attempt_submit, begin, complete, edit_field, edit_fields, fail_each, fail_fields,
  fail_submit, fail_validation, fire_timer, fresh, initial, mount, page_hide, run, step, unmount,
}

-- Whether a flow is open after an event, and `none` for an event out of order: `flow_started` opens a
-- flow that is not open, the two ends close one that is, and a failed validation may stand anywhere.
unfoldable pub advance : {N : Type 0} → Option Bool → FlowEvent N → Option Bool
advance none e = none
advance (some b) (form_validation_failed name code) = some b
advance (some false) flow_started = some true
advance (some true) flow_started = none
advance (some true) (flow_abandoned last n t reason) = some false
advance (some false) (flow_abandoned last n t reason) = none
advance (some true) (flow_completed t n) = some false
advance (some false) (flow_completed t n) = none

unfoldable pub scan : {N : Type 0} → Option Bool → List (FlowEvent N) → Option Bool
scan o [] = o
scan o (e ∷ es) = scan (advance o e) es

-- The log is in order, and a flow is open in it exactly when the state says so.
abbrev pub IsInOrder : {N : Type 0} → Hook N → Type 0
IsInOrder h = scan (some false) h.log ≡ some h.state.started

scan-append :
    {N : Type 0} (o : Option Bool) (es : List (FlowEvent N)) (e : FlowEvent N)
    → scan o (es ++ e ∷ []) ≡ advance (scan o es) e
unfolding scan
scan-append o [] e = refl
scan-append o (x ∷ es) e = scan-append (advance o x) es e

-- An event that the state allows keeps the order.
append-IsInOrder :
    {N : Type 0} (h : Hook N) (e : FlowEvent N) (b c : Bool)
    → IsInOrder h
    → h.state.started ≡ b
    → advance (some b) e ≡ some c
    → scan (some false) (h.log ++ e ∷ []) ≡ some c
append-IsInOrder h e b c k s a = scan-append (some false) h.log e ∙ rw (k, s) a

module _ {N : Type 0} (zero_time : N) (duration : N → N → N) where
  begin-IsInOrder :
      (now : N) (h : Hook N) → IsInOrder h → IsInOrder (begin zero_time duration now h)
  unfolding begin advance
  begin-IsInOrder now h k =
      if_intro IsInOrder h.state.started (λ _. k)
        (λ closed. append-IsInOrder h flow_started false true k closed refl)

  abandon-IsInOrder :
      (reason : ExitReason) (now : N) (h : Hook N)
      → IsInOrder h
      → IsInOrder (abandon zero_time duration reason now h)
  unfolding abandon advance fresh
  abandon-IsInOrder reason now h k =
      if_intro IsInOrder (not h.state.started) (λ _. k)
        (λ open_now. append-IsInOrder h _ true false k (ground arith) refl)

  complete-IsInOrder :
      (now : N) (h : Hook N) → IsInOrder h → IsInOrder (complete zero_time duration now h)
  unfolding complete advance fresh
  complete-IsInOrder now h k =
      if_intro IsInOrder (not h.state.started) (λ _. k)
        (λ open_now. append-IsInOrder h _ true false k (ground arith) refl)

  edit_field-IsInOrder :
      (name : Text) (now : N) (h : Hook N)
      → IsInOrder h
      → IsInOrder (edit_field zero_time duration name now h)
  unfolding edit_field
  edit_field-IsInOrder name now h k = begin-IsInOrder now h k

  edit_fields-IsInOrder :
      (names : List Text) (now : N) (h : Hook N)
      → IsInOrder h
      → IsInOrder (edit_fields zero_time duration names now h)
  unfolding edit_fields
  edit_fields-IsInOrder [] now h k = k
  edit_fields-IsInOrder (name ∷ names) now h k =
      edit_fields-IsInOrder names now (edit_field zero_time duration name now h)
        (edit_field-IsInOrder name now h k)

  fail_validation-IsInOrder :
      (name : Text) (code : FormErrorCode) (h : Hook N)
      → IsInOrder h
      → IsInOrder (fail_validation zero_time duration name code h)
  unfolding fail_validation advance
  fail_validation-IsInOrder name code h k =
      append-IsInOrder h (form_validation_failed (take 64 name) code) h.state.started
        h.state.started k refl refl

  fail_each-IsInOrder :
      (names : List Text) (h : Hook N)
      → IsInOrder h
      → IsInOrder (fail_each zero_time duration names h)
  unfolding fail_each
  fail_each-IsInOrder [] h k = k
  fail_each-IsInOrder (name ∷ names) h k =
      fail_each-IsInOrder names _ (fail_validation-IsInOrder name _ h k)

  step-IsInOrder :
      (a : Action N) (h : Hook N) → IsInOrder h → IsInOrder (step zero_time duration h a)
  unfolding step mount unmount fire_timer page_hide attempt_submit fail_submit fail_fields
  step-IsInOrder (mounts now) h k = begin-IsInOrder now (record h { timer = false }) k
  step-IsInOrder unmounts h k = k
  step-IsInOrder (timer_fires now) h k =
      if_intro IsInOrder h.timer
        (λ _. abandon-IsInOrder navigated_away now (record h { timer = false }) k) (λ _. k)
  step-IsInOrder (page_hides now) h k =
      if_intro IsInOrder h.listening (λ _. abandon-IsInOrder tab_closed now h k) (λ _. k)
  step-IsInOrder (edits name now) h k = edit_field-IsInOrder name now h k
  step-IsInOrder (edits_fields names now) h k = edit_fields-IsInOrder names now h k
  step-IsInOrder (submits now) h k = begin-IsInOrder now h k
  step-IsInOrder submit_fails h k = k
  step-IsInOrder (validation_fails name code) h k = fail_validation-IsInOrder name code h k
  step-IsInOrder (fields_fail names) h k = fail_each-IsInOrder names h k
  step-IsInOrder (completes now) h k = complete-IsInOrder now h k

  run-IsInOrder :
      (actions : List (Action N)) (h : Hook N)
      → IsInOrder h
      → IsInOrder (run zero_time duration h actions)
  unfolding run
  run-IsInOrder [] h k = k
  run-IsInOrder (a ∷ actions) h k = run-IsInOrder actions _ (step-IsInOrder a h k)

  -- After any actions at all the events of a form are in order: every `flow_started` follows the end of
  -- the flow before it, every end follows a start and is the only one of its flow; and a flow is open
  -- in the log exactly when the state says that it is started.
  pub run-initial-IsInOrder :
      (actions : List (Action N))
      → IsInOrder (run zero_time duration (initial zero_time duration) actions)
  unfolding initial fresh scan
  run-initial-IsInOrder actions = run-IsInOrder actions (initial zero_time duration) refl
