-- ===== src/Flow/Hook.antt =====
-- The functions of useFlowTelemetry, uis/backoffice/hooks/useFlowTelemetry.ts, and the steps of a
-- form that uses it. `duration start end` is `Math.round(end - start)`.
use miguel_n_ai_trackflow_pr.Common.{
  List, Text, [], false, if◌then◌else◌, length, max, not, suc, take, true, ◌++◌, ◌∷◌,
}
use miguel_n_ai_trackflow_pr.Flow.Defs.{
  Action, ExitReason, FlowEvent, FlowState, FormErrorCode, Hook, add_text, completes, edits,
  edits_fields, field_edited, fields_fail, flow_abandoned, flow_completed, flow_started,
  form_validation_failed, is_confirmation, mismatch, mounts, navigated_away, opened, other,
  page_hides, submit_failed, submit_fails, submits, submitted_awaiting_response, tab_closed,
  timer_fires, unmounts, validation_fails,
}

module _ {N : Type 0} (zero_time : N) (duration : N → N → N) where
  unfoldable pub fresh : FlowState N
  fresh = record {
    started = false;
    started_at = zero_time;
    attempts = 0;
    fields = [];
    step = opened;
  }

  -- Before the form is mounted.
  unfoldable pub initial : Hook N
  initial = record { state = fresh; listening = false; timer = false; log = [] }

  abbrev pub logs : FlowEvent N → Hook N → Hook N
  logs e h = record h { log = h.log ++ e ∷ [] }

  unfoldable pub begin : N → Hook N → Hook N
  begin now h =
      if h.state.started
      then h
      else logs flow_started
          (record h { state = record fresh { started = true; started_at = now } })

  unfoldable pub abandon : ExitReason → N → Hook N → Hook N
  abandon reason now h =
      let s = h.state in
      if not s.started
      then h
      else logs (flow_abandoned s.step (length s.fields) (duration s.started_at now) reason)
          (record h { state = fresh })

  -- The effect: it cancels the pending abandon, begins, and listens.
  unfoldable pub mount : N → Hook N → Hook N
  mount now h = record (begin now (record h { timer = false })) { listening = true }

  -- The effect's cleanup.
  unfoldable pub unmount : Hook N → Hook N
  unmount h = record h { listening = false; timer = true }

  unfoldable pub fire_timer : N → Hook N → Hook N
  fire_timer now h = if h.timer then abandon navigated_away now (record h { timer = false }) else h

  unfoldable pub page_hide : N → Hook N → Hook N
  page_hide now h = if h.listening then abandon tab_closed now h else h

  unfoldable pub edit_field : Text → N → Hook N → Hook N
  edit_field name now h =
      let b = begin now h in
      record b {
        state = record b.state { fields = add_text b.state.fields name; step = field_edited };
      }

  -- `fieldsEdited` on the keys of the patch. After the first of them the clock is not read.
  unfoldable pub edit_fields : List Text → N → Hook N → Hook N
  edit_fields [] now h = h
  edit_fields (name ∷ names) now h = edit_fields names now (edit_field name now h)

  unfoldable pub attempt_submit : N → Hook N → Hook N
  attempt_submit now h =
      let b = begin now h in
      record b {
        state = record b.state {
          attempts = suc b.state.attempts;
          step = submitted_awaiting_response;
        };
      }

  unfoldable pub fail_submit : Hook N → Hook N
  fail_submit h = record h { state = record h.state { step = submit_failed } }

  unfoldable pub fail_validation : Text → FormErrorCode → Hook N → Hook N
  fail_validation name code h = logs (form_validation_failed (take 64 name) code) h

  unfoldable pub fail_each : List Text → Hook N → Hook N
  fail_each [] h = h
  fail_each (name ∷ names) h =
      fail_each names (fail_validation name (if is_confirmation name then mismatch else other) h)

  -- `validationFailedFields` on the keys of the errors
  unfoldable pub fail_fields : List Text → Hook N → Hook N
  fail_fields names h = fail_submit (fail_each names h)

  unfoldable pub complete : N → Hook N → Hook N
  complete now h =
      let s = h.state in
      if not s.started
      then h
      else logs (flow_completed (duration s.started_at now) (max 1 s.attempts))
          (record h { state = fresh })

  unfoldable pub step : Hook N → Action N → Hook N
  step h (mounts now) = mount now h
  step h unmounts = unmount h
  step h (timer_fires now) = fire_timer now h
  step h (page_hides now) = page_hide now h
  step h (edits name now) = edit_field name now h
  step h (edits_fields names now) = edit_fields names now h
  step h (submits now) = attempt_submit now h
  step h submit_fails = fail_submit h
  step h (validation_fails name code) = fail_validation name code h
  step h (fields_fail names) = fail_fields names h
  step h (completes now) = complete now h

  unfoldable pub run : Hook N → List (Action N) → Hook N
  run h [] = h
  run h (a ∷ actions) = run (step h a) actions
