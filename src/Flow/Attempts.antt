-- ===== src/Flow/Attempts.antt =====
-- How often a form was submitted: the count in `flow_completed`,
-- uis/backoffice/hooks/useFlowTelemetry.ts.
use miguel_n_ai_trackflow_pr.Common.{
  Bool, List, Text, [], all, ap, arith, false, max, refl, suc, true, ℕ, ◌++◌, ◌+◌, ◌∷◌, ◌≡◌,
}
use miguel_n_ai_trackflow_pr.Flow.Defs.{
  Action, FlowEvent, Hook, completes, edits, edits_fields, fields_fail, flow_completed, mounts,
  page_hides, submit_fails, submits, timer_fires, unmounts, validation_fails,
}
use miguel_n_ai_trackflow_pr.Flow.Hook.{
  attempt_submit, begin, complete, edit_field, edit_fields, fail_fields, fail_submit,
  fail_validation, fresh, initial, mount, run, step,
}
use miguel_n_ai_trackflow_pr.Flow.Ends.{fail_each-state, run-append}

-- What a user does in a form that stays open.
abbrev pub is_editing : {N : Type 0} → Action N → Bool
is_editing (edits name now) = true
is_editing (edits_fields names now) = true
is_editing (submits now) = true
is_editing submit_fails = true
is_editing (validation_fails name code) = true
is_editing (fields_fail names) = true
is_editing _ = false

unfoldable pub submits_in : {N : Type 0} → List (Action N) → ℕ
submits_in [] = 0
submits_in (submits now ∷ actions) = suc (submits_in actions)
submits_in (_ ∷ actions) = submits_in actions

-- An open flow that was submitted n times.
abbrev IsOpen : {N : Type 0} → ℕ → Hook N → Type 0
IsOpen n h = (h.state.started ≡ true) × (h.state.attempts ≡ n)

-- A log that ends with the completion of a flow of n attempts.
pub record IsCompleted {N : Type 0} (n : ℕ) (all_events : List (FlowEvent N)) : Type 0 where
  pub earlier : List (FlowEvent N)
  pub took : N
  pub in_log : all_events ≡ earlier ++ flow_completed took n ∷ []

module _ {N : Type 0} (zero_time : N) (duration : N → N → N) where
  begin-open : (now : N) (h : Hook N) → h.state.started ≡ true → begin zero_time duration now h ≡ h
  unfolding begin
  begin-open now h e = rw e refl

  edit_field-IsOpen :
      (n : ℕ) (name : Text) (now : N) (h : Hook N)
      → IsOpen n h
      → IsOpen n (edit_field zero_time duration name now h)
  unfolding edit_field
  edit_field-IsOpen n name now h (s, a) = rw (begin-open now h s) (s, a)

  edit_fields-IsOpen :
      (n : ℕ) (names : List Text) (now : N) (h : Hook N)
      → IsOpen n h
      → IsOpen n (edit_fields zero_time duration names now h)
  unfolding edit_fields
  edit_fields-IsOpen n [] now h k = k
  edit_fields-IsOpen n (name ∷ names) now h k =
      edit_fields-IsOpen n names now _ (edit_field-IsOpen n name now h k)

  attempt_submit-IsOpen :
      (n : ℕ) (now : N) (h : Hook N)
      → IsOpen n h
      → IsOpen (suc n) (attempt_submit zero_time duration now h)
  unfolding attempt_submit
  attempt_submit-IsOpen n now h (s, a) = rw (begin-open now h s) (s, ap suc a)

  run-IsOpen :
      (actions : List (Action N)) (n : ℕ) (h : Hook N)
      → all is_editing actions ≡ true
      → IsOpen n h
      → IsOpen (n + submits_in actions) (run zero_time duration h actions)
  unfolding run step submits_in fail_submit fail_fields fail_validation
  run-IsOpen [] n h q k = (k.0, omega (arith, k.1))
  run-IsOpen (mounts now ∷ actions) n h q k = cc
  run-IsOpen (unmounts ∷ actions) n h q k = cc
  run-IsOpen (timer_fires now ∷ actions) n h q k = cc
  run-IsOpen (page_hides now ∷ actions) n h q k = cc
  run-IsOpen (completes now ∷ actions) n h q k = cc
  run-IsOpen (edits name now ∷ actions) n h q k =
      run-IsOpen actions n _ q (edit_field-IsOpen n name now h k)
  run-IsOpen (edits_fields names now ∷ actions) n h q k =
      run-IsOpen actions n _ q (edit_fields-IsOpen n names now h k)
  run-IsOpen (submits now ∷ actions) n h q k =
      let w = run-IsOpen actions (suc n) _ q (attempt_submit-IsOpen n now h k) in
      (w.0, omega (arith, w.1))
  run-IsOpen (submit_fails ∷ actions) n h q k = run-IsOpen actions n _ q k
  run-IsOpen (validation_fails name code ∷ actions) n h q k = run-IsOpen actions n _ q k
  run-IsOpen (fields_fail names ∷ actions) n h q k =
      run-IsOpen actions n _ q (rw (fail_each-state zero_time duration names h) k)

  complete-IsCompleted :
      (n : ℕ) (now : N) (h : Hook N)
      → IsOpen n h
      → IsCompleted (max 1 n) (complete zero_time duration now h).log
  unfolding complete
  complete-IsCompleted n now h (s, a) =
      rw (s, a) (record { earlier = h.log; took = duration h.state.started_at now; in_log = refl })

  -- A form that is opened, edited and submitted, and then completed, reports at the end as many
  -- attempts as it was submitted, and 1 where it was not.
  pub run-initial-IsCompleted :
      (opened_at now : N) (actions : List (Action N))
      → all is_editing actions ≡ true
      → IsCompleted
          (max 1 (submits_in actions))
          (run zero_time duration
            (initial zero_time duration)
            (mounts opened_at ∷ (actions ++ completes now ∷ []))).log
  unfolding run step mount begin initial fresh
  run-initial-IsCompleted opened_at now actions q =
      let form = mount zero_time duration opened_at (initial zero_time duration) in
      rw (run-append zero_time duration actions (completes now ∷ []) form) (
        complete-IsCompleted (submits_in actions) now (run zero_time duration form actions)
          (let w = run-IsOpen actions 0 form q (refl, refl) in (w.0, omega (arith, w.1))))
