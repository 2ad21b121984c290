-- ===== src/Flow/Ends.antt =====
-- Leaving a form ends its flow, remounting it does not: the deferred abandon of
-- uis/backoffice/hooks/useFlowTelemetry.ts.
use miguel_n_ai_trackflow_pr.Common.{
  &&_iff, Bool, List, Text, [], all, ap, arith, false, if_intro, not, refl, some, true, ◌++◌, ◌||◌,
  ◌∙◌, ◌∷◌, ◌≡◌,
}
use miguel_n_ai_trackflow_pr.Flow.Defs.{
  Action, ExitReason, Hook, completes, edits, edits_fields, fields_fail, mounts, navigated_away,
  page_hides, submit_fails, submits, tab_closed, timer_fires, unmounts, validation_fails,
}
use miguel_n_ai_trackflow_pr.Flow.Hook.{
  abandon, begin, complete, fail_each, fail_fields, fail_submit, fail_validation, fire_timer, fresh,
  initial, mount, page_hide, run, step, unmount,
}
use miguel_n_ai_trackflow_pr.Flow.Lifecycle.{run-initial-IsInOrder, scan}

-- What may still happen to a form that is gone: nothing that begins a flow.
abbrev pub is_quiet : {N : Type 0} → Action N → Bool
is_quiet (mounts now) = false
is_quiet (edits name now) = false
is_quiet (edits_fields names now) = false
is_quiet (submits now) = false
is_quiet _ = true

-- The flow has ended, or the timer that ends it will fire.
abbrev IsEnding : {N : Type 0} → Hook N → Type 0
IsEnding h = (not h.state.started || h.timer) ≡ true

closed-ending : (started timer : Bool) → started ≡ false → (not started || timer) ≡ true
closed-ending started timer e = rw e refl

module _ {N : Type 0} (zero_time : N) (duration : N → N → N) where
  abandon-closed :
      (reason : ExitReason) (now : N) (h : Hook N)
      → (abandon zero_time duration reason now h).state.started ≡ false
  unfolding abandon fresh
  abandon-closed reason now h =
      if_intro (λ (g : Hook N). g.state.started ≡ false) (not h.state.started) (λ c. ground arith)
        (λ _. refl)

  complete-closed :
      (now : N) (h : Hook N) → (complete zero_time duration now h).state.started ≡ false
  unfolding complete fresh
  complete-closed now h =
      if_intro (λ (g : Hook N). g.state.started ≡ false) (not h.state.started) (λ c. ground arith)
        (λ _. refl)

  fire_timer-closed :
      (now : N) (h : Hook N)
      → IsEnding h
      → (fire_timer zero_time duration now h).state.started ≡ false
  unfolding fire_timer
  fire_timer-closed now h k =
      if_intro (λ (g : Hook N). g.state.started ≡ false) h.timer
        (λ _. abandon-closed navigated_away now (record h { timer = false })) (λ off. ground arith)

  pub fail_each-state :
      (names : List Text) (h : Hook N) → (fail_each zero_time duration names h).state ≡ h.state
  unfolding fail_each fail_validation
  fail_each-state [] h = refl
  fail_each-state (name ∷ names) h = fail_each-state names _

  fail_each-timer :
      (names : List Text) (h : Hook N) → (fail_each zero_time duration names h).timer ≡ h.timer
  unfolding fail_each fail_validation
  fail_each-timer [] h = refl
  fail_each-timer (name ∷ names) h = fail_each-timer names _

  step-IsEnding :
      (a : Action N) (h : Hook N)
      → is_quiet a ≡ true
      → IsEnding h
      → IsEnding (step zero_time duration h a)
  unfolding step unmount page_hide fail_submit fail_fields fail_validation
  step-IsEnding (mounts now) h q k = cc
  step-IsEnding unmounts h q k = ground arith
  step-IsEnding (timer_fires now) h q k = closed-ending _ _ (fire_timer-closed now h k)
  step-IsEnding (page_hides now) h q k =
      if_intro IsEnding h.listening (λ _. closed-ending _ _ (abandon-closed tab_closed now h))
        (λ _. k)
  step-IsEnding (edits name now) h q k = cc
  step-IsEnding (edits_fields names now) h q k = cc
  step-IsEnding (submits now) h q k = cc
  step-IsEnding submit_fails h q k = k
  step-IsEnding (validation_fails name code) h q k = k
  step-IsEnding (fields_fail names) h q k = rw (fail_each-state names h, fail_each-timer names h) k
  step-IsEnding (completes now) h q k = closed-ending _ _ (complete-closed now h)

  run-IsEnding :
      (actions : List (Action N)) (h : Hook N)
      → all is_quiet actions ≡ true
      → IsEnding h
      → IsEnding (run zero_time duration h actions)
  unfolding run
  run-IsEnding [] h q k = k
  run-IsEnding (a ∷ actions) h q k =
      let (first, rest) = (&&_iff (is_quiet a) (all is_quiet actions)).0 q in
      run-IsEnding actions (step zero_time duration h a) rest (step-IsEnding a h first k)

  pub run-append :
      (xs ys : List (Action N)) (h : Hook N)
      → run zero_time duration h (xs ++ ys)
        ≡ run zero_time duration (run zero_time duration h xs) ys
  unfolding run
  run-append [] ys h = refl
  run-append (x ∷ xs) ys h = run-append xs ys (step zero_time duration h x)

  last_step-closed :
      (actions quiet : List (Action N)) (now : N)
      → all is_quiet quiet ≡ true
      → (run zero_time duration
          (initial zero_time duration)
          (actions ++ unmounts ∷ (quiet ++ timer_fires now ∷ []))).state.started
        ≡ false
  unfolding step run unmount
  last_step-closed actions quiet now q =
      let left =
        unmount zero_time duration (run zero_time duration (initial zero_time duration) actions) in
      ap (λ (h : Hook N). h.state.started)
        (run-append actions (unmounts ∷ (quiet ++ timer_fires now ∷ []))
          (initial zero_time duration))
      ∙ ap (λ (h : Hook N). h.state.started) (run-append quiet (timer_fires now ∷ []) left)
      ∙ fire_timer-closed now (run zero_time duration left quiet)
          (run-IsEnding quiet left q (ground arith))

  -- A form that is left, where nothing happens after that which begins a flow again, has ended its flow
  -- by the time its timer has fired: in the log every flow that was started has its one end.
  pub unmount_ends :
      (actions quiet : List (Action N)) (now : N)
      → all is_quiet quiet ≡ true
      → scan
          (some false)
          (run zero_time duration
            (initial zero_time duration)
            (actions ++ unmounts ∷ (quiet ++ timer_fires now ∷ []))).log
        ≡ some false
  unmount_ends actions quiet now q =
      run-initial-IsInOrder zero_time duration
        (actions ++ unmounts ∷ (quiet ++ timer_fires now ∷ []))
      ∙ ap some (last_step-closed actions quiet now q)

  -- An open flow survives the cleanup and the effect that follow each other at once: nothing is
  -- reported, and the state is as it was, with no timer left.
  pub remount_lem :
      (now : N) (h : Hook N)
      → h.state.started ≡ true
      → run zero_time duration h (unmounts ∷ mounts now ∷ [])
        ≡ record h { listening = true; timer = false }
  unfolding run step mount unmount begin
  remount_lem now h open_now = rw open_now refl
