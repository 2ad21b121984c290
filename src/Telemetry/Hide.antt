-- ===== src/Telemetry/Hide.antt =====
-- `flushOnHide` of uis/backoffice/services/telemetry-service.ts: what it sends, and what goes wrong
-- when it runs while `flush` awaits a reply.
use miguel_n_ai_trackflow_pr.Telemetry.Retry.{Answer, send_with_retry}
use miguel_n_ai_trackflow_pr.Telemetry.Pattern.{event_type_ok}
use miguel_n_ai_trackflow_pr.Common.{
  Bool, Json, List, Option, Text, [], ap, append-nil, arith, drop, false, if_intro, is_object, leb,
  leb_iff, length, length-append, length-drop, length-take, none, not, refl, some, suc, sym, take,
  take-append-drop, true, zero, ℕ, ◌++◌, ◌<◌, ◌==◌, ◌||◌, ◌∙◌, ◌∷◌, ◌≡◌, ◌≤◌,
}
use miguel_n_ai_trackflow_pr.Telemetry.Defs.{
  DropReason, Event, Options, Service, flush_threshold, max_batch_size, max_queue_size,
}
use miguel_n_ai_trackflow_pr.Telemetry.Service.{
  enabled, finish, flush_on_hide, hide_loop, hides, new_event, push_event, replies, report_drops,
  report_entries, resume, resume_at, run, send_front, send_next, settle, splice, step, track,
  tracks,
}
use miguel_n_ai_trackflow_pr.Telemetry.Kept.{departed, departed-concat, history}
use miguel_n_ai_trackflow_pr.Telemetry.History.{splice-history}

abbrev pub always : ℕ → Bool
always k = true

-- Everything that was queued in `s` has left the queue of `t`, in order.
pub record Emptied {N : Type 0} (s t : Service N) : Type 0 where
  pub queue : t.queue ≡ []
  pub sent : departed t.log ≡ departed s.log ++ s.queue
  pub flight : t.flight ≡ s.flight
  pub flushing : t.flushing ≡ s.flushing
  pub dropped : t.dropped ≡ s.dropped

nil_of_length {ℓ} : {A : Type ℓ} (xs : List A) → length xs ≤ 0 → xs ≡ []
nil_of_length [] h = refl
nil_of_length (x ∷ xs) h = absurd (omega arith)

pos_of_test : (n : ℕ) → (n == 0) ≡ false → 0 < n
pos_of_test n h = ground arith

module _ {N : Type 0} where
  Emptied-done : {s : Service N} → s.queue ≡ [] → Emptied s s
  Emptied-done {s} e = record {
    queue = e;
    sent = sym (rw e (append-nil (departed s.log)));
    flight = refl;
    flushing = refl;
    dropped = refl;
  }

module _ {N : Type 0} (o : Options N) where
  Emptied-next :
      {s t u : Service N}
      → t.flight ≡ s.flight
      → t.flushing ≡ s.flushing
      → t.dropped ≡ s.dropped
      → departed t.log ++ t.queue ≡ departed s.log ++ s.queue
      → Emptied t u
      → Emptied s u
  Emptied-next f g d h e = record {
    queue = e.queue;
    sent = e.sent ∙ h;
    flight = e.flight ∙ f;
    flushing = e.flushing ∙ g;
    dropped = e.dropped ∙ d;
  }

  hide_loop-Emptied :
      (rounds k : ℕ) (s : Service N)
      → length s.queue ≤ rounds
      → Emptied s (hide_loop o rounds always k s)
  unfolding hide_loop
  hide_loop-Emptied zero k s h = Emptied-done (nil_of_length s.queue h)
  hide_loop-Emptied (suc rounds) k s h =
      let batch = take max_batch_size s.queue in
      let rest = drop (length batch) s.queue in
      let next = record s { queue = rest; log = s.log ++ (true, batch) ∷ [] } in
      if_intro (Emptied s) (length s.queue == 0)
        (λ e. Emptied-done (nil_of_length s.queue (ground arith)))
        λ ne.
          let fewer : length rest ≤ rounds = omega (
            arith,
            length-drop (length batch) s.queue,
            length-take max_batch_size s.queue,
            pos_of_test (length s.queue) ne,
          ) in
          Emptied-next refl refl refl
            (splice-history o true batch (drop max_batch_size s.queue) s
              (sym (take-append-drop max_batch_size s.queue)))
            (hide_loop-Emptied rounds (suc k) next fewer)

  flush_on_hide-Emptied :
      (s : Service N)
      → enabled o ≡ true
      → o.has_beacon ≡ true
      → s.dropped ≡ []
      → Emptied s (flush_on_hide o always s)
  unfolding flush_on_hide report_drops
  flush_on_hide-Emptied s on can e =
      if_intro (Emptied s) (not (enabled o) || not o.has_beacon || length s.queue == 0)
        (λ h. Emptied-done (nil_of_length s.queue (ground arith))) λ _. go s.dropped e
    where
      go :
          (ds : List (DropReason × ℕ))
          → ds ≡ []
          → Emptied s (let s' = report_entries o ds s in hide_loop o (length s'.queue) always 0 s')
      go [] h = unfold report_entries in hide_loop-Emptied (length s.queue) 0 s (omega arith)
      go (d ∷ ds) h = cc

  -- What one accepted event does to an empty queue.
  record Single (s t : Service N) : Type 0 where
    one : length t.queue ≡ 1
    same_flight : t.flight ≡ s.flight
    same_log : t.log ≡ s.log
    same_dropped : t.dropped ≡ s.dropped

  track-Single :
      (t : Text) (p : Json N) (r : Option Text) (s : Service N)
      → enabled o ≡ true
      → event_type_ok t ≡ true
      → is_object p ≡ true
      → s.queue ≡ []
      → Single s (track o t p r s)
  unfolding track push_event
  track-Single t p r s on good is_obj e =
      let next = record (push_event o s t r p) { timer = true } in
      let size : length next.queue ≡ 1 =
        omega (arith, length-append s.queue ((new_event o s t r p).0 ∷ []), ap length e) in
      if_intro (Single s) (not (enabled o)) (λ h. cc)
        λ _.
          if_intro (Single s) (not (event_type_ok t) || not (is_object p)) (λ h. ground arith)
            λ _.
              if_intro (Single s) (leb max_queue_size (length s.queue))
                (λ h.
                  absurd
                    (omega (arith, (leb_iff max_queue_size (length s.queue)).0 h, ap length e)))
                λ _.
                  if_intro (Single s) (leb flush_threshold (length next.queue))
                    (λ h. absurd (omega (arith, (leb_iff flush_threshold (length next.queue)).0 h)))
                    λ _. record {
                      one = size;
                      same_flight = refl;
                      same_log = refl;
                      same_dropped = refl;
                    }

  report_entries-nil :
      (ds : List (DropReason × ℕ)) (s : Service N) → ds ≡ [] → report_entries o ds s ≡ s
  unfolding report_entries
  report_entries-nil [] s e = refl
  report_entries-nil (d ∷ ds) s e = cc

  send_front-nil : (q : List (Event N)) (s : Service N) → q ≡ [] → send_front o q s ≡ finish o s
  unfolding send_front
  send_front-nil [] s e = refl
  send_front-nil (x ∷ q) s e = cc

  resume_at-some :
      (w : Option (List (Event N))) (b : List (Event N)) (s : Service N)
      → w ≡ some b
      → resume_at o true w s ≡ send_next o (splice o true b s)
  unfolding resume_at settle
  resume_at-some none b s e = cc
  resume_at-some (some c) b s e = cc

  -- What a delivered reply does where the batch is no shorter than the queue.
  resume-overtaken :
      (b : List (Event N)) (s : Service N)
      → s.flight ≡ some b
      → length s.queue ≤ length b
      → s.dropped ≡ []
      → history (resume o true s) ≡ departed s.log ++ b
  unfolding resume send_next finish report_drops
  resume-overtaken b s f h e =
      let t = splice o true b s in
      let none_left : t.queue ≡ [] =
        nil_of_length _ (omega (arith, length-drop (length b) s.queue)) in
      let idle = record t { flushing = false; flight = none } in
      ap history (resume_at-some s.flight b s f)
      ∙ ap history (send_front-nil t.queue t none_left)
      ∙ ap history (report_entries-nil t.dropped idle e)
      ∙ ap (λ xs. departed t.log ++ xs) none_left
      ∙ append-nil (departed t.log)
      ∙ departed-concat s.log true b

-- Hiding the page while a batch `b` is awaited breaks that promise. If the beacon takes everything
-- and one more event is tracked before the reply, then the reply, if the endpoint accepts the
-- batch, removes the new event from the queue unsent: what has left the queue is all that was
-- queued before, and `b` a second time.
pub hide_in_flight_loses :
    {N : Type 0} (o : Options N) (s : Service N) (b : List (Event N)) (t : Text) (p : Json N)
    (r : Option Text) (answer : ℕ → Answer)
    → enabled o ≡ true
    → o.has_beacon ≡ true
    → s.flight ≡ some b
    → 0 < length b
    → s.dropped ≡ []
    → event_type_ok t ≡ true
    → is_object p ≡ true
    → (send_with_retry answer).delivered ≡ true
    → history (run o s (hides always ∷ tracks t p r ∷ replies answer ∷ [])) ≡ history s ++ b
unfolding run step
hide_in_flight_loses o s b t p r answer on can f size quiet good is_obj sent =
    let hidden = flush_on_hide o always s in
    let h = flush_on_hide-Emptied o s on can quiet in
    let after = track o t p r hidden in
    let k = track-Single o t p r hidden on good is_obj h.queue in
    ap (λ d. history (resume o d after)) sent
    ∙ resume-overtaken o b after (k.same_flight ∙ h.flight ∙ f) (omega (arith, k.one))
        (k.same_dropped ∙ h.dropped ∙ quiet)
    ∙ ap (λ l. departed l ++ b) k.same_log
    ∙ ap (λ xs. xs ++ b) h.sent
