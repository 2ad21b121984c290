-- ===== src/Telemetry/Bounds.antt =====
-- The bounds of the queue and of a batch in uis/backoffice/services/telemetry-service.ts.
use miguel_n_ai_trackflow_pr.Common.{
  Bool, Json, List, Option, Text, [], arith, drop, false, if_intro, length, length-append,
  length-drop, length-take, none, refl, some, suc, take, true, zero, ℕ, ◌++◌, ◌<◌, ◌==◌, ◌∷◌, ◌≡◌,
  ◌≤◌,
}
use miguel_n_ai_trackflow_pr.Telemetry.Defs.{
  Event, Options, Service, Storage, init, max_batch_size, max_queue_size, transport_failed,
}
use miguel_n_ai_trackflow_pr.Telemetry.Retry.{send_with_retry}
use miguel_n_ai_trackflow_pr.Telemetry.Service.{
  Action, asks_session, finish, flush, flush_on_hide, flushes, hide_loop, hides, new_event,
  push_event, record_drop, replies, report_drops, resume, resume_at, run, send_front, send_next,
  sets_user, settle, splice, step, track, tracks,
}
use miguel_n_ai_trackflow_pr.Telemetry.Growth.{Grows, report_drops-Grows}

-- `flushing` is set exactly while a batch is awaited, and such a batch is neither empty nor over
-- the endpoint's cap.
abbrev pub Busy {ℓ} : {E : Type ℓ} → Bool → Option (List E) → Type 0
Busy true (some b) = (0 < length b) × (length b ≤ max_batch_size)
Busy false none = Unit {0}
Busy _ _ = ⊥

pub record Inv {N : Type 0} (s : Service N) : Type 0 where
  pub bounded : length s.queue ≤ max_queue_size
  pub busy : Busy s.flushing s.flight

module _ {N : Type 0} (o : Options N) where
  pub init-Inv : (st : Storage) → Inv {N = N} (init st)
  unfolding init
  init-Inv st = record { bounded = omega arith; busy = tt }

  -- An operation that only adds to the queue, from a state in order.
  pub Grows-Inv : {s t : Service N} → Grows o s t → Inv s → Inv t
  Grows-Inv w v = record { bounded = w.within v.bounded; busy = rw (w.flushing, w.flight) v.busy }

  finish-Inv : (s : Service N) → length s.queue ≤ max_queue_size → Inv (finish o s)
  unfolding finish
  finish-Inv s h = Grows-Inv (report_drops-Grows o _) (record { bounded = h; busy = tt })

  send_front-Inv :
      (q : List (Event N)) (s : Service N)
      → length s.queue ≤ max_queue_size
      → s.flushing ≡ true
      → Inv (send_front o q s)
  unfolding send_front
  send_front-Inv [] s h f = finish-Inv s h
  send_front-Inv (e ∷ q) s h f = record {
    bounded = h;
    busy = rw f (omega arith, omega (arith, length-take 100 (e ∷ q)));
  }

  pub flush-Inv : (s : Service N) → Inv s → Inv (flush o s)
  unfolding flush send_next
  flush-Inv s v =
      ground (arith, send_front-Inv s.queue (record s { flushing = true }) v.bounded refl)

  settle-Inv :
      (d : Bool) (b : List (Event N)) (s : Service N)
      → length s.queue ≤ max_queue_size
      → s.flushing ≡ true
      → Inv (settle o d b s)
  unfolding settle send_next
  settle-Inv true b s h f =
      send_front-Inv (drop (length b) s.queue) (splice o true b s)
        (omega (arith, length-drop (length b) s.queue)) f
  settle-Inv false b s h f =
      finish-Inv
        (record (splice o false b s) {
          dropped = record_drop o transport_failed (length b) s.dropped;
        })
        (omega (arith, length-drop (length b) s.queue))

  Busy-flushing : (f : Bool) (b : List (Event N)) → Busy f (some b) → f ≡ true
  Busy-flushing true b h = refl
  Busy-flushing false b h = absurd h

  resume-Inv : (d : Bool) (s : Service N) → Inv s → Inv (resume o d s)
  unfolding resume resume_at
  resume-Inv d s v = go s.flight refl
    where
      go : (w : Option (List (Event N))) → s.flight ≡ w → Inv (resume_at o d w s)
      go none e = v
      go (some b) e = settle-Inv d b s v.bounded (Busy-flushing s.flushing b (rw e at v.busy))

  tracked-Inv :
      (s : Service N) (t : Text) (p : Json N) (r : Option Text)
      → length s.queue < max_queue_size
      → Inv s
      → Inv (record (push_event o s t r p) { timer = true })
  unfolding push_event
  tracked-Inv s t p r h v = record {
    bounded = omega (arith, length-append s.queue ((new_event o s t r p).0 ∷ []));
    busy = v.busy;
  }

  track-Inv :
      (t : Text) (p : Json N) (r : Option Text) (s : Service N) → Inv s → Inv (track o t p r s)
  unfolding track
  track-Inv t p r s v =
      let next = record (push_event o s t r p) { timer = true } in
      ground (arith, tracked-Inv s t p r, flush-Inv next)

  -- What one round of the loop leaves, when the beacon took the batch.
  hidden-Inv :
      (s : Service N) (n : ℕ) (log : List (Bool × List (Event N)))
      → Inv s
      → Inv (record s { queue = drop n s.queue; log = log })
  hidden-Inv s n log v = record {
    bounded = omega (arith, length-drop n s.queue, v.bounded);
    busy = v.busy;
  }

  hide_loop-Inv :
      (rounds : ℕ) (beacon : ℕ → Bool) (k : ℕ) (s : Service N)
      → Inv s
      → Inv (hide_loop o rounds beacon k s)
  unfolding hide_loop
  hide_loop-Inv zero beacon k s v = v
  hide_loop-Inv (suc rounds) beacon k s v =
      let batch = take max_batch_size s.queue in
      let log = s.log ++ (true, batch) ∷ [] in
      let rest = record s { queue = drop (length batch) s.queue; log = log } in
      let later = hide_loop-Inv rounds beacon (suc k) rest (hidden-Inv s (length batch) log v) in
      if_intro Inv (length s.queue == 0) (λ _. v) λ _. if_intro Inv (beacon k) (λ _. later) (λ _. v)

  flush_on_hide-Inv : (beacon : ℕ → Bool) (s : Service N) → Inv s → Inv (flush_on_hide o beacon s)
  unfolding flush_on_hide
  flush_on_hide-Inv beacon s v =
      let s' = report_drops o s in
      ground
        (arith, hide_loop-Inv (length s'.queue) beacon 0 s' (Grows-Inv (report_drops-Grows o s) v))

  pub step-Inv : (s : Service N) (a : Action N) → Inv s → Inv (step o s a)
  unfolding step
  step-Inv s (tracks t p r) v = track-Inv t p r s v
  step-Inv s flushes v = flush-Inv s v
  step-Inv s (replies answer) v = resume-Inv (send_with_retry answer).delivered s v
  step-Inv s (hides beacon) v = flush_on_hide-Inv beacon s v
  step-Inv s (sets_user u) v = record { bounded = v.bounded; busy = v.busy }
  step-Inv s asks_session v = record { bounded = v.bounded; busy = v.busy }

  run-Inv : (s : Service N) (actions : List (Action N)) → Inv s → Inv (run o s actions)
  unfolding run
  run-Inv s [] v = v
  run-Inv s (a ∷ rest) v = run-Inv (step o s a) rest (step-Inv s a v)

-- After any sequence of calls, flushes, replies and hides of the page, in any order, the queue of a
-- new service holds at most 500 events, `flushing` is set exactly while a batch is awaited, and an
-- awaited batch has between 1 and 100 events.
pub run-init-Inv :
    {N : Type 0} (o : Options N) (st : Storage) (actions : List (Action N))
    → Inv (run o (init st) actions)
run-init-Inv o st actions = run-Inv o (init st) actions (init-Inv o st)
