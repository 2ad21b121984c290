-- ===== src/Telemetry/History.antt =====
-- No event leaves the queue of uis/backoffice/services/telemetry-service.ts twice or out of order:
-- the batches that left it, followed by the queue, only grow, by new events at the end.
use miguel_n_ai_trackflow_pr.Telemetry.Pattern.{event_type_ok}
use miguel_n_ai_trackflow_pr.Common.{
  Bool, Json, List, Option, Text, [], append_assoc, before, drop, drop-length-append, false,
  if_intro, is_object, leb, length, none, not, refl, some, subst, suc, sym, take, take-append-drop,
  true, zero, ℕ, ◌++◌, ◌==◌, ◌||◌, ◌∙◌, ◌∷◌, ◌≡◌,
}
use miguel_n_ai_trackflow_pr.Telemetry.Defs.{
  Event, Options, Service, Storage, flush_threshold, init, max_batch_size, max_queue_size,
}
use miguel_n_ai_trackflow_pr.Telemetry.Service.{
  Action, asks_session, enabled, finish, flush, flush_on_hide, flushes, hide_loop, hides, new_event,
  push_event, replies, report_drops, resume, resume_at, run, send_front, send_next, sets_user,
  settle, splice, step, track, tracks,
}
use miguel_n_ai_trackflow_pr.Telemetry.Growth.{
  Fresh, get_session_id-drawn, new_event-Fresh, report_drops-Grows,
}
use miguel_n_ai_trackflow_pr.Telemetry.Kept.{
  AtFront, AtFront-append, Keeps, Keeps-Grows, Keeps-drawn, Keeps-here, Keeps-trans, departed,
  departed-concat, history,
}

module _ {N : Type 0} where
  -- The page is not hidden while a batch is awaited.
  abbrev pub IsCalm : Service N → Action N → Type 0
  IsCalm s (hides beacon) = s.flight ≡ none
  IsCalm s _ = Unit

  abbrev pub AreCalm : Options N → Service N → List (Action N) → Type 0
  AreCalm o s [] = Unit
  AreCalm o s (a ∷ rest) = IsCalm s a × AreCalm o (step o s a) rest

module _ {N : Type 0} (o : Options N) where
  finish-Keeps : (s : Service N) → Keeps o s (finish o s)
  unfolding finish
  finish-Keeps s =
      Keeps-trans o (Keeps-here o tt refl refl) (Keeps-Grows o tt (report_drops-Grows o _))

  send_front-Keeps :
      (q : List (Event N)) (s : Service N) → s.queue ≡ q → Keeps o s (send_front o q s)
  unfolding send_front
  send_front-Keeps [] s e = finish-Keeps s
  send_front-Keeps (x ∷ q) s e =
      Keeps-here o (drop max_batch_size (x ∷ q), e ∙ sym (take-append-drop max_batch_size (x ∷ q)))
        refl refl

  flush-Keeps : (s : Service N) → AtFront s.flight s.queue → Keeps o s (flush o s)
  unfolding flush send_next
  flush-Keeps s f =
      if_intro (Keeps o s) (s.flushing || not (enabled o) || not o.has_fetch)
        (λ _. Keeps-here o f refl refl)
        λ _.
          Keeps-trans o {t = record s { flushing = true }} (Keeps-here o f refl refl)
            (send_front-Keeps s.queue (record s { flushing = true }) refl)

  pub splice-history :
      (d : Bool) (b rest : List (Event N)) (s : Service N)
      → s.queue ≡ b ++ rest
      → history (splice o d b s) ≡ history s
  splice-history d b rest s e =
      rw (e, departed-concat s.log d b, drop-length-append b rest)
        (append_assoc (departed s.log) b rest)

  settle-Keeps :
      (d : Bool) (b rest : List (Event N)) (s : Service N)
      → s.queue ≡ b ++ rest
      → Keeps o s (settle o d b s)
  unfolding settle send_next
  settle-Keeps true b rest s e =
      Keeps-trans o {t = splice o true b s} (Keeps-here o tt (splice-history true b rest s e) refl)
        (send_front-Keeps _ (splice o true b s) refl)
  settle-Keeps false b rest s e =
      Keeps-trans o (Keeps-here o tt (splice-history false b rest s e) refl) (finish-Keeps _)

  resume_at-Keeps :
      (d : Bool) (w : Option (List (Event N))) (s : Service N)
      → s.flight ≡ w
      → AtFront w s.queue
      → Keeps o s (resume_at o d w s)
  unfolding resume_at
  resume_at-Keeps d none s e f = Keeps-here o (rw e tt) refl refl
  resume_at-Keeps d (some b) s e (rest, q) = settle-Keeps d b rest s q

  tracked-Keeps :
      (s : Service N) (t : Text) (p : Json N) (r : Option Text)
      → AtFront s.flight s.queue
      → Keeps o s (record (push_event o s t r p) { timer = true })
  unfolding push_event
  tracked-Keeps s t p r f =
      let e = (new_event o s t r p).0 in
      record {
        front = AtFront-append s.flight s.queue (e ∷ []) f;
        added = e ∷ [];
        extends = sym (append_assoc (departed s.log) s.queue (e ∷ []));
        fresh = new_event-Fresh o s t r p;
      }

  track-Keeps :
      (t : Text) (p : Json N) (r : Option Text) (s : Service N)
      → AtFront s.flight s.queue
      → Keeps o s (track o t p r s)
  unfolding track
  track-Keeps t p r s f =
      let next = record (push_event o s t r p) { timer = true } in
      let pushed = tracked-Keeps s t p r f in
      if_intro (Keeps o s) (not (enabled o)) (λ _. Keeps-here o f refl refl)
        λ _.
          if_intro (Keeps o s) (not (event_type_ok t) || not (is_object p))
            (λ _. Keeps-here o f refl refl)
            λ _.
              if_intro (Keeps o s) (leb max_queue_size (length s.queue))
                (λ _. Keeps-here o f refl refl)
                λ _.
                  if_intro (Keeps o s) (leb flush_threshold (length next.queue))
                    (λ _. Keeps-trans o pushed (flush-Keeps next pushed.front)) (λ _. pushed)

  hide_loop-Keeps :
      (rounds : ℕ) (beacon : ℕ → Bool) (k : ℕ) (s : Service N)
      → s.flight ≡ none
      → Keeps o s (hide_loop o rounds beacon k s)
  unfolding hide_loop
  hide_loop-Keeps zero beacon k s h = Keeps-here o (rw h tt) refl refl
  hide_loop-Keeps (suc rounds) beacon k s h =
      let batch = take max_batch_size s.queue in
      let rest = drop (length batch) s.queue in
      let next = record s { queue = rest; log = s.log ++ (true, batch) ∷ [] } in
      let front : s.queue ≡ batch ++ drop max_batch_size s.queue =
        sym (take-append-drop max_batch_size s.queue) in
      let same : Keeps o s next =
        Keeps-here o (rw h tt) (splice-history true batch (drop max_batch_size s.queue) s front)
          refl in
      let later = Keeps-trans o same (hide_loop-Keeps rounds beacon (suc k) next h) in
      if_intro (Keeps o s) (length s.queue == 0) (λ _. Keeps-here o (rw h tt) refl refl)
        λ _. if_intro (Keeps o s) (beacon k) (λ _. later) (λ _. Keeps-here o (rw h tt) refl refl)

  flush_on_hide-Keeps :
      (beacon : ℕ → Bool) (s : Service N) → s.flight ≡ none → Keeps o s (flush_on_hide o beacon s)
  unfolding flush_on_hide
  flush_on_hide-Keeps beacon s h =
      let s' = report_drops o s in
      let grown = report_drops-Grows o s in
      if_intro (Keeps o s) (not (enabled o) || not o.has_beacon || length s.queue == 0)
        (λ _. Keeps-here o (rw h tt) refl refl)
        λ _.
          Keeps-trans o (Keeps-Grows o (rw h tt) grown)
            (hide_loop-Keeps (length s'.queue) beacon 0 s' (grown.flight ∙ h))

  step-Keeps :
      (s : Service N) (a : Action N)
      → AtFront s.flight s.queue
      → IsCalm s a
      → Keeps o s (step o s a)
  unfolding step resume
  step-Keeps s (tracks t p r) f c = track-Keeps t p r s f
  step-Keeps s flushes f c = flush-Keeps s f
  step-Keeps s (replies answer) f c = resume_at-Keeps _ s.flight s refl f
  step-Keeps s (hides beacon) f c = flush_on_hide-Keeps beacon s c
  step-Keeps s (sets_user u) f c = Keeps-here o f refl refl
  step-Keeps s asks_session f c = Keeps-drawn o f refl (get_session_id-drawn o s.ids)

  run-Keeps :
      (s : Service N) (actions : List (Action N))
      → AtFront s.flight s.queue
      → AreCalm o s actions
      → Keeps o s (run o s actions)
  unfolding run
  run-Keeps s [] f c = Keeps-here o f refl refl
  run-Keeps s (a ∷ rest) f (c, cs) =
      let here = step-Keeps s a f c in
      Keeps-trans o here (run-Keeps (step o s a) rest here.front cs)

-- While the page is never hidden with a batch awaited, from any state that a new service reaches,
-- later actions leave the history of the queue (the batches that left it, in order, each once,
-- whether the endpoint took it or it was given up, and then what is queued) as it was and only add
-- events at its end; the whole history bears ids of strictly later and later draws, so that each
-- event in it has a draw of its own, and the awaited batch still stands at the queue's front.
pub run-init-Keeps :
    {N : Type 0} (o : Options N) (st : Storage) (before later : List (Action N))
    → AreCalm o (init st) before
    → AreCalm o (run o (init st) before) later
    → Keeps o (run o (init st) before) (run o (run o (init st) before) later)
      × Fresh o 0
          (run o (run o (init st) before) later).ids.drawn
          (history (run o (run o (init st) before) later))
unfolding init
run-init-Keeps o st before later c d =
    let first = run-Keeps o (init st) before tt c in
    let next = run-Keeps o (run o (init st) before) later first.front d in
    let both = Keeps-trans o first next in (next, subst (Fresh o 0 _) (sym both.extends) both.fresh)
