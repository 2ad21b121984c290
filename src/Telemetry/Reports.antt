-- ===== src/Telemetry/Reports.antt =====
-- The reports of drops, `reportDrops` of uis/backoffice/services/telemetry-service.ts: one event for
-- each reason, as far as the queue has room.
use miguel_n_ai_trackflow_pr.Common.{
  List, [], ap, append-nil, append_assoc, arith, codes, field_of, if_intro, if◌then◌else◌, leb,
  length, length-append, none, num, prop, refl, some, str, subst, suc, sym, take, text_eq, zero, ℕ,
  ◌++◌, ◌+◌, ◌-◌, ◌∙◌, ◌∷◌, ◌≡◌, ◌≤◌,
}
use miguel_n_ai_trackflow_pr.Telemetry.Defs.{
  DropReason, Event, Options, Service, max_queue_size, reason_text,
}
use miguel_n_ai_trackflow_pr.Telemetry.Service.{
  drop_properties, new_event, push_event, push_reports, report_drops, report_entries,
  window_seconds,
}

module _ {N : Type 0} (o : Options N) where
  -- The event of a report: its name, and an object that gives the reason, the count and the window.
  pub record Tells (window : ℕ) (d : DropReason × ℕ) (e : Event N) : Type 0 where
    pub event_type : e.event_type ≡ codes "telemetry_dropped"
    pub reason : prop e.properties (codes "reason") ≡ some (str (reason_text d.0))
    pub count : prop e.properties (codes "dropped_count") ≡ some (num (o.number d.1))
    pub seconds : prop e.properties (codes "window_seconds") ≡ some (num (o.number window))

  -- One event for each drop, in the same order.
  abbrev pub Report : ℕ → List (DropReason × ℕ) → List (Event N) → Type 0
  Report window [] [] = Unit
  Report window (d ∷ ds) (e ∷ es) = Tells window d e × Report window ds es
  Report window _ _ = ⊥

  -- Where the reports all fit the loop ends and the map is cleared; where they do not, it stops at
  -- the cap with the map as it was.
  pub record Reported (window : ℕ) (ds : List (DropReason × ℕ)) (s t : Service N) : Type 0 where
    pub events : List (Event N)
    pub queue : t.queue ≡ s.queue ++ events
    pub report : Report window (take (max_queue_size - length s.queue) ds) events
    pub left :
        t.dropped ≡ (if leb (length s.queue + length ds) max_queue_size then [] else s.dropped)

  Tells-new :
      (window : ℕ) (d : DropReason × ℕ) (s : Service N)
      → Tells window d
          (new_event o s (codes "telemetry_dropped") none (drop_properties o d.0 d.1 window)).0
  unfolding new_event field_of text_eq
  Tells-new window d s = record { event_type = refl; reason = refl; count = refl; seconds = refl }

  none-Report : (window n : ℕ) → Report window (take n []) []
  none-Report window zero = tt
  none-Report window (suc n) = tt

  nothing-Report :
      (window n : ℕ) (ds : List (DropReason × ℕ)) → n ≡ 0 → Report window (take n ds) []
  nothing-Report window zero ds h = tt
  nothing-Report window (suc n) ds h = absurd (omega arith)

  -- The room for one report more.
  next-Report :
      (window n m : ℕ) (d : DropReason × ℕ) (ds : List (DropReason × ℕ)) (e : Event N)
      (es : List (Event N))
      → n ≡ suc m
      → Tells window d e
      → Report window (take m ds) es
      → Report window (take n (d ∷ ds)) (e ∷ es)
  next-Report window zero m d ds e es h t r = absurd (omega arith)
  next-Report window (suc n) m d ds e es h t r =
      (t, subst (λ k. Report window (take k ds) es) (omega arith) r)

  push_reports-Reported :
      (window : ℕ) (ds : List (DropReason × ℕ)) (s : Service N)
      → length s.queue ≤ max_queue_size
      → Reported window ds s (push_reports o window ds s)
  unfolding push_reports push_event
  push_reports-Reported window [] s h = record {
    events = [];
    queue = sym (append-nil s.queue);
    report = none-Report window (max_queue_size - length s.queue);
    left = ground arith;
  }
  push_reports-Reported window ((reason, count) ∷ ds) s h =
      if_intro (Reported window ((reason, count) ∷ ds) s) (leb max_queue_size (length s.queue))
        (λ full. record {
          events = [];
          queue = sym (append-nil s.queue);
          report = nothing-Report window _ _ (ground arith);
          left = ground arith;
        })
        λ room.
          let props = drop_properties o reason count window in
          let next = push_event o s (codes "telemetry_dropped") none props in
          let next_event = (new_event o s (codes "telemetry_dropped") none props).0 in
          let grown : length next.queue ≡ length s.queue + 1 =
            length-append s.queue (next_event ∷ []) in
          let w = push_reports-Reported window ds next (ground (arith, grown)) in
          let same : length next.queue + length ds ≡ length s.queue + suc (length ds) =
            omega (arith, grown) in
          record {
            events = next_event ∷ w.events;
            queue = w.queue ∙ append_assoc s.queue (next_event ∷ []) w.events;
            report =
                next-Report window _ (max_queue_size - length next.queue) (reason, count) ds
                  next_event w.events (ground (arith, grown)) (Tells-new window (reason, count) s)
                  w.report;
            left = w.left ∙ ap (λ n. if leb n max_queue_size then [] else s.dropped) same;
          }

  -- The seconds since the last report, or none before the first: `windowSeconds`.
  abbrev pub window_of : Service N → ℕ
  window_of s = window_seconds o s.last_drop_report (o.now s.ids.reads)

  report_entries-Reported :
      (ds : List (DropReason × ℕ)) (s : Service N)
      → s.dropped ≡ ds
      → length s.queue ≤ max_queue_size
      → Reported (window_of s) ds s (report_entries o ds s)
  unfolding report_entries
  report_entries-Reported [] s e h = record {
    events = [];
    queue = sym (append-nil s.queue);
    report = none-Report (window_of s) (max_queue_size - length s.queue);
    left = ground arith;
  }
  report_entries-Reported (d ∷ ds) s e h =
      let w = push_reports-Reported _ (d ∷ ds) _ h in
      record { events = w.events; queue = w.queue; report = w.report; left = w.left }

-- Reporting the drops of a queue within its cap adds one event for each reason at the end of the
-- queue, in the order of the map and as far as the cap of 500 allows: a `telemetry_dropped` with
-- that reason, its count and the seconds since the report before. If all reasons fit, the map of
-- drops is empty afterwards; if not, it is unchanged, also for the reasons that were reported, which
-- the next report thus counts a second time.
pub report_drops-Reported :
    {N : Type 0} (o : Options N) (s : Service N)
    → length s.queue ≤ max_queue_size
    → Reported o (window_of o s) s.dropped s (report_drops o s)
unfolding report_drops
report_drops-Reported o s h = report_entries-Reported o s.dropped s refl h
