-- ===== src/Telemetry/Growth.antt =====
-- What reporting drops leaves alone, for uis/backoffice/services/telemetry-service.ts.
use miguel_n_ai_trackflow_pr.Common.{
  Bool-cases, Json, List, Option, Text, [], ap, append-nil, append_assoc, arith, if_intro, inl, inr,
  leb, length, length-append, none, refl, some, subst, suc, sym, ℕ, ◌++◌, ◌<◌, ◌∙◌, ◌∷◌, ◌≡◌, ◌≤◌,
}
use miguel_n_ai_trackflow_pr.Telemetry.Defs.{
  DropReason, Event, Ids, Options, Service, max_queue_size,
}
use miguel_n_ai_trackflow_pr.Telemetry.Service.{
  drop_properties, get_session_id, new_event, push_event, push_reports, read_item, report_drops,
  report_entries, stored_or_new, truthy,
}

-- Events that bear, in order, ids drawn after the first `m` and among the first `n`, no draw twice.
module _ {N : Type 0} (o : Options N) where
  abbrev pub Fresh : ℕ → ℕ → List (Event N) → Type 0
  Fresh m n [] = m ≤ n
  Fresh m n (e ∷ es) = (k : ℕ) × (m ≤ k) × (e.event_id ≡ o.uuid k) × Fresh (suc k) n es

  Fresh-later : (m k n : ℕ) (es : List (Event N)) → m ≤ k → Fresh k n es → Fresh m n es
  Fresh-later m k n [] h f = omega arith
  Fresh-later m k n (e ∷ es) h (j, le, id, f) = (j, omega arith, id, f)

  pub Fresh-append :
      (m k n : ℕ) (es fs : List (Event N)) → Fresh m k es → Fresh k n fs → Fresh m n (es ++ fs)
  Fresh-append m k n [] fs f g = Fresh-later m k n fs f g
  Fresh-append m k n (e ∷ es) fs (j, le, id, f) g = (j, le, id, Fresh-append (suc j) k n es fs f g)

  stored_or_new-drawn : (t : Option Text) (n : ℕ) → n ≤ (stored_or_new o t n).1
  stored_or_new-drawn none n = omega arith
  stored_or_new-drawn (some t) n = omega arith

  pub get_session_id-drawn : (ids : Ids) → ids.drawn ≤ (get_session_id o ids).1.drawn
  unfolding get_session_id
  get_session_id-drawn ids =
      if_intro (λ (r : Text × Ids). ids.drawn ≤ r.1.drawn) (truthy ids.session_id)
        (λ kept. omega arith) (λ new. stored_or_new-drawn (read_item ids.storage) ids.drawn)

  -- The event that is pushed bears the next id drawn.
  pub new_event-Fresh :
      (s : Service N) (t : Text) (r : Option Text) (p : Json N)
      → Fresh s.ids.drawn (new_event o s t r p).1.drawn ((new_event o s t r p).0 ∷ [])
  unfolding new_event
  new_event-Fresh s t r p =
      let ids = record s.ids { drawn = suc s.ids.drawn; reads = suc s.ids.reads } in
      let session = get_session_id-drawn ids in
      let rid = stored_or_new-drawn r (get_session_id o ids).1.drawn in
      (s.ids.drawn, omega arith, refl, omega (arith, session, rid))

  -- `t` is `s` with new events at the end of the queue, within the cap; what waits for a reply and
  -- what has left the queue are the same.
  pub record Grows (s t : Service N) : Type 0 where
    pub flushing : t.flushing ≡ s.flushing
    pub flight : t.flight ≡ s.flight
    pub log : t.log ≡ s.log
    pub added : List (Event N)
    pub queue : t.queue ≡ s.queue ++ added
    pub fresh : Fresh s.ids.drawn t.ids.drawn added
    pub within : length s.queue ≤ max_queue_size → length t.queue ≤ max_queue_size

  pub Grows-here :
      {s t : Service N}
      → t.flushing ≡ s.flushing
      → t.flight ≡ s.flight
      → t.log ≡ s.log
      → t.queue ≡ s.queue
      → s.ids.drawn ≤ t.ids.drawn
      → Grows s t
  Grows-here {s} f g l q d = record {
    flushing = f;
    flight = g;
    log = l;
    added = [];
    queue = q ∙ sym (append-nil s.queue);
    fresh = d;
    within = λ h. omega (arith, ap length q);
  }

  Grows-event :
      {s t u : Service N} (e : Event N)
      → length s.queue < max_queue_size
      → t.flushing ≡ s.flushing
      → t.flight ≡ s.flight
      → t.log ≡ s.log
      → t.queue ≡ s.queue ++ e ∷ []
      → Fresh s.ids.drawn t.ids.drawn (e ∷ [])
      → Grows t u
      → Grows s u
  Grows-event {s} {t} {u} e room f g l q new w = record {
    flushing = w.flushing ∙ f;
    flight = w.flight ∙ g;
    log = w.log ∙ l;
    added = e ∷ w.added;
    queue = w.queue ∙ ap (λ xs. xs ++ w.added) q ∙ append_assoc s.queue (e ∷ []) w.added;
    fresh = Fresh-append s.ids.drawn t.ids.drawn u.ids.drawn (e ∷ []) w.added new w.fresh;
    within = λ h. w.within (omega (arith, ap length q, length-append s.queue (e ∷ [])));
  }

  -- From a state that agrees with `s` on the fields at hand.
  pub Grows-via :
      {s t u : Service N}
      → t.flushing ≡ s.flushing
      → t.flight ≡ s.flight
      → t.log ≡ s.log
      → t.queue ≡ s.queue
      → t.ids.drawn ≡ s.ids.drawn
      → Grows t u
      → Grows s u
  Grows-via {u} f g l q d w = record {
    flushing = w.flushing ∙ f;
    flight = w.flight ∙ g;
    log = w.log ∙ l;
    added = w.added;
    queue = w.queue ∙ ap (λ xs. xs ++ w.added) q;
    fresh = subst (λ m. Fresh m u.ids.drawn w.added) d w.fresh;
    within = λ h. w.within (omega (arith, ap length q));
  }

  push_reports-Grows :
      (window : ℕ) (ds : List (DropReason × ℕ)) (s : Service N)
      → Grows s (push_reports o window ds s)
  unfolding push_reports push_event
  push_reports-Grows window [] s = Grows-here refl refl refl refl (omega arith)
  push_reports-Grows window ((reason, count) ∷ ds) s =
      elim (Bool-cases (leb max_queue_size (length s.queue))) [
        | inl full ↦ rw full (Grows-here refl refl refl refl (omega arith))
        | inr room ↦ rw room (
            Grows-event _ (ground arith) refl refl refl refl (new_event-Fresh s _ none _) (
              push_reports-Grows window ds
                (push_event o s _ none (drop_properties o reason count window))))
      ]

  report_entries-Grows :
      (ds : List (DropReason × ℕ)) (s : Service N) → Grows s (report_entries o ds s)
  unfolding report_entries
  report_entries-Grows [] s = Grows-here refl refl refl refl (omega arith)
  report_entries-Grows (d ∷ ds) s =
      Grows-via refl refl refl refl refl (push_reports-Grows _ (d ∷ ds) _)

  pub report_drops-Grows : (s : Service N) → Grows s (report_drops o s)
  unfolding report_drops
  report_drops-Grows s = report_entries-Grows s.dropped s
