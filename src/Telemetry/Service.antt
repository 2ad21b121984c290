-- ===== src/Telemetry/Service.antt =====
-- The methods of `TelemetryService`, uis/backoffice/services/telemetry-service.ts. `flush` is
-- asynchronous: it is cut at its one `await`, into the part before it (`flush`), and the part after
-- it (`resume`); between the two other methods run.
use miguel_n_ai_trackflow_pr.Common.{
  Bool, Json, List, Option, Text, [], codes, drop, end, false, field, if◌then◌else◌, is_empty,
  is_object, leb, length, max, none, not, num, obj, or_else, some, str, suc, take, true, zero, ℕ,
  ◌++◌, ◌+◌, ◌-◌, ◌/◌, ◌==◌, ◌||◌, ◌∷◌,
}
use miguel_n_ai_trackflow_pr.Telemetry.Defs.{
  DropReason, Event, Ids, Options, Service, Storage, buffer_full, flush_threshold, max_batch_size,
  max_queue_size, reason_eq, reason_text, schema_rejected, schema_version, transport_failed,
}
use miguel_n_ai_trackflow_pr.Telemetry.Pattern.{event_type_ok}
use miguel_n_ai_trackflow_pr.Telemetry.Retry.{Answer, send_with_retry}

-- A string that is there and not empty.
abbrev pub truthy : Option Text → Bool
truthy none = false
truthy (some t) = not (is_empty t)

-- `sessionStorage.getItem` and `sessionStorage.setItem`, with the throws caught.
abbrev pub read_item : Storage → Option Text
read_item st = if st.readable then st.item else none

abbrev write_item : Storage → Text → Storage
write_item st t = if st.writable then record st { item = some t } else st

-- What may happen to the service between two turns of the event loop. The interval's callback and
-- a caller's own `flush()` are `flushes`.
pub data Action (N : Type 0) : Type 0 where
  tracks : Text → Json N → Option Text → Action N
  flushes : Action N
  replies : (ℕ → Answer) → Action N
  hides : (ℕ → Bool) → Action N
  sets_user : Option Text → Action N
  asks_session : Action N

module _ {N : Type 0} (o : Options N) where
  unfoldable pub enabled : Bool
  enabled = not (is_empty o.endpoint)

  -- `stored ?? this.uuid()`, with the number of ids drawn after it
  abbrev pub stored_or_new : Option Text → ℕ → Text × ℕ
  stored_or_new (some t) drawn = (t, drawn)
  stored_or_new none drawn = (o.uuid drawn, suc drawn)

  unfoldable pub get_session_id : Ids → Text × Ids
  get_session_id ids =
      if truthy ids.session_id
      then (or_else ids.session_id [], ids)
      else (let stored = read_item ids.storage in
          let (id, drawn) = stored_or_new stored ids.drawn in
          (
            id,
            record ids {
              session_id = some id;
              storage = if truthy stored then ids.storage else write_item ids.storage id;
              drawn = drawn;
            },
          ))

  unfoldable pub record_drop : DropReason → ℕ → List (DropReason × ℕ) → List (DropReason × ℕ)
  record_drop reason count [] = (reason, count) ∷ []
  record_drop reason count ((r, n) ∷ rest) =
      if reason_eq r reason then (r, n + count) ∷ rest else (r, n) ∷ record_drop reason count rest

  -- The object that `track` and `reportDrops` push, its fields evaluated in the order written.
  unfoldable pub new_event : Service N → Text → Option Text → Json N → Event N × Ids
  new_event s event_type request_id properties =
      let id = o.uuid s.ids.drawn in
      let timestamp = o.to_iso (o.now s.ids.reads) in
      let (session, ids) =
        get_session_id (record s.ids { drawn = suc s.ids.drawn; reads = suc s.ids.reads }) in
      let (rid, drawn) = stored_or_new request_id ids.drawn in
      (
        record {
          event_id = id;
          timestamp = timestamp;
          session = session;
          user = s.user_id;
          event_type = event_type;
          version = schema_version;
          request_id = rid;
          properties = properties;
        },
        record ids { drawn = drawn },
      )

  unfoldable pub push_event : Service N → Text → Option Text → Json N → Service N
  push_event s event_type request_id properties = record s {
    queue = s.queue ++ (new_event s event_type request_id properties).0 ∷ [];
    ids = (new_event s event_type request_id properties).1;
  }

  abbrev pub drop_properties : DropReason → ℕ → ℕ → Json N
  drop_properties reason count window = obj (
      field (codes "emitter") (str (codes "frontend")) (
        field (codes "reason") (str (reason_text reason)) (
          field (codes "dropped_count") (num (o.number count))
            (field (codes "window_seconds") (num (o.number window)) end))))

  -- The loop of `reportDrops` over the map's entries; it clears the map only if it ends.
  unfoldable pub push_reports : ℕ → List (DropReason × ℕ) → Service N → Service N
  push_reports window [] s = record s { dropped = [] }
  push_reports window ((reason, count) ∷ rest) s =
      let more =
        push_reports window rest
          (push_event s (codes "telemetry_dropped") none (drop_properties reason count window)) in
      if leb max_queue_size (length s.queue) then s else more

  -- `this.lastDropReport || nowMs`; `Math.round` of a difference that is not negative. Where the
  -- clock went back the source's maximum with 1 is 1, as it is here.
  abbrev pub window_seconds : ℕ → ℕ → ℕ
  window_seconds last now = max 1 ((now - (if last == 0 then now else last) + 500) / 1000)

  -- `reportDrops` with the map's entries as an argument
  unfoldable pub report_entries : List (DropReason × ℕ) → Service N → Service N
  report_entries [] s = s
  report_entries (d ∷ ds) s =
      let now = o.now s.ids.reads in
      push_reports (window_seconds s.last_drop_report now) (d ∷ ds)
        (record s { ids = record s.ids { reads = suc s.ids.reads }; last_drop_report = now })

  unfoldable pub report_drops : Service N → Service N
  report_drops s = report_entries s.dropped s

  -- `finally` of `flush`
  unfoldable pub finish : Service N → Service N
  finish s = report_drops (record s { flushing = false; flight = none })

  -- The test of `flush`'s loop, and its body up to the `await`.
  unfoldable pub send_front : List (Event N) → Service N → Service N
  send_front [] s = finish s
  send_front (e ∷ q) s = record s { flight = some (take max_batch_size (e ∷ q)) }

  unfoldable pub send_next : Service N → Service N
  send_next s = send_front s.queue s

  unfoldable pub flush : Service N → Service N
  flush s =
      if s.flushing || not enabled || not o.has_fetch
      then s
      else send_next (record s { flushing = true })

  -- The `splice` after the `await`: the batch's length of events leaves the queue's front.
  abbrev pub splice : Bool → List (Event N) → Service N → Service N
  splice delivered batch s = record s {
    queue = drop (length batch) s.queue;
    flight = none;
    log = s.log ++ (delivered, batch) ∷ [];
  }

  -- The body of `flush`'s loop after the `await`, and what follows it.
  unfoldable pub settle : Bool → List (Event N) → Service N → Service N
  settle true batch s = send_next (splice true batch s)
  settle false batch s = finish (record (splice false batch s) {
    dropped = record_drop transport_failed (length batch) s.dropped;
  })

  unfoldable pub resume_at : Bool → Option (List (Event N)) → Service N → Service N
  resume_at delivered none s = s
  resume_at delivered (some batch) s = settle delivered batch s

  unfoldable pub resume : Bool → Service N → Service N
  resume delivered s = resume_at delivered s.flight s

  unfoldable pub track : Text → Json N → Option Text → Service N → Service N
  track event_type properties request_id s =
      if not enabled
      then s
      else if not (event_type_ok event_type) || not (is_object properties)
      then record s { dropped = record_drop schema_rejected 1 s.dropped }
      else if leb max_queue_size (length s.queue)
      then record s { dropped = record_drop buffer_full 1 s.dropped }
      else (let s' = record (push_event s event_type request_id properties) { timer = true } in
          if leb flush_threshold (length s'.queue) then flush s' else s')

  -- The loop of `flushOnHide`. The k-th call of the beacon answers `beacon k`; as each round takes
  -- an event away, the queue's length bounds the rounds.
  unfoldable pub hide_loop : ℕ → (ℕ → Bool) → ℕ → Service N → Service N
  hide_loop zero beacon k s = s
  hide_loop (suc rounds) beacon k s =
      let batch = take max_batch_size s.queue in
      let rest =
        hide_loop rounds beacon (suc k)
          (record s { queue = drop (length batch) s.queue; log = s.log ++ (true, batch) ∷ [] }) in
      if length s.queue == 0 then s else if beacon k then rest else s

  unfoldable pub flush_on_hide : (ℕ → Bool) → Service N → Service N
  flush_on_hide beacon s =
      if not enabled || not o.has_beacon || length s.queue == 0
      then s
      else (let s' = report_drops s in hide_loop (length s'.queue) beacon 0 s')

  unfoldable pub step : Service N → Action N → Service N
  step s (tracks t p r) = track t p r s
  step s flushes = flush s
  step s (replies answer) = resume (send_with_retry answer).delivered s
  step s (hides beacon) = flush_on_hide beacon s
  step s (sets_user u) = record s { user_id = u }
  step s asks_session = record s { ids = (get_session_id s.ids).1 }

  unfoldable pub run : Service N → List (Action N) → Service N
  run s [] = s
  run s (a ∷ rest) = run (step s a) rest
