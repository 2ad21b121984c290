-- ===== src/Telemetry/Drops.antt =====
-- Every event is accounted for: the map of drops in uis/backoffice/services/telemetry-service.ts.
use miguel_n_ai_trackflow_pr.Common.{
  Bool, Json, List, Option, Text, [], ap, arith, false, if_intro, if◌then◌else◌, inl, inr,
  is_object, leb, leb_iff, length, not, refl, some, take, true, ℕ, ◌&&◌, ◌++◌, ◌+◌, ◌<◌, ◌||◌, ◌∙◌,
  ◌∷◌, ◌≡◌, ◌≤◌, ◌⊎◌,
}
use miguel_n_ai_trackflow_pr.Telemetry.Defs.{
  DropReason, Event, Options, Service, buffer_full, flush_threshold, max_batch_size, max_queue_size,
  reason_eq, schema_rejected, transport_failed,
}
use miguel_n_ai_trackflow_pr.Telemetry.Pattern.{event_type_ok}
use miguel_n_ai_trackflow_pr.Telemetry.Service.{
  enabled, flush, new_event, push_event, record_drop, send_front, send_next, track,
}

-- The drops counted so far, under every reason.
abbrev pub total : List (DropReason × ℕ) → ℕ
total [] = 0
total ((r, n) ∷ ds) = n + total ds

-- The drops counted so far under one reason.
abbrev pub count_of : DropReason → List (DropReason × ℕ) → ℕ
count_of q [] = 0
count_of q ((r, n) ∷ ds) = (if reason_eq q r then n else 0) + count_of q ds

same_reason : (q r p : DropReason) → reason_eq r p ≡ true → reason_eq q r ≡ reason_eq q p
same_reason q buffer_full buffer_full h = refl
same_reason q schema_rejected schema_rejected h = refl
same_reason q transport_failed transport_failed h = refl
same_reason q buffer_full schema_rejected h = cc
same_reason q buffer_full transport_failed h = cc
same_reason q schema_rejected buffer_full h = cc
same_reason q schema_rejected transport_failed h = cc
same_reason q transport_failed buffer_full h = cc
same_reason q transport_failed schema_rejected h = cc

counts_more :
    (b : Bool) (m n rest : ℕ)
    → (if b then m + n else 0) + rest ≡ (if b then m else 0) + rest + (if b then n else 0)
counts_more true m n rest = omega arith
counts_more false m n rest = omega arith

module _ {N : Type 0} (o : Options N) where
  total-record_drop :
      (r : DropReason) (n : ℕ) (ds : List (DropReason × ℕ))
      → total (record_drop o r n ds) ≡ total ds + n
  unfolding record_drop
  total-record_drop r n [] = omega arith
  total-record_drop r n ((q, m) ∷ ds) =
      if_intro (λ es. total es ≡ m + total ds + n) (reason_eq q r) (λ _. omega arith)
        (λ _. omega (arith, total-record_drop r n ds))

  -- A drop counts under its reason and under no other.
  pub count_of-record_drop :
      (q r : DropReason) (n : ℕ) (ds : List (DropReason × ℕ))
      → count_of q (record_drop o r n ds) ≡ count_of q ds + (if reason_eq q r then n else 0)
  unfolding record_drop
  count_of-record_drop q r n [] = omega arith
  count_of-record_drop q r n ((p, m) ∷ ds) =
      if_intro
        (λ (es : List (DropReason × ℕ)).
          count_of q es
          ≡ (if reason_eq q p then m else 0) + count_of q ds + (if reason_eq q r then n else 0))
        (reason_eq p r)
        (λ same.
          counts_more (reason_eq q p) m n (count_of q ds)
          ∙ ap (λ b. (if reason_eq q p then m else 0) + count_of q ds + (if b then n else 0))
              (same_reason q p r same))
        (λ other. omega (arith, count_of-record_drop q r n ds))

  -- What `track` queues of a call: an event with a new id that carries the caller's data.
  pub record Carries (t : Text) (p : Json N) (s : Service N) (e : Event N) : Type 0 where
    pub id : e.event_id ≡ o.uuid s.ids.drawn
    pub event_type : e.event_type ≡ t
    pub properties : e.properties ≡ p
    pub user : e.user ≡ s.user_id

  -- An accepted event: it is the one new event at the queue's end, nothing is counted, and from the
  -- threshold on a flush is under way if the service can fetch.
  pub record IsQueued (t : Text) (p : Json N) (s u : Service N) : Type 0 where
    pub event : Event N
    pub carries : Carries t p s event
    pub queue : u.queue ≡ s.queue ++ event ∷ []
    pub dropped : u.dropped ≡ s.dropped
    pub busy : (leb flush_threshold (length u.queue) && o.has_fetch && not u.flushing) ≡ false

  -- A refused event: it counts once under the reason and under no other, and the queue is as it was.
  pub record IsCounted (reason : DropReason) (s u : Service N) : Type 0 where
    pub queue : u.queue ≡ s.queue
    pub total : total u.dropped ≡ total s.dropped + 1
    pub counts :
        (q : DropReason)
        → count_of q u.dropped ≡ count_of q s.dropped + (if reason_eq q reason then 1 else 0)

  -- The event is of a good name and its properties are an object.
  abbrev pub is_well_formed : Text → Json N → Bool
  is_well_formed t p = event_type_ok t && is_object p

  -- What a call comes to, by its arguments and by the room in the queue.
  abbrev pub IsAccounted : Text → Json N → Service N → Service N → Type 0
  IsAccounted t p s u =
      ((is_well_formed t p ≡ true) × (length s.queue < max_queue_size) × IsQueued t p s u)
      ⊎ ((is_well_formed t p ≡ true)
          × (max_queue_size ≤ length s.queue)
          × IsCounted buffer_full s u)
      ⊎ ((is_well_formed t p ≡ false) × IsCounted schema_rejected s u)

  recorded :
      (reason : DropReason) (s : Service N)
      → IsCounted reason s (record s { dropped = record_drop o reason 1 s.dropped })
  recorded reason s = record {
    queue = refl;
    total = total-record_drop reason 1 s.dropped;
    counts = λ q. count_of-record_drop q reason 1 s.dropped;
  }

  send_front-cons :
      (q : List (Event N)) (s : Service N)
      → 0 < length q
      → send_front o q s ≡ record s { flight = some (take max_batch_size q) }
  unfolding send_front
  send_front-cons [] s h = absurd (omega arith)
  send_front-cons (x ∷ q) s h = refl

  -- Starting a flush of a queue that holds something leaves the queue and the drops alone.
  pub record Started (s t : Service N) : Type 0 where
    queue : t.queue ≡ s.queue
    dropped : t.dropped ≡ s.dropped
    busy : (leb flush_threshold (length t.queue) && o.has_fetch && not t.flushing) ≡ false

  flush-Started : (s : Service N) → enabled o ≡ true → 0 < length s.queue → Started s (flush o s)
  unfolding flush send_next
  flush-Started s on h =
      if_intro (Started s) (s.flushing || not (enabled o) || not o.has_fetch)
        (λ e. record { queue = refl; dropped = refl; busy = ground arith })
        λ _.
          rw (send_front-cons s.queue (record s { flushing = true }) h)
            (record { queue = refl; dropped = refl; busy = ground arith })

not_either : (a b : Bool) → (not a || not b) ≡ false → (a && b) ≡ true
not_either a b h = ground arith

either_not : (a b : Bool) → (not a || not b) ≡ true → (a && b) ≡ false
either_not a b h = ground arith

-- Of an enabled service, a call of `track` with a good name and an object queues exactly one event,
-- at the end and with the caller's data, if fewer than 500 are queued, with a flush under way once
-- 20 are queued if the service has a `fetch`; if 500 or more are queued it counts one drop as
-- `buffer_full`, and with a bad name or no object one as `schema_rejected`: each under that reason
-- alone and with the queue left as it was.
pub track_accounts :
    {N : Type 0} (o : Options N) (t : Text) (p : Json N) (r : Option Text) (s : Service N)
    → enabled o ≡ true
    → IsAccounted o t p s (track o t p r s)
unfolding track push_event new_event
track_accounts {N} o t p r s on =
    let Done = λ (u : Service N). IsAccounted o t p s u in
    let next = record (push_event o s t r p) { timer = true } in
    let event = (new_event o s t r p).0 in
    let carries : Carries o t p s event = record {
      id = refl;
      event_type = refl;
      properties = refl;
      user = refl;
    } in
    if_intro Done (not (enabled o)) (λ h. cc)
      λ _.
        if_intro Done (not (event_type_ok t) || not (is_object p))
          (λ bad. inr (inr (either_not _ _ bad, recorded o schema_rejected s)))
          λ good.
            let fine = not_either _ _ good in
            if_intro Done (leb max_queue_size (length s.queue))
              (λ full. inr (inl (fine, ground arith, recorded o buffer_full s)))
              λ room.
                if_intro Done (leb flush_threshold (length next.queue))
                  (λ many.
                    let w =
                      flush-Started o next on
                        (omega (arith, (leb_iff _ (length next.queue)).0 many)) in
                    inl (
                      fine,
                      ground arith,
                      record {
                        event = event;
                        carries = carries;
                        queue = w.queue;
                        dropped = w.dropped;
                        busy = w.busy;
                      },
                    ))
                  λ few. inl (
                    fine,
                    ground arith,
                    record {
                      event = event;
                      carries = carries;
                      queue = refl;
                      dropped = refl;
                      busy = rw few refl;
                    },
                  )

-- An event of a good name, with an object and with room for it, is queued at the end.
pub track-queue :
    {N : Type 0} (o : Options N) (t : Text) (p : Json N) (r : Option Text) (s : Service N)
    → enabled o ≡ true
    → event_type_ok t ≡ true
    → is_object p ≡ true
    → length s.queue < max_queue_size
    → (track o t p r s).queue ≡ s.queue ++ (new_event o s t r p).0 ∷ []
unfolding track push_event
track-queue {N} o t p r s on good object room =
    let Done = λ (u : Service N). u.queue ≡ s.queue ++ (new_event o s t r p).0 ∷ [] in
    let next = record (push_event o s t r p) { timer = true } in
    rw (on, good, object)
      (if_intro Done (leb max_queue_size (length s.queue)) (λ full. absurd (ground arith))
        λ _.
          if_intro Done (leb flush_threshold (length next.queue))
            (λ many.
              (flush-Started o next on
                (omega (arith, (leb_iff _ (length next.queue)).0 many))).queue)
            λ _. refl)
