-- ===== src/Api/Recorded.antt =====
-- The events of an answer: recordApiCall of uis/backoffice/lib/api-client.ts with the queue of
-- uis/backoffice/services/telemetry-service.ts.
use miguel_n_ai_trackflow_pr.Routes.Classes.{
  api_error_class, http_method, is_some-api_error_class, status_class,
}
use miguel_n_ai_trackflow_pr.Routes.Templates.{route_template}
use miguel_n_ai_trackflow_pr.Common.{
  All, Json, List, Option, Text, [], ap, append_assoc, arith, codes, if◌then◌else◌, is_object,
  is_some, leb, length, length-append, map, none, refl, some, sym, true, ℕ, ◌++◌, ◌+◌, ◌/◌, ◌<◌,
  ◌∙◌, ◌∷◌, ◌≡◌, ◌≤◌,
}
use miguel_n_ai_trackflow_pr.Api.Requests.{
  Client, Net, Pending, error_properties, latency_properties, record_api_call, record_classified,
  record_error,
}
use miguel_n_ai_trackflow_pr.Telemetry.Defs.{Event, Service, max_queue_size}
use miguel_n_ai_trackflow_pr.Telemetry.Drops.{track-queue}
use miguel_n_ai_trackflow_pr.Telemetry.Pattern.{event_type_ok}
use miguel_n_ai_trackflow_pr.Telemetry.Service.{enabled, new_event, track}

-- The events of an answer: its latency and, from 400 on, its error, both with the request's id.
pub record IsRecorded {N : Type 0} (rid : Text) (status : ℕ) (front after : List (Event N))
    : Type 0 where
  pub new_events : List (Event N)
  pub queue : after ≡ front ++ new_events
  pub types :
      map (λ e. e.event_type) new_events
      ≡ codes "api_latency_recorded"
        ∷ (if leb 400 status then codes "api_error_recorded" ∷ [] else [])
  pub ids : All (λ e. e.request_id ≡ rid) new_events

latency_ok : event_type_ok (codes "api_latency_recorded") ≡ true
unfolding event_type_ok
latency_ok = refl

error_ok : event_type_ok (codes "api_error_recorded") ≡ true
unfolding event_type_ok
error_ok = refl

module _ {N : Type 0} (net : Net N) (on : enabled net.options ≡ true) where
  -- A call of `track` with a name, an object and a request's id, where there is room.
  record Tracked (name rid : Text) (s t : Service N) : Type 0 where
    event : Event N
    queue : t.queue ≡ s.queue ++ event ∷ []
    type_of : event.event_type ≡ name
    id_of : event.request_id ≡ rid

  track-Tracked :
      (name rid : Text) (p : Json N) (s : Service N)
      → event_type_ok name ≡ true
      → is_object p ≡ true
      → length s.queue < max_queue_size
      → Tracked name rid s (track net.options name p (some rid) s)
  unfolding new_event
  track-Tracked name rid p s good object room = record {
    event = (new_event net.options s name (some rid) p).0;
    queue = track-queue net.options name p (some rid) s on good object room;
    type_of = refl;
    id_of = refl;
  }

  record_error-IsRecorded :
      (route verb rid : Text) (status : ℕ) (error_class : Option Text) (front : List (Event N))
      (first : Event N) (s : Service N)
      → is_some error_class ≡ leb 400 status
      → first.event_type ≡ codes "api_latency_recorded"
      → first.request_id ≡ rid
      → s.queue ≡ front ++ first ∷ []
      → length s.queue < max_queue_size
      → IsRecorded rid status front (record_error net route verb status rid error_class s).queue
  unfolding record_error
  record_error-IsRecorded route verb rid status none front first s e t i q room = record {
    new_events = first ∷ [];
    queue = q;
    types = rw (t, sym e) refl;
    ids = (i, tt);
  }
  record_error-IsRecorded route verb rid status (some error_class) front first s e t i q room =
      let w =
        track-Tracked (codes "api_error_recorded") rid
          (error_properties net route verb status error_class) s error_ok refl room in
      record {
        new_events = first ∷ w.event ∷ [];
        queue =
            w.queue
            ∙ ap (λ q. q ++ w.event ∷ []) q
            ∙ append_assoc front (first ∷ []) (w.event ∷ []);
        types = rw (t, sym e, w.type_of) refl;
        ids = (i, (w.id_of, tt));
      }

  record_classified-IsRecorded :
      (p : Pending N) (status : ℕ) (verb cls : Text) (c : Client N)
      → length c.telemetry.queue + 2 ≤ max_queue_size
      → IsRecorded p.request_id status c.telemetry.queue
          (record_classified net p status (some verb) (some cls) c).telemetry.queue
  unfolding record_classified
  record_classified-IsRecorded p status verb cls c room =
      let route = route_template p.path in
      let duration = net.elapsed p.started_at (net.performance_now c.readings) in
      let w =
        track-Tracked (codes "api_latency_recorded") p.request_id
          (latency_properties net route verb cls duration) c.telemetry latency_ok refl
          (omega (arith, room)) in
      record_error-IsRecorded route verb p.request_id status (api_error_class status route)
        c.telemetry.queue w.event _ (is_some-api_error_class status route) w.type_of w.id_of w.queue
        (rw w.queue (omega (arith, room, length-append c.telemetry.queue (w.event ∷ []))))

  status_class-some :
      (status : ℕ) → 200 ≤ status → status ≤ 599 → (cls : Text) × (status_class status ≡ some cls)
  unfolding status_class
  status_class-some status low high = ((48 + status / 100) ∷ codes "xx", ground arith)

  -- Of an enabled service with room for two events, an answer of a status from 200 to 599 to a known
  -- method queues at the end its latency, and after it its error if the status is 400 or more, and
  -- nothing else; and both carry the id that the request was sent with.
  pub record_api_call-IsRecorded :
      (p : Pending N) (status : ℕ) (verb : Text) (c : Client N)
      → http_method net.upper p.method ≡ some verb
      → 200 ≤ status
      → status ≤ 599
      → length c.telemetry.queue + 2 ≤ max_queue_size
      → IsRecorded p.request_id status c.telemetry.queue
          (record_api_call net p status c).telemetry.queue
  unfolding record_api_call
  record_api_call-IsRecorded p status verb c known low high room =
      let (cls, e) = status_class-some status low high in
      rw (known, e) (record_classified-IsRecorded p status verb cls c room)
