-- ===== src/Telemetry/Tests.antt =====
-- Runs of the model of uis/backoffice/services/telemetry-service.ts, and the theorems at them.
use miguel_n_ai_trackflow_pr.Common.{
  List, [], arith, codes, end, false, is_some, length, none, obj, or_else, refl, suc, true, zero, ℕ,
  ◌*◌, ◌++◌, ◌↔◌, ◌∷◌, ◌≡◌, ◌≤◌,
}
use miguel_n_ai_trackflow_pr.Telemetry.Defs.{
  Event, Options, Service, Storage, buffer_full, init, max_queue_size, max_retries,
}
use miguel_n_ai_trackflow_pr.Telemetry.Pattern.{event_type_ok}
use miguel_n_ai_trackflow_pr.Telemetry.Retry.{
  Answer, Backoff, Succeeds, send_with_retry, send_with_retry-Backoff, send_with_retry_iff, status,
  thrown,
}
use miguel_n_ai_trackflow_pr.Telemetry.Service.{
  Action, enabled, finish, flush, flush_on_hide, flushes, get_session_id, hide_loop, hides,
  new_event, push_event, push_reports, record_drop, replies, report_drops, report_entries, resume,
  resume_at, run, send_front, send_next, settle, step, track, tracks,
}
use miguel_n_ai_trackflow_pr.Telemetry.Bounds.{Inv, run-init-Inv}
use miguel_n_ai_trackflow_pr.Telemetry.Growth.{Fresh}
use miguel_n_ai_trackflow_pr.Telemetry.Kept.{Keeps, history}
use miguel_n_ai_trackflow_pr.Telemetry.History.{run-init-Keeps}
use miguel_n_ai_trackflow_pr.Telemetry.Hide.{always, hide_in_flight_loses}
use miguel_n_ai_trackflow_pr.Telemetry.Drops.{IsAccounted, track_accounts}
use miguel_n_ai_trackflow_pr.Telemetry.Reports.{Reported, report_drops-Reported, window_of}

-- Opens every method at once.
service_code : Unit {0}
unfolding step run track flush resume resume_at settle send_next send_front finish report_drops
    report_entries push_reports push_event new_event get_session_id record_drop enabled
    flush_on_hide hide_loop init event_type_ok send_with_retry
service_code = tt

abbrev options : Options ℕ
options = record {
  endpoint = codes "/t";
  has_fetch = true;
  has_beacon = true;
  uuid = λ n. n ∷ [];
  now = λ n. n * 1000;
  to_iso = λ ms. ms ∷ [];
  number = λ n. n;
}

abbrev page : Storage
page = record { readable = true; writable = true; item = none }

abbrev click : Action ℕ
click = tracks (codes "flow_started") (obj end) none

abbrev second_try : ℕ → Answer
second_try zero = status 503
second_try (suc k) = status 202

second_try_ok :
    send_with_retry second_try ≡ record { delivered = true; requests = 2; slept_ms = 1000 }
unfolding send_with_retry
second_try_ok = refl

refused_once :
    send_with_retry (λ k. status 422) ≡ record { delivered = false; requests = 1; slept_ms = 0 }
unfolding send_with_retry
refused_once = refl

offline :
    send_with_retry (λ k. thrown) ≡ record { delivered = false; requests = 4; slept_ms = 7000 }
unfolding send_with_retry
offline = refl

send_with_retry_iff_example :
    ((send_with_retry second_try).delivered ≡ true) ↔ Succeeds second_try 0 4
send_with_retry_iff_example = send_with_retry_iff second_try

send_with_retry-Backoff_example : Backoff max_retries (send_with_retry second_try)
send_with_retry-Backoff_example = send_with_retry-Backoff second_try

-- One event is awaited.
abbrev sending : Service ℕ
sending = run options (init page) (click ∷ flushes ∷ [])

sending_waits : (length sending.queue ≡ 1) × (is_some sending.flight ≡ true)
unfolding service_code
sending_waits = (refl, refl)

delivered_leaves : (step options sending (replies second_try)).queue ≡ []
unfolding service_code
delivered_leaves = refl

-- A failed batch comes back as a report of the drop.
failed_reports : length (step options sending (replies (λ k. thrown))).queue ≡ 1
unfolding service_code
failed_reports = refl

run-init-Inv_example : Inv (run options (init page) (click ∷ flushes ∷ click ∷ []))
run-init-Inv_example = run-init-Inv options page (click ∷ flushes ∷ click ∷ [])

run-init-Keeps_example :
    Keeps options sending (run options sending (click ∷ replies second_try ∷ []))
    × Fresh options 0
        (run options sending (click ∷ replies second_try ∷ [])).ids.drawn
        (history (run options sending (click ∷ replies second_try ∷ [])))
run-init-Keeps_example =
    run-init-Keeps options page (click ∷ flushes ∷ []) (click ∷ replies second_try ∷ [])
      (tt, (tt, tt)) (tt, (tt, tt))

abbrev awaited : List (Event ℕ)
awaited = or_else sending.flight []

hide_in_flight_loses_example :
    history (
      run options sending
        (hides always ∷ tracks (codes "flow_started") (obj end) none ∷ replies second_try ∷ []))
    ≡ history sending ++ awaited
unfolding service_code
hide_in_flight_loses_example =
    hide_in_flight_loses options sending awaited (codes "flow_started") (obj end) none second_try
      refl refl refl (omega arith) refl refl refl refl

enabled_options : enabled options ≡ true
unfolding enabled
enabled_options = refl

track_accounts_example :
    IsAccounted options
      (codes "flow_started")
      (obj end)
      (init page)
      (track options (codes "flow_started") (obj end) none (init page))
track_accounts_example =
    track_accounts options (codes "flow_started") (obj end) none (init page) enabled_options

abbrev with_drop : Service ℕ
with_drop = record (init page) { dropped = (buffer_full, 2) ∷ [] }

within_cap : length with_drop.queue ≤ max_queue_size
unfolding init
within_cap = omega arith

report_drops-Reported_example :
    Reported options
      (window_of options with_drop)
      with_drop.dropped
      with_drop
      (report_drops options with_drop)
report_drops-Reported_example = report_drops-Reported options with_drop within_cap
