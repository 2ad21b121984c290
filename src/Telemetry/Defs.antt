-- ===== src/Telemetry/Defs.antt =====
-- The data of uis/backoffice/services/telemetry-service.ts: events, reasons of a drop, the state of
-- a `TelemetryService`, and what its options and the browser give it.
use miguel_n_ai_trackflow_pr.Common.{
  Bool, Json, List, Option, Text, [], codes, false, none, true, ℕ,
}

abbrev pub schema_version : Text
schema_version = codes "1.0.0"

abbrev pub flush_threshold : ℕ
flush_threshold = 20

abbrev pub max_batch_size : ℕ
max_batch_size = 100

abbrev pub max_queue_size : ℕ
max_queue_size = 500

abbrev pub max_retries : ℕ
max_retries = 3

abbrev pub retry_base_delay_ms : ℕ
retry_base_delay_ms = 1000

pub record Event (N : Type 0) : Type 0 where
  pub event_id : Text
  pub timestamp : Text
  pub session : Text
  pub user : Option Text
  pub event_type : Text
  pub version : Text
  pub request_id : Text
  pub properties : Json N

pub data DropReason : Type 0 where
  buffer_full : DropReason
  schema_rejected : DropReason
  transport_failed : DropReason

abbrev pub reason_text : DropReason → Text
reason_text buffer_full = codes "buffer_full"
reason_text schema_rejected = codes "schema_rejected"
reason_text transport_failed = codes "transport_failed"

abbrev pub reason_eq : DropReason → DropReason → Bool
reason_eq buffer_full buffer_full = true
reason_eq schema_rejected schema_rejected = true
reason_eq transport_failed transport_failed = true
reason_eq _ _ = false

-- What the service is given: its options, and the functions of the platform. The n-th call of
-- `uuid()` gives `uuid n`, and the n-th reading of the clock gives `now n` milliseconds.
pub record Options (N : Type 0) : Type 0 where
  pub endpoint : Text
  pub has_fetch : Bool
  pub has_beacon : Bool
  pub uuid : ℕ → Text
  pub now : ℕ → ℕ
  pub to_iso : ℕ → Text
  pub number : ℕ → N

-- `sessionStorage` at the service's key. A call that throws, or a page without the object, is a
-- storage that is not readable, or not writable.
pub record Storage : Type 0 where
  pub readable : Bool
  pub writable : Bool
  pub item : Option Text

-- The fields that name things: the session's id, where it is kept, and how many ids were drawn and
-- how often the clock was read.
pub record Ids : Type 0 where
  pub session_id : Option Text
  pub storage : Storage
  pub drawn : ℕ
  pub reads : ℕ

-- The fields of the object, and two that stand for what runs outside it: `flight` is the batch
-- whose delivery `flush` awaits, and `log` lists the batches that have left the queue, each with
-- whether the endpoint or the beacon took it.
pub record Service (N : Type 0) : Type 0 where
  pub queue : List (Event N)
  pub user_id : Option Text
  pub ids : Ids
  pub timer : Bool
  pub flushing : Bool
  pub dropped : List (DropReason × ℕ)
  pub last_drop_report : ℕ
  pub flight : Option (List (Event N))
  pub log : List (Bool × List (Event N))

-- The constructor's initial fields.
unfoldable pub init : {N : Type 0} → Storage → Service N
init storage = record {
  queue = [];
  user_id = none;
  ids = record { session_id = none; storage = storage; drawn = 0; reads = 0 };
  timer = false;
  flushing = false;
  dropped = [];
  last_drop_report = 0;
  flight = none;
  log = [];
}
