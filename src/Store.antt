-- ===== src/Store.antt =====
-- internal/store/clickhouse.go: the counters of the ClickHouse writer. The client behind it is a
-- package that is not part of the repository.
use opa_hub.Prelude.{ℕ, String, Bool, not, Option, none, some, ◌==◌, ℤ, to_uint64, add_u64}

-- The fields of `Writer` that the hub itself reads and writes, and of its configuration.
pub record Writer : Type 0 where
  pub url : String
  pub database : String
  pub batches : ℕ
  pub last_err : String
  pub ingest_bytes : ℕ
  pub ingest_events : ℕ

-- `NewWriter`, of the URL and the database of its configuration
unfoldable pub new_writer : String → String → Writer
new_writer url database = record {
  url = url;
  database = database;
  batches = 0;
  last_err = "";
  ingest_bytes = 0;
  ingest_events = 0;
}

-- `RecordIngest`, which does nothing on a nil writer and ignores the table
unfoldable pub record_ingest : String → ℤ → ℤ → Option Writer → Option Writer
record_ingest table event_count payload_bytes none = none
record_ingest table event_count payload_bytes (some w) = some (record w {
  batches = add_u64 w.batches 1;
  ingest_events = add_u64 w.ingest_events (to_uint64 event_count);
  ingest_bytes = add_u64 w.ingest_bytes (to_uint64 payload_bytes);
})

-- `SetLastError`; a nil error is `none`
unfoldable pub set_last_error : Option String → Option Writer → Option Writer
set_last_error err none = none
set_last_error none (some w) = some (record w { last_err = "" })
set_last_error (some message) (some w) = some (record w { last_err = message })

pub record Stats : Type 0 where
  pub configured : Bool
  pub url : String
  pub database : String
  pub batches : ℕ
  pub ingest_events : ℕ
  pub ingest_bytes : ℕ
  pub last_error : String

-- `Stats`; of a nil writer the map holds `configured` alone
unfoldable pub stats : Option Writer → Option Stats
stats none = none
stats (some w) = some (record {
  configured = not (w.url == "");
  url = w.url;
  database = w.database;
  batches = w.batches;
  ingest_events = w.ingest_events;
  ingest_bytes = w.ingest_bytes;
  last_error = w.last_err;
})
