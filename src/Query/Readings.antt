-- ===== src/Query/Readings.antt =====
-- Synthetic checks, times, replays and error groups at concrete inputs.
use opa_hub.Prelude.{
  ℤ, filter, ◌==◌, if◌then◌else◌, Option, List, pos, ℕ, ◌≡◌, String, true, refl, none, some, [],
  ◌∷◌, inr,
}
use opa_hub.Text.{trim_space}
use opa_hub.Http.{Request}
use opa_hub.Query.Sql.{Sql, raw}
use opa_hub.Query.Sql.Sample.{tenant_scope}
use opa_hub.Query.Db.{Row, query, Every}
use opa_hub.Query.Times.{TimeLib, safe_time_literal, time_compare_sql}
use opa_hub.Query.Times.Bounds.{time_stands_in_code}
use opa_hub.Query.Errors
use opa_hub.Query.Replay
use opa_hub.Query.Replay.{answered, events_of}
use opa_hub.Query.Replay.Order.{is_at, IsChronological, answered-IsChronological}
use opa_hub.Query.Synthetics
use opa_hub.Query.Synthetics.{SyntheticCheck}
use opa_hub.Query.Synthetics.Handler.{serve_synthetics, serve_synthetics_subpath}
use opa_hub.Query.Synthetics.Handler.Written.{Keeps, synthetics-Keeps}
use Prim.Native.String.{◌++◌}

abbrev probes : Synthetics.Outside ℕ
probes = record {
  to_upper = λ s. s;
  now = 7;
  now_text = "2026-01-01 00:00:00.000";
  to_int = λ x. pos x;
}

-- no time parses
abbrev timeless : TimeLib ℕ
timeless = record {
  parse = λ layout s. none;
  unix_milli = λ n. 0;
  unix = λ n. 0;
  format = λ t. "1970-01-01 00:00:00";
  query_unescape = λ s. none;
}

abbrev home_check : SyntheticCheck
home_check = record {
  id = "";
  organization_id = "";
  project_id = "";
  name = " home's ";
  url = "https://example.org/";
  method = "get";
  headers = " ";
  interval_seconds = 3;
  timeout_ms = 90000;
  assert_status = 200;
  assert_body_contains = "";
  assert_max_latency_ms = 0;
  enabled = 7;
}

abbrev check_request : Request SyntheticCheck
check_request = record {
  method = "PUT";
  path = "/api/synthetics/c1";
  header = λ k. "";
  query = λ k. "";
  body = some home_check;
}

synthetics-Keeps_example :
    Every Keeps (serve_synthetics probes timeless true tenant_scope check_request)
    × Every Keeps (serve_synthetics_subpath probes timeless true check_request)
synthetics-Keeps_example = synthetics-Keeps probes timeless true tenant_scope check_request

or_trimmed : trim_space ("now()" ++ " OR 1=1") ≡ "now()" ++ " OR 1=1"
unfolding trim_space
or_trimmed = refl

time_stands_in_code_example :
    (safe_time_literal timeless ("now()" ++ " OR 1=1") ≡ "now()" ++ " OR 1=1")
    × (time_compare_sql timeless {F = ℕ} "start_ts" ">=" ("now()" ++ " OR 1=1")
        ≡ raw (" AND " ++ ("start_ts" ++ (" " ++ (">=" ++ " ")))) ∷ raw ("now()" ++ " OR 1=1") ∷ [])
time_stands_in_code_example = time_stands_in_code timeless "start_ts" ">=" " OR 1=1" or_trimmed

-- a value is its text, and a chunk of the events "e" has a click and then a snapshot, without times
abbrev click : String → Option String
click k = if k == "type" then some "click" else none

abbrev snapshot_event : String → Option String
snapshot_event k = if k == "type" then some "snapshot" else none

abbrev replay_outside : Replay.Outside String ℕ
replay_outside = record {
  text = λ v. v;
  float = λ v. none;
  time_ms = λ v. pos 0;
  to_int = λ x. pos x;
  zero_value = 0;
  events = λ text before. (true, click ∷ snapshot_event ∷ []);
  wrapped = λ text. none;
  parse_ms = λ layout s. none;
}

abbrev chunk_row : ℕ → Row ℕ
chunk_row n = record { text = λ k. "e"; uint = λ k. n; float = λ k. 0 }

abbrev two_chunks : List (Row ℕ)
two_chunks = chunk_row 2 ∷ chunk_row 1 ∷ []

answered-IsChronological_example :
    IsChronological (answered replay_outside "s1" (inr two_chunks)).events
    × ((t chunk : ℤ)
        → filter (is_at t chunk) (answered replay_outside "s1" (inr two_chunks)).events
          ≡ filter (is_at t chunk) (events_of replay_outside two_chunks))
answered-IsChronological_example = answered-IsChronological replay_outside "s1" two_chunks

abbrev error_json : Errors.Json String
error_json = record { list_of = λ s. none; text_value = λ s. s }

abbrev ann_assigned : Errors.Body
ann_assigned = record { status = ""; assigned_to = some "ann" }

abbrev assign_request : Request Errors.Body
assign_request = record {
  method = "POST";
  path = "/api/errors/groups/g1/assign";
  header = λ k. "";
  query = λ k. "";
  body = some ann_assigned;
}
