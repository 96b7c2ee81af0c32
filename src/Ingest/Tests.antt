-- ===== src/Ingest/Tests.antt =====
-- Pushes at concrete inputs.
use opa_hub.Prelude.{ℕ, ◌+◌, false, ◌≡◌, refl, arith, none, some, List, [], ◌∷◌, pos, negsuc}
use opa_hub.Http.{Request}
use opa_hub.Store.{Writer}
use opa_hub.Ingest.{
  PushRequest, PushBody, Handler, Sinks, enroll_ok, absent, array, serve_push, event_total,
  table_for_kind,
}
use opa_hub.Ingest.Accounting.{
  Outcome, IsRecorded, serve_push_cases, serve_all, acknowledged, acknowledged_events, HasGrown,
  InRange, serve_all-HasGrown,
}
use opa_hub.Ingest.Underflow.{negative_push_shrinks}

abbrev lab_handler : Handler
lab_handler = record { enroll_token = ""; auth_required = false }

abbrev spans_push : PushRequest
spans_push = record {
  agent_id = "a1";
  kind = "spans";
  events = array ("x" ∷ "y" ∷ []);
  event_count = pos 0;
}

-- a push that says that it holds -3 events
abbrev negative_push : PushRequest
negative_push = record { agent_id = "a1"; kind = "logs"; events = absent; event_count = negsuc 2 }

abbrev sent : PushRequest → Request PushBody
sent p = record {
  method = "POST";
  path = "/api/ingest/push";
  header = λ k. "";
  query = λ k. "";
  body = some (record { size = 100; decoded = some p });
}

abbrev busy_writer : Writer
busy_writer = record {
  url = "http://clickhouse";
  database = "opa";
  batches = 4;
  last_err = "";
  ingest_bytes = 900;
  ingest_events = 10;
}

abbrev busy_sinks : Sinks
busy_sinks = record { registry = none; writer = some busy_writer }

serve_push_cases_example : Outcome lab_handler 7 (sent spans_push) busy_sinks
serve_push_cases_example = serve_push_cases lab_handler 7 (sent spans_push) busy_sinks

abbrev two_pushes : List (ℕ × Request PushBody)
two_pushes = (7, sent spans_push) ∷ (8, sent negative_push) ∷ []

busy_writer-InRange : InRange busy_writer
busy_writer-InRange = record { batches = omega arith; ingest_events = omega arith }

serve_all-HasGrown_example :
    (v : Writer) × ((serve_all lab_handler two_pushes busy_sinks).0.writer ≡ some v)
    × HasGrown busy_writer v
        (acknowledged (serve_all lab_handler two_pushes busy_sinks).1)
        (acknowledged_events (serve_all lab_handler two_pushes busy_sinks).1)
serve_all-HasGrown_example =
    serve_all-HasGrown lab_handler two_pushes busy_sinks busy_writer refl busy_writer-InRange

negative_push-IsRecorded :
    IsRecorded 7
      (record { size = 100; decoded = some negative_push })
      negative_push
      busy_sinks
      (serve_push lab_handler 7 (sent negative_push) busy_sinks)
unfolding serve_push enroll_ok event_total table_for_kind
negative_push-IsRecorded = record { writer = refl; registry = refl; reply = refl }

-- three of the ten events that the hub counted are gone
negative_push_shrinks_example :
    (v : Writer) × ((serve_push lab_handler 7 (sent negative_push) busy_sinks).0.writer ≡ some v)
    × (v.ingest_events + 3 ≡ 10)
negative_push_shrinks_example =
    negative_push_shrinks lab_handler 7 2 (sent negative_push)
      (record { size = 100; decoded = some negative_push }) negative_push busy_sinks busy_writer
      negative_push-IsRecorded refl refl refl (omega arith) (omega arith)
