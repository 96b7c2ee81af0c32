-- ===== src/Ingest/Underflow.antt =====
-- A push with a negative event count (ingest.go).
use opa_hub.Prelude.{ℕ, suc, ◌+◌, ◌<◌, ◌≡◌, some, arith, pos, negsuc, u64, to_uint64, add_u64}
use opa_hub.Http.{Request}
use opa_hub.Store.{Writer, record_ingest}
use opa_hub.Ingest.{absent, PushRequest, PushBody, Handler, Sinks, event_total, serve_push}
use opa_hub.Ingest.Accounting.{IsRecorded}

event_total_negative :
    (p : PushRequest) (k : ℕ)
    → p.event_count ≡ negsuc k
    → p.events ≡ absent
    → event_total p ≡ negsuc k
unfolding event_total
event_total_negative p k count events = ground arith

-- A recorded push that carries no events and says that their number is -(k + 1) takes k + 1 events off
-- the writer's counter, where the counter is that large.
pub negative_push_shrinks :
    (h : Handler) (now k : ℕ) (req : Request PushBody) (body : PushBody) (p : PushRequest)
    (s : Sinks) (w : Writer)
    → IsRecorded now body p s (serve_push h now req s)
    → p.event_count ≡ negsuc k
    → p.events ≡ absent
    → s.writer ≡ some w
    → w.ingest_events < u64
    → k < w.ingest_events
    → (v : Writer) × ((serve_push h now req s).0.writer ≡ some v)
      × (v.ingest_events + suc k ≡ w.ingest_events)
unfolding record_ingest
negative_push_shrinks h now k req body p s w r count events configured range enough = (
  record w {
    batches = add_u64 w.batches 1;
    ingest_events = add_u64 w.ingest_events (to_uint64 (negsuc k));
    ingest_bytes = add_u64 w.ingest_bytes (to_uint64 (pos body.size));
  },
  ground (arith, r.writer, event_total_negative p k count events),
  omega arith,
)
