-- ===== src/Query/Traces/Kept.antt =====
-- What a full answer adds to the spans of a trace, and the pages of a list.
use opa_hub.Prelude.{
  ◌≤◌, ◌<◌, String, Bool, true, false, ◌≡◌, refl, List, [], ◌∷◌, ◌⊎◌, inl, inr, map, length, arith,
  is_empty, not, if◌then◌else◌,
}
use opa_hub.Http.{Request, Response, write_error, write_json}
use opa_hub.Query.Pages.{limit_of-bounds}
use opa_hub.Query.Db.{Row, Db, done, query, exec, Results}
use opa_hub.Query.Times.{TimeLib}
use opa_hub.Query.Traces.Handler.{
  Reply, traces, logs, detail, Values, span_of, listed, serve_traces, with_spans,
}
use opa_hub.Query.Traces.Payloads.{
  ShowsAll, payload_rows, plain_all, with_payloads-ShowsAll, with_payloads-full,
}

module _ {F J : Type 0} where
  -- An answer about a trace: the spans of its rows in their order, each with all the values of its row, or
  -- an error where there are no rows.
  abbrev pub Shows : List (Row F) → List (Row F) → Response (Reply F J) → Type 0
  Shows rows payloads (write_error n code message) = (rows ≡ []) × (n ≡ 404)
  Shows rows payloads (write_json n (detail d)) =
      (n ≡ 200)
      × ShowsAll payloads rows d.spans
      × (d.span_count ≡ length rows)
      × (d.full ≡ not (is_empty payloads))
  Shows rows payloads (write_json n (traces ts total limit offset)) = ⊥
  Shows rows payloads (write_json n (logs ls count id)) = ⊥

  -- every answer, for the payloads that were read before it
  abbrev pub ForPayloads :
      (List (Row F) → Response (Reply F J) → Type 0) → Db F (Response (Reply F J)) → Type 0
  ForPayloads P (done a) = P [] a
  ForPayloads P (query s k) = (r : String ⊎ List (Row F)) → Results (P (payload_rows r)) (k r)
  ForPayloads P (exec s k) = ⊥

  ForPayloads-if :
      (P : List (Row F) → Response (Reply F J) → Type 0) (b : Bool)
      (d e : Db F (Response (Reply F J)))
      → ForPayloads P d
      → ForPayloads P e
      → ForPayloads P (if b then d else e)
  ForPayloads-if P true d e h k = h
  ForPayloads-if P false d e h k = k

  -- A page of the list: its limit is between one and five hundred.
  abbrev pub IsPage : Response (Reply F J) → Type 0
  IsPage (write_error n code message) = (n ≡ 500) × (code ≡ "query_error")
  IsPage (write_json n (traces ts total limit offset)) = (n ≡ 200) × (0 < limit) × (limit ≤ 500)
  IsPage (write_json n (detail d)) = ⊥
  IsPage (write_json n (logs ls count id)) = ⊥

module _ {F J T : Type 0} (v : Values F J) (m : TimeLib T) where
  -- Whatever the read of the payloads answers, a trace is shown with all of its spans, in the order of
  -- the rows: under every key of its row a span has the value of the row, which no payload replaces,
  -- and besides the texts that are not empty of the last payload with its id; the answer is full where
  -- there are payloads. Where there are no rows, the answer is that the trace is not found.
  pub with_spans-Shows :
      (id : String) (want_full : Bool) (rows : List (Row F))
      → ForPayloads (Shows rows) (with_spans v m id want_full (inr rows))
  unfolding with_spans
  with_spans-Shows id want_full [] = (refl, refl)
  with_spans-Shows id want_full (row ∷ rows) =
      let spans = map span_of (row ∷ rows) in
      ForPayloads-if (Shows (row ∷ rows)) want_full _ _
        (λ r. (
          refl,
          with_payloads-ShowsAll v.sprint (row ∷ rows) r,
          refl,
          with_payloads-full v.sprint spans r,
        ))
        (refl, plain_all (row ∷ rows), refl, refl)

  listed-IsPage :
      (req : Request Unit) (r : String ⊎ List (Row F)) → Results IsPage (listed v m req r)
  unfolding listed
  listed-IsPage req (inl e) = (refl, refl)
  listed-IsPage req (inr rows) =
      let h : 0 < 50 = omega arith in
      let k : 0 < 500 = omega arith in
      let (low, high) = limit_of-bounds (req.query "limit") 50 500 h k in λ r. (refl, low, high)

  -- A GET of the list of traces is answered with the error of a read or with a page whose limit is between
  -- one and five hundred, whatever the parameters and the answers are.
  pub serve_traces-IsPage :
      (req : Request Unit) → req.method ≡ "GET" → Results IsPage (serve_traces v m true req)
  unfolding serve_traces
  serve_traces-IsPage req g = rw g (listed-IsPage req)
