-- ===== src/Ingest/Accounting.antt =====
-- What a push (ingest.go) writes, and what the counters say after many.
use mathlib.Core.Option
use opa_hub.Prelude.{
  ℕ, ◌+◌, ◌%◌, ◌<◌, String, true, ◌≡◌, ◌≢◌, ◌⊎◌, ap, ◌∙◌, Option, some, List, [], ◌∷◌, ◌==◌, eq_iff,
  arith, ℤ, pos, u64, to_uint64, add_u64, Bool-cases, Option-cases, inl, inr,
}
use opa_hub.Text.{trim_space}
use opa_hub.Http.{Request, Response, write_error, write_json, is_error}
use opa_hub.Registry.{mark_push}
use opa_hub.Store.{Writer, record_ingest}
use opa_hub.Ingest.{
  PushRequest, PushBody, Handler, Sinks, PushReply, enroll_ok, event_total, kind_or_mixed,
  table_for_kind, serve_push,
}

-- what a push needs
pub record IsAccepted (h : Handler) (req : Request PushBody) (body : PushBody) (p : PushRequest)
    : Type 0 where
  pub posted : req.method ≡ "POST"
  pub enrolled : enroll_ok h req.header ≡ true
  pub read : req.body ≡ some body
  pub decoded : body.decoded ≡ some p
  pub named : trim_space p.agent_id ≢ ""

-- the writes and the answer of an accepted push
pub record IsRecorded (now : ℕ) (body : PushBody) (p : PushRequest) (s : Sinks)
    (result : Sinks × Response PushReply) : Type 0 where
  pub writer :
      result.0.writer
      ≡ record_ingest
          (table_for_kind (kind_or_mixed p.kind))
          (event_total p)
          (pos body.size)
          s.writer
  pub registry : result.0.registry ≡ Option.map (mark_push now p.agent_id) s.registry
  pub reply :
      result.1
      ≡ write_json 200 (record {
        agent_id = p.agent_id;
        kind = kind_or_mixed p.kind;
        event_count = event_total p;
        table = table_for_kind (kind_or_mixed p.kind);
        accepted_at = now;
      })

abbrev pub IsRefused : Sinks → Sinks × Response PushReply → Type 0
IsRefused s result = (result.0 ≡ s) × (is_error result.1 ≡ true)

-- a push is recorded as a whole, or refused and writes nothing
abbrev pub Outcome : Handler → ℕ → Request PushBody → Sinks → Type 0
Outcome h now req s =
    ((body : PushBody) × (p : PushRequest) × IsAccepted h req body p
      × IsRecorded now body p s (serve_push h now req s))
    ⊎ (((body : PushBody) (p : PushRequest) → ¬ IsAccepted h req body p)
        × IsRefused s (serve_push h now req s))

-- A push that is a POST with a good enroll token, a body within the limit that decodes, and an agent
-- id that is not blank is recorded by the writer and marked in the registry, and is acknowledged
-- with the recorded count and table; any other push writes nothing and is answered by an error.
pub serve_push_cases :
    (h : Handler) (now : ℕ) (req : Request PushBody) (s : Sinks) → Outcome h now req s
unfolding serve_push
serve_push_cases h now req s = elim (Bool-cases (req.method == "POST")) [
  | inr other ↦ inr (λ body p a. ground (arith, eq_iff req.method "POST", a.posted), ground arith)
  | inl post ↦ elim (Bool-cases (enroll_ok h req.header)) [
    | inr closed ↦ inr (λ body p a. ground (arith, a.enrolled), ground arith)
    | inl open_ ↦ elim (Option-cases req.body) [
      | inl large ↦ inr (λ body p a. ground (arith, a.read), ground arith)
      | inr (body, read) ↦ elim (Option-cases body.decoded) [
        | inl garbled ↦ inr (λ b p a. ground (arith, a.read, a.decoded), ground arith)
        | inr (p, decoded) ↦ elim (Bool-cases (trim_space p.agent_id == "")) [
          | inl blank ↦ inr (
            λ b q a. ground (arith, a.read, a.decoded, a.named, eq_iff (trim_space p.agent_id) ""),
            ground arith,
          )
          | inr named ↦ inl (
            body,
            p,
            record {
              posted = (eq_iff req.method "POST").0 post;
              enrolled = open_;
              read = read;
              decoded = decoded;
              named = ground (arith, eq_iff (trim_space p.agent_id) "");
            },
            record { writer = ground arith; registry = ground arith; reply = ground arith },
          )
        ]
      ]
    ]
  ]
]

-- Pushes one after the other, each with the time at which it is handled, and their answers.
unfoldable pub serve_all :
    Handler → List (ℕ × Request PushBody) → Sinks → Sinks × List (Response PushReply)
serve_all h [] s = (s, [])
serve_all h ((now, req) ∷ rest) s =
    let (s', reply) = serve_push h now req s in
    let (s'', replies) = serve_all h rest s' in (s'', reply ∷ replies)

-- the pushes and the events that the answers acknowledge
abbrev pub acknowledged : List (Response PushReply) → ℕ
acknowledged [] = 0
acknowledged (write_json n reply ∷ rest) = 1 + acknowledged rest
acknowledged (write_error n c m ∷ rest) = acknowledged rest

abbrev pub acknowledged_events : List (Response PushReply) → ℕ
acknowledged_events [] = 0
acknowledged_events (write_json n reply ∷ rest) =
    to_uint64 reply.event_count + acknowledged_events rest
acknowledged_events (write_error n c m ∷ rest) = acknowledged_events rest

-- A writer whose counters have grown, modulo 2^64, by so many batches and events.
pub record HasGrown (before after : Writer) (pushes events : ℕ) : Type 0 where
  pub batches : after.batches ≡ (before.batches + pushes) % u64
  pub ingest_events : after.ingest_events ≡ (before.ingest_events + events) % u64

pub record InRange (w : Writer) : Type 0 where
  pub batches : w.batches < u64
  pub ingest_events : w.ingest_events < u64

-- the writer after a push of so many events and bytes
grown : Writer → ℤ → ℤ → Writer
grown w events size = record w {
  batches = add_u64 w.batches 1;
  ingest_events = add_u64 w.ingest_events (to_uint64 events);
  ingest_bytes = add_u64 w.ingest_bytes (to_uint64 size);
}

grown-HasGrown :
    (w : Writer) (events size : ℤ) → HasGrown w (grown w events size) (1 + 0) (to_uint64 events + 0)
unfolding grown
grown-HasGrown w events size = record { batches = omega arith; ingest_events = omega arith }

record_ingest-grown :
    (table : String) (events size : ℤ) (o : Option Writer) (w : Writer)
    → o ≡ some w
    → record_ingest table events size o ≡ some (grown w events size)
unfolding record_ingest grown
record_ingest-grown table events size o w e = rw e

refused-HasGrown :
    (w : Writer) (reply : Response PushReply)
    → InRange w
    → is_error reply ≡ true
    → HasGrown w w (acknowledged (reply ∷ [])) (acknowledged_events (reply ∷ []))
refused-HasGrown w (write_error n c m) range e = record {
  batches = omega (arith, range.batches);
  ingest_events = omega (arith, range.ingest_events);
}
refused-HasGrown w (write_json n a) range e = absurd (cc)

serve_push-HasGrown :
    (h : Handler) (now : ℕ) (req : Request PushBody) (s : Sinks) (w : Writer)
    → s.writer ≡ some w
    → InRange w
    → (v : Writer) × ((serve_push h now req s).0.writer ≡ some v)
      × HasGrown w v
          (acknowledged ((serve_push h now req s).1 ∷ []))
          (acknowledged_events ((serve_push h now req s).1 ∷ []))
serve_push-HasGrown h now req s w configured range = elim (serve_push_cases h now req s) [
  | inl (body, p, accepted, r) ↦ (
    grown w (event_total p) (pos body.size),
    r.writer ∙ record_ingest-grown _ (event_total p) (pos body.size) s.writer w configured,
    rw r.reply (grown-HasGrown w (event_total p) (pos body.size)),
  )
  | inr (unfit, refused) ↦ (
    w,
    ap (λ (x : Sinks). x.writer) refused.0 ∙ configured,
    refused-HasGrown w (serve_push h now req s).1 range refused.1,
  )
]

acknowledged-cons :
    (r : Response PushReply) (l : List (Response PushReply))
    → (acknowledged (r ∷ l) ≡ acknowledged (r ∷ []) + acknowledged l)
      × (acknowledged_events (r ∷ l) ≡ acknowledged_events (r ∷ []) + acknowledged_events l)
acknowledged-cons (write_error n c m) l = omega arith
acknowledged-cons (write_json n a) l = omega arith

HasGrown-InRange : (w v : Writer) (m n : ℕ) → HasGrown w v m n → InRange v
HasGrown-InRange w v m n g = record {
  batches = omega (arith, g.batches);
  ingest_events = omega (arith, g.ingest_events);
}

HasGrown-trans :
    (w v u : Writer) (m n i j : ℕ)
    → HasGrown w v m n
    → HasGrown v u i j
    → HasGrown w u (m + i) (n + j)
HasGrown-trans w v u m n i j g k = record {
  batches = omega (arith, g.batches, k.batches);
  ingest_events = omega (arith, g.ingest_events, k.ingest_events);
}

-- After any sequence of pushes, accepted or not, the writer counts as many new batches as pushes were
-- acknowledged, and as many new events as those answers say, each modulo 2^64.
pub serve_all-HasGrown :
    (h : Handler) (pushes : List (ℕ × Request PushBody)) (s : Sinks) (w : Writer)
    → s.writer ≡ some w
    → InRange w
    → (v : Writer) × ((serve_all h pushes s).0.writer ≡ some v)
      × HasGrown w v
          (acknowledged (serve_all h pushes s).1)
          (acknowledged_events (serve_all h pushes s).1)
unfolding serve_all
serve_all-HasGrown h [] s w configured range = (
  w,
  configured,
  record {
    batches = omega (arith, range.batches);
    ingest_events = omega (arith, range.ingest_events);
  },
)
serve_all-HasGrown h ((now, req) ∷ rest) s w configured range =
    let (v, written, first) = serve_push-HasGrown h now req s w configured range in
    let (u, later, more) =
      serve_all-HasGrown h rest (serve_push h now req s).0 v written
        (HasGrown-InRange w v _ _ first) in
    let (sum, sum_events) =
      acknowledged-cons (serve_push h now req s).1
        (serve_all h rest (serve_push h now req s).0).1 in
    (u, later, rw (sum, sum_events) (HasGrown-trans w v u _ _ _ _ first more))
