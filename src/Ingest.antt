-- ===== src/Ingest.antt =====
-- internal/ingest/ingest.go: the push of a telemetry batch by an edge agent.
pub mod Accounting
pub mod Underflow
mod Tests
use mathlib.Core.Bool.{not, ◌&&◌, ◌||◌}
use mathlib.Core.Option
use opa_hub.Prelude.{
  ℕ, String, Bool, true, false, Option, none, some, List, ◌==◌, length, ℤ, pos, nonpos,
  if◌then◌else◌,
}
use opa_hub.Text.{trim_space, lower_equals}
use opa_hub.Http.{Request, Response, write_error, write_json, method_not_allowed, bearer_token}
use opa_hub.Registry.{Registry, mark_push}
use opa_hub.Store.{Writer, record_ingest}

-- The raw `events` of a push: no bytes, a JSON array of raw values, `null`, or any other value.
pub data Events : Type 0 where
  absent : Events
  array : List String → Events
  null : Events
  other : Events

-- The fields of `PushRequest` that the handler reads.
pub record PushRequest : Type 0 where
  pub agent_id : String
  pub kind : String
  pub events : Events
  pub event_count : ℤ

-- A body that was read: its length, and what `json.Unmarshal` makes of it.
pub record PushBody : Type 0 where
  pub size : ℕ
  pub decoded : Option PushRequest

pub record Handler : Type 0 where
  pub enroll_token : String
  pub auth_required : Bool

-- What the handler writes to: `Reg` and `Writer`, each of which may be nil.
pub record Sinks : Type 0 where
  pub registry : Option Registry
  pub writer : Option Writer

pub record PushReply : Type 0 where
  pub agent_id : String
  pub kind : String
  pub event_count : ℤ
  pub table : String
  pub accepted_at : ℕ

-- the token of a push: its own header, or a bearer token, or ""
unfoldable pub enroll_header : (String → String) → String
unfolding bearer_token
enroll_header header =
    let tok = header "X-OPA-Enroll-Token" in
    if tok == ""
    then elim (bearer_token (header "Authorization")) [ none ↦ "" | some bearer ↦ bearer ]
    else tok

-- `enrollOK`
unfoldable pub enroll_ok : Handler → (String → String) → Bool
unfolding enroll_header
enroll_ok h header =
    if h.enroll_token == "" then not h.auth_required else enroll_header header == h.enroll_token

-- `tableForKind`
unfoldable pub table_for_kind : String → String
unfolding trim_space lower_equals
table_for_kind kind =
    let k = trim_space kind in
    if lower_equals k "spans" || lower_equals k "traces"
    then "spans"
    else if lower_equals k "metrics"
    then "metrics"
    else if lower_equals k "logs"
    then "logs"
    else if lower_equals k "profiles"
    then "profiles"
    else "telemetry_raw"

-- the events that a handler counts itself
abbrev pub counted : Events → ℤ → ℤ
counted absent n = n
counted (array items) n = pos (length items)
counted null n = pos 0
counted other n = pos 1

-- the `n` of `ServePush`
unfoldable pub event_total : PushRequest → ℤ
event_total req =
    if nonpos req.event_count then counted req.events req.event_count else req.event_count

abbrev pub kind_or_mixed : String → String
kind_or_mixed kind = if kind == "" then "mixed" else kind

-- the writes and the answer of an accepted push
accept : ℕ → ℕ → PushRequest → Sinks → Sinks × Response PushReply
accept now size req s =
    let kind = kind_or_mixed req.kind in
    let n = event_total req in
    let table = table_for_kind kind in
    let sinks : Sinks = record {
      registry = Option.map (mark_push now req.agent_id) s.registry;
      writer = record_ingest table n (pos size) s.writer;
    } in
    let reply : PushReply = record {
      agent_id = req.agent_id;
      kind = kind;
      event_count = n;
      table = table;
      accepted_at = now;
    } in
    (sinks, write_json 200 reply)

-- what follows once the body is read
push_body : ℕ → PushBody → Sinks → Sinks × Response PushReply
unfolding accept
push_body now body s = elim body.decoded [
  | none ↦ (s, write_error 400 "bad_request" "invalid JSON body")
  | some req ↦
      if trim_space req.agent_id == ""
      then (s, write_error 400 "bad_request" "agent_id required")
      else accept now body.size req s
]

-- `ServePush`; a body past the limit of 32 MiB is `none`
unfoldable pub serve_push : Handler → ℕ → Request PushBody → Sinks → Sinks × Response PushReply
unfolding push_body
serve_push h now req s =
    if not (req.method == "POST")
    then (s, method_not_allowed "POST required")
    else if not (enroll_ok h req.header)
    then (s, write_error 401 "unauthorized" "invalid or missing enroll token")
    else elim req.body [
      | none ↦ (s, write_error 413 "payload_too_large" "request body too large")
      | some body ↦ push_body now body s
    ]
