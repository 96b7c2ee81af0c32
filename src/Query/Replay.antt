-- ===== src/Query/Replay.antt =====
-- The timeline of a session's replay: `ServeRUMReplayTimeline` of internal/query/rum_replay.go, with
-- `mapReplayEvent` and the readers that it calls. A decoded event is a function of its keys; its values,
-- floating-point numbers, JSON and the package `time` are parameters.
pub mod Order
use Prim.Native.Char.{code}
use Prim.Native.String.{◌++◌}
use opa_hub.Prelude.{
  ℕ, zero, suc, ◌+◌, ◌-◌, ◌^◌, String, Bool, true, false, Option, none, some, ℤ, pos, negsuc, List,
  [], ◌∷◌, ◌⊎◌, inl, inr, map, ◌==◌, ◌||◌, eqb, ltb, length, if◌then◌else◌,
}
use opa_hub.Prelude.Assoc.{lookup, insert}
use opa_hub.Text.{trim_prefix, trim_slash, contains_any, is_slash}
use opa_hub.Http.{Request, Response, write_json, method_not_allowed}
use opa_hub.Query.Sql.{raw, quoted, tenant_and, Sql}
use opa_hub.Query.Db.{Row, Db, done, query, refuse, with_writer}
use opa_hub.Sort.Stable.{stable_sort}

-- What the handler reads with packages outside the repository.
pub record Outside (V F : Type 0) : Type 0 where
  -- the text of a string, or `fmt.Sprint` of another value
  pub text : V → String
  -- the float64 of a number or of the text of a value, none where it cannot be parsed
  pub float : V → Option F
  -- the int64 of a number or of a text, zero of another value
  pub time_ms : V → ℤ
  -- the conversion of a float64 to an integer, and zero
  pub to_int : F → ℤ
  pub zero_value : F
  -- `json.Unmarshal(raw, &parsed)` into what `parsed` was before: whether it decodes, and what is left
  pub events : String → List (String → Option V) → Bool × List (String → Option V)
  -- `json.Unmarshal` into a string, none on an error
  pub wrapped : String → Option String
  -- `time.Parse(layout, s)` with `UnixMilli`, none on an error
  pub parse_ms : String → String → Option ℤ

pub record ReplayEvent (V F : Type 0) : Type 0 where
  pub t : ℤ
  pub kind : String
  pub target : String
  pub value : String
  pub mutation : String
  pub added : ℤ
  pub removed : ℤ
  pub url : String
  pub title : String
  pub name : String
  pub duration_ms : F
  pub transfer_size : ℤ
  pub method : String
  pub status : ℤ
  pub text_content : String
  pub inner_html : String
  pub chunk : ℤ
  pub raw_event : String → Option V

-- `int(x)` of a uint64: two's complement
abbrev pub int_of : ℕ → ℤ
int_of n = if ltb n (2 ^ 63) then pos n else negsuc (2 ^ 64 - n - 1)

-- an integer as a difference of natural numbers, and the comparisons of integers
abbrev pub up : ℤ → ℕ
up (pos n) = n
up (negsuc n) = 0

abbrev pub down : ℤ → ℕ
down (pos n) = 0
down (negsuc n) = suc n

abbrev pub int_eq : ℤ → ℤ → Bool
int_eq a b = eqb (up a + down b) (up b + down a)

abbrev pub int_lt : ℤ → ℤ → Bool
int_lt a b = ltb (up a + down b) (up b + down a)

abbrev pub int_or : ℤ → ℤ → ℤ
int_or a b = if int_eq a (pos 0) then b else a

-- the order of the timeline: by time, then by chunk
unfoldable pub earlier : {V F : Type 0} → ReplayEvent V F → ReplayEvent V F → Bool
earlier e f = if int_eq e.t f.t then int_lt e.chunk f.chunk else int_lt e.t f.t

-- the counts by type
unfoldable pub by_type :
    {V F : Type 0} → List (ReplayEvent V F) → List (String × ℕ) → List (String × ℕ)
unfolding lookup insert
by_type [] counts = counts
by_type (e ∷ events) counts =
    by_type events
      (insert e.kind (suc (elim (lookup e.kind counts) [ none ↦ 0 | some n ↦ n ])) counts)

abbrev layouts : List String
layouts =
    "2006-01-02 15:04:05.000" ∷ "2006-01-02 15:04:05" ∷ "2006-01-02T15:04:05.999999999Z07:00"
    ∷ "2006-01-02T15:04:05Z07:00" ∷ []

module _ {V F : Type 0} (o : Outside V F) where
  -- `strFromMap`
  unfoldable pub str_from_map : (String → Option V) → List String → String
  str_from_map m [] = ""
  str_from_map m (k ∷ keys) =
      let later = str_from_map m keys in elim (m k) [ none ↦ later | some v ↦ o.text v ]

  -- `asMapFloat`
  abbrev pub as_map_float : (String → Option V) → String → Option F
  as_map_float m key = elim (m key) [ none ↦ none | some v ↦ o.float v ]

  -- a float of a key as an integer, zero where there is none
  abbrev int_at : (String → Option V) → String → ℤ
  int_at m key = elim (as_map_float m key) [ none ↦ pos 0 | some x ↦ o.to_int x ]

  abbrev float_or : Option F → F → F
  float_or none x = x
  float_or (some y) x = y

  -- `mapTimeMs` of a key
  abbrev time_at : (String → Option V) → String → ℤ
  time_at m key = elim (m key) [ none ↦ pos 0 | some v ↦ o.time_ms v ]

  -- `mapReplayEvent`
  unfoldable pub map_replay_event : (String → Option V) → ℤ → ℤ → ReplayEvent V F
  unfolding str_from_map
  map_replay_event m chunk_idx fallback_ms =
      let kind = str_from_map m ("type" ∷ []) in
      record {
        t = int_or (time_at m "t") fallback_ms;
        kind = if kind == "navigate" then "navigation" else kind;
        target = str_from_map m ("target" ∷ []);
        value = str_from_map m ("value" ∷ []);
        mutation = str_from_map m ("mutation" ∷ []);
        added = int_at m "added";
        removed = int_at m "removed";
        url = str_from_map m ("url" ∷ []);
        title = str_from_map m ("title" ∷ []);
        name = str_from_map m ("name" ∷ []);
        duration_ms =
            float_or (as_map_float m "duration_ms")
              (float_or (as_map_float m "duration") o.zero_value);
        transfer_size = int_at m "transfer_size";
        method = str_from_map m ("method" ∷ []);
        status = int_at m "status";
        text_content = str_from_map m ("textContent" ∷ "text_content" ∷ []);
        inner_html = str_from_map m ("innerHTML" ∷ "inner_html" ∷ []);
        chunk = chunk_idx;
        raw_event = m;
      }

  unwrapped : List (String → Option V) → Option String → List (String → Option V)
  unwrapped parsed none = parsed
  unwrapped parsed (some s) = if s == "" then parsed else (o.events s parsed).1

  -- `parseReplayEventsJSON`
  unfoldable pub parse_replay_events_json : String → List (String → Option V)
  unfolding unwrapped
  parse_replay_events_json text =
      let (decodes, parsed) = o.events text [] in
      if text == "" then [] else if decodes then parsed else unwrapped parsed (o.wrapped text)

  first_ms : List String → String → ℤ
  first_ms [] at = pos 0
  first_ms (layout ∷ rest) at =
      let later = first_ms rest at in elim (o.parse_ms layout at) [ none ↦ later | some n ↦ n ]

  -- `parseOccurredAtMs`
  unfoldable pub parse_occurred_at_ms : String → ℤ
  unfolding first_ms
  parse_occurred_at_ms at = if at == "" then pos 0 else first_ms layouts at

  -- the events of a chunk before those that follow
  abbrev chunk_events :
      Row F → List (String → Option V) → List (ReplayEvent V F) → List (ReplayEvent V F)
  chunk_events row [] rest = rest
  chunk_events row (m ∷ parsed) rest =
      map_replay_event m (int_of (row.uint "chunk_index"))
        (parse_occurred_at_ms (row.text "occurred_at"))
      ∷ chunk_events row parsed rest

  -- the events of every chunk, in the order of the rows
  unfoldable pub events_of : List (Row F) → List (ReplayEvent V F)
  unfolding parse_replay_events_json parse_occurred_at_ms map_replay_event
  events_of [] = []
  events_of (row ∷ rows) =
      chunk_events row (parse_replay_events_json (row.text "events")) (events_of rows)

  -- the timeline of the rows
  unfoldable pub timeline : List (Row F) → List (ReplayEvent V F)
  unfolding events_of stable_sort earlier
  timeline rows = stable_sort earlier (events_of rows)

-- The answer of the timeline, less its constant texts.
pub record Timeline (V F : Type 0) : Type 0 where
  pub session_id : String
  pub event_count : ℕ
  pub events : List (ReplayEvent V F)
  pub chunk_count : ℕ
  pub types : List (String × ℕ)

abbrev pub timeline_sql : {F : Type 0} → String → Sql F
timeline_sql session_id =
    raw
      "SELECT chunk_index, events, masked, occurred_at\n\t\tFROM opa.rum_replay_chunks WHERE session_id = "
    ∷ quoted session_id
    ∷ tenant_and ""
    ∷ raw " ORDER BY chunk_index ASC LIMIT 500"
    ∷ []

-- `pathTail`
unfoldable pub path_tail : String → String → String
unfolding trim_slash trim_prefix
path_tail path prefix = trim_slash (trim_prefix path prefix)

module _ {V F : Type 0} (o : Outside V F) where
  -- the answer for rows, and the empty one where the query fails
  unfoldable pub answered : String → String ⊎ List (Row F) → Timeline V F
  unfolding timeline by_type
  answered session_id (inl e) = record {
    session_id = session_id;
    event_count = 0;
    events = [];
    chunk_count = 0;
    types = [];
  }
  answered session_id (inr rows) = record {
    session_id = session_id;
    event_count = length (timeline o rows);
    events = timeline o rows;
    chunk_count = length rows;
    types = by_type (timeline o rows) [];
  }

  -- `ServeRUMReplayTimeline`
  unfoldable pub serve_rum_replay_timeline : Bool → Request Unit → Db F (Response (Timeline V F))
  unfolding answered path_tail contains_any
  serve_rum_replay_timeline writer req =
      let session_id = path_tail req.path "/api/rum/replay-timeline/" in
      if req.method == "GET"
      then with_writer writer (
          if session_id == "" || contains_any is_slash session_id
          then refuse 400 "bad_request" "session id required"
          else query (timeline_sql session_id) (λ r. done (write_json 200 (answered session_id r))))
      else done (method_not_allowed "GET required")
