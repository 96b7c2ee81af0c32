-- ===== src/Query/Errors.antt =====
-- The groups of errors: `ServeErrorsSubpath` and `writeErrorGroupStatus` of internal/query/extras.go. The
-- body of a request is what the decoder leaves in it, zero values where there is none.
pub mod Group
use Prim.Native.String.{◌++◌}
use opa_hub.Prelude.{
  ℕ, String, Bool, true, false, Option, none, some, List, [], ◌∷◌, ◌⊎◌, inl, inr, map, not, ◌==◌,
  ◌&&◌, ◌||◌, eqb, if◌then◌else◌,
}
use opa_hub.Text.{trim_prefix, trim_slash, has_prefix, contains_any, is_slash}
use opa_hub.Text.Split.{split_slash}
use opa_hub.Http.{Request, Response, write_error, write_json, method_not_allowed}
use opa_hub.Query.Sql.{ScopeLib, raw, quoted, tenant_and, Sql}
use opa_hub.Query.Db.{Row, Db, done, query, exec, refuse, with_writer}

pub record Body : Type 0 where
  pub status : String
  pub assigned_to : Option String

-- `json.Unmarshal` of a stack trace into a list, none on an error, and a text as a value
pub record Json (J : Type 0) : Type 0 where
  pub list_of : String → Option (List J)
  pub text_value : String → J

pub record ErrorDetail (J : Type 0) : Type 0 where
  pub group_id : String
  pub error_type : String
  pub error_message : String
  pub service : String
  pub count : ℕ
  pub first_seen : String
  pub last_seen : String
  pub status : String
  pub assigned_to : Option String
  pub stack_trace : List J
  pub related_traces : List (String × String)
  pub trends : List (String × ℕ)

-- the values that the handler answers with
pub data Reply (J : Type 0) : Type 0 where
  detail : ErrorDetail J → Reply J
  group : String → String → Reply J

-- `asStringPtr`
abbrev pub optional : String → Option String
optional s = if s == "" then none else some s

abbrev pub is_status : String → Bool
is_status s = s == "unresolved" || s == "resolved" || s == "ignored"

abbrev given : Option Body → Body
given none = record { status = ""; assigned_to = none }
given (some b) = b

module _ {F : Type 0} where
  abbrev pub seed_sql : String → Sql F
  seed_sql id =
      raw "SELECT status, assigned_to FROM opa.error_group_status FINAL\n\t\tWHERE group_id = "
      ∷ quoted id
      ∷ tenant_and ""
      ∷ raw " LIMIT 1"
      ∷ []

  -- the value of an assignment in a statement
  abbrev assigned_value : Option String → Sql F → Sql F
  assigned_value none rest = raw "NULL" ∷ rest
  assigned_value (some a) rest = quoted a ∷ rest

  abbrev pub group_sql : String × String → String → String → Option String → Sql F
  group_sql (org, proj) id status assigned =
      raw
        "INSERT INTO opa.error_group_status (organization_id, project_id, group_id, status, assigned_to, updated_at)\n\t\tVALUES ("
      ∷ quoted org
      ∷ raw ","
      ∷ quoted proj
      ∷ raw ","
      ∷ quoted id
      ∷ raw ","
      ∷ quoted status
      ∷ raw ","
      ∷ assigned_value assigned (raw ", now64(3))" ∷ [])

  -- the condition on the group of an error
  abbrev of_group : String → Sql F → Sql F
  of_group id rest = raw "group_id = " ∷ quoted id ∷ tenant_and "" ∷ rest

  abbrev pub detail_sql : String → Sql F
  detail_sql id =
      raw
        "SELECT\n\t\tany(error_type) as error_type,\n\t\tany(error_message) as error_message,\n\t\tany(service) as service,\n\t\tcount() as count,\n\t\tmin(occurred_at) as first_seen,\n\t\tmax(occurred_at) as last_seen\n\t\tFROM opa.error_instances WHERE "
      ∷ of_group id []

  abbrev pub stack_sql : String → Sql F
  stack_sql id =
      raw "SELECT stack_trace FROM opa.error_instances\n\t\tWHERE "
      ∷ of_group id (raw " AND stack_trace != '' LIMIT 1" ∷ [])

  abbrev pub traces_sql : String → Sql F
  traces_sql id =
      raw "SELECT trace_id, max(occurred_at) as occurred_at\n\t\tFROM opa.error_instances WHERE "
      ∷ of_group id
          (raw " AND trace_id != ''\n\t\tGROUP BY trace_id ORDER BY occurred_at DESC LIMIT 10" ∷ [])

  abbrev pub trends_sql : String → Sql F
  trends_sql id =
      raw
        "SELECT\n\t\ttoStartOfHour(occurred_at) as time, count() as count\n\t\tFROM opa.error_instances WHERE "
      ∷ of_group id
          (raw " AND occurred_at >= now() - INTERVAL 7 DAY\n\t\tGROUP BY time ORDER BY time" ∷ [])

  -- the status and the assignment that an answer reports
  abbrev pub current : String ⊎ List (Row F) → String × Option String
  current (inl e) = ("unresolved", none)
  current (inr []) = ("unresolved", none)
  current (inr (row ∷ rows)) = (
    if row.text "status" == "" then "unresolved" else row.text "status",
    optional (row.text "assigned_to"),
  )

  -- the rows of an answer whose error is passed over
  abbrev rows_of : String ⊎ List (Row F) → List (Row F)
  rows_of (inl e) = []
  rows_of (inr rows) = rows

abbrev pub or_current : Option String → Option String → Option String
or_current none before = before
or_current (some a) before = some a

pub told : {J : Type 0} → String → String → Option String → Response (Reply J)
told id status none = write_json 200 (group id status)
told id status (some e) = write_error 500 "query_error" e

stack_values : {J : Type 0} → Json J → String → Option (List J) → List J
stack_values json s none = json.text_value s ∷ []
stack_values json s (some xs) = xs

module _ {F J : Type 0} (json : Json J) where
  -- `writeErrorGroupStatus`
  unfoldable pub write_error_group_status :
      ScopeLib F → String → String → Option String → Db F (Response (Reply J))
  unfolding told
  write_error_group_status l id status assigned = query (seed_sql id) (λ r.
      let (cur_status, cur_assigned) = current r in
      let new_status = if status == "" then cur_status else status in
      exec (group_sql l.write_tenant id new_status (or_current assigned cur_assigned))
        (λ w. done (told id new_status w)))

  -- the change of a group
  group_action : ScopeLib F → String → String → Body → Db F (Response (Reply J))
  unfolding write_error_group_status
  group_action l id action body =
      if action == "status"
      then (if is_status body.status
          then write_error_group_status l id body.status none
          else refuse 400 "bad_request" "invalid status")
      else if action == "assign"
      then write_error_group_status l id "" body.assigned_to
      else refuse 400 "bad_request" "unknown action"

  at_parts : ScopeLib F → List String → Body → Db F (Response (Reply J))
  unfolding group_action
  at_parts l (groups ∷ id ∷ action ∷ rest) body =
      if id == ""
      then refuse 400 "bad_request" "group id and action required"
      else group_action l id action body
  at_parts l (groups ∷ id ∷ []) body = refuse 400 "bad_request" "group id and action required"
  at_parts l (groups ∷ []) body = refuse 400 "bad_request" "group id and action required"
  at_parts l [] body = refuse 400 "bad_request" "group id and action required"

  stack_of : List (Row F) → List J
  unfolding stack_values
  stack_of [] = []
  stack_of (row ∷ rows) =
      let s = row.text "stack_trace" in if s == "" then [] else stack_values json s (json.list_of s)

  -- the detail of a row with the answers behind it
  abbrev detail_of :
      String
      → Row F
      → String ⊎ List (Row F)
      → String ⊎ List (Row F)
      → String ⊎ List (Row F)
      → String ⊎ List (Row F)
      → ErrorDetail J
  detail_of id row stack traces trends seed = record {
    group_id = id;
    error_type = row.text "error_type";
    error_message = row.text "error_message";
    service = row.text "service";
    count = row.uint "count";
    first_seen = row.text "first_seen";
    last_seen = row.text "last_seen";
    status = (current seed).0;
    assigned_to = (current seed).1;
    stack_trace = stack_of (rows_of stack);
    related_traces = map (λ t. (t.text "trace_id", t.text "occurred_at")) (rows_of traces);
    trends = map (λ t. (t.text "time", t.uint "count")) (rows_of trends);
  }

  found : String → String ⊎ List (Row F) → Db F (Response (Reply J))
  unfolding stack_of
  found id (inl e) = refuse 500 "query_error" e
  found id (inr []) = refuse 404 "not_found" "error not found"
  found id (inr (row ∷ rows)) =
      if eqb (row.uint "count") 0
      then refuse 404 "not_found" "error not found"
      else query (stack_sql id) (λ stack. query (traces_sql id) (λ traces.
        query (trends_sql id) (λ trends.
          query (seed_sql id)
            (λ seed. done (write_json 200 (detail (detail_of id row stack traces trends seed)))))))

  -- `ServeErrorsSubpath`
  unfoldable pub serve_errors_subpath : Bool → ScopeLib F → Request Body → Db F (Response (Reply J))
  unfolding at_parts found split_slash trim_slash trim_prefix has_prefix contains_any
  serve_errors_subpath writer l req =
      let rest = trim_slash (trim_prefix req.path "/api/errors/") in
      with_writer writer (
        if rest == ""
        then refuse 400 "bad_request" "error id required"
        else if has_prefix rest "groups/"
        then (if req.method == "POST"
            then at_parts l (split_slash rest) (given req.body)
            else done (method_not_allowed "POST required"))
        else if not (req.method == "GET")
        then done (method_not_allowed "GET required")
        else if contains_any is_slash rest
        then refuse 400 "bad_request" "error id required"
        else query (detail_sql rest) (found rest))
