-- ===== src/Query/Maps.antt =====
-- The service map and the traces at concrete inputs.
use opa_hub.Prelude.{
  ℕ, ◌+◌, ◌-◌, ◌*◌, ◌/◌, String, Bool, true, false, ◌≡◌, ◌≢◌, refl, none, List, [], ◌∷◌, ◌⊎◌, inl,
  inr, ◌==◌, ltb, leb, not, eqb, eq_iff, arith, if◌then◌else◌,
}
use opa_hub.Prelude.Assoc.{Distinct}
use opa_hub.Text.{contains_any}
use opa_hub.Http.{Request}
use opa_hub.Query.Numbers.{decimal}
use opa_hub.Query.Sql.Spelled.{IsSpelled}
use opa_hub.Query.Sql.Sample.{tenant_scope, tenant_scope-Escapes}
use opa_hub.Query.Db.{Row, Every, Results}
use opa_hub.Query.Times.{TimeLib, is_expression, safe_time_literal, unescaped}
use opa_hub.Query.Times.Parts.{bound_literal}
use opa_hub.Query.ServiceMap.{Arith}
use opa_hub.Query.ServiceMap.External.{wrapped, db_dep, http_dep, redis_dep, cache_dep, merged}
use opa_hub.Query.ServiceMap.External.Merge.{calls_at, seen, merged-calls_at}
use opa_hub.Query.ServiceMap.Targets.{parse_http_target}
use opa_hub.Query.ServiceMap.Targets.Address.{has_char, address, parse_http_target-address}
use opa_hub.Query.ServiceMap.Handler.{serve_service_map}
use opa_hub.Query.ServiceMap.Handler.Answers.{IsMap, serve_service_map-IsMap}
use opa_hub.Query.ServiceMap.Handler.Texts.{serve_service_map-IsSpelled}
use opa_hub.Query.ServiceMap.Handler.Words.{map_words}
use opa_hub.Query.Traces
use opa_hub.Query.Traces.Handler.{serve_traces, serve_traces_subpath, with_spans}
use opa_hub.Query.Traces.Texts.{IsSafe, serve_traces-IsSafe, serve_traces_subpath-IsSafe}
use opa_hub.Query.Traces.Kept.{ForPayloads, Shows, with_spans-Shows}

-- natural numbers stand in for floating-point numbers
abbrev whole : Arith ℕ
whole = record {
  of_uint = λ n. n;
  plus = λ m n. m + n;
  minus = λ m n. m - n;
  times = λ m n. m * n;
  over = λ m n. m / n;
  at_least = λ m n. leb n m;
  above = λ m n. ltb n m;
}

abbrev nonzero : ℕ → Bool
nonzero n = not (eqb n 0)

-- no time parses
abbrev no_times : TimeLib ℕ
no_times = record {
  parse = λ layout s. none;
  unix_milli = λ n. 0;
  unix = λ n. 0;
  format = λ t. "1970-01-01 00:00:00";
  query_unescape = λ s. none;
}

-- a time with a quote and a service with one
abbrev map_request : Request Unit
map_request = record {
  method = "GET";
  path = "/api/traces/t1/full";
  header = λ k. "";
  query = λ k.
      if k == "from"
      then "2026-01-01"
      else if k == "to"
      then "2026' OR 1=1"
      else if k == "service"
      then "o'brien"
      else "";
  body = none;
}

serve_service_map-IsMap_example :
    Results IsMap (serve_service_map whole nonzero no_times tenant_scope true map_request)
serve_service_map-IsMap_example =
    serve_service_map-IsMap whole nonzero no_times tenant_scope map_request refl

plain_from : is_expression (bound_literal no_times "2026-01-01") ≡ false
unfolding is_expression safe_time_literal unescaped
plain_from = refl

plain_to : is_expression (bound_literal no_times "2026' OR 1=1") ≡ false
unfolding is_expression safe_time_literal unescaped
plain_to = refl

serve_service_map-IsSpelled_example :
    Every
      (IsSpelled tenant_scope map_words)
      (serve_service_map whole nonzero no_times tenant_scope true map_request)
serve_service_map-IsSpelled_example =
    serve_service_map-IsSpelled whole nonzero no_times tenant_scope tenant_scope-Escapes true
      map_request plain_from plain_to

-- calls of a service to a database
abbrev db_row : ℕ → Row ℕ
db_row n = record {
  text = λ k.
      if k == "service"
      then "api"
      else if k == "db_system"
      then "mysql"
      else if k == "db_host"
      then "db1"
      else "";
  uint = λ k. if k == "call_count" then n else 0;
  float = λ k. n;
}

abbrev db_rows : String ⊎ List (Row ℕ)
db_rows = inr (db_row 2 ∷ db_row 0 ∷ db_row 3 ∷ [])

abbrev failed : String ⊎ List (Row ℕ)
failed = inl "timeout"

abbrev no_rows : String ⊎ List (Row ℕ)
no_rows = inr []

five_calls : calls_at "api->mysql://db1|database" (merged whole db_rows failed no_rows no_rows) ≡ 5
unfolding calls_at merged
five_calls = refl

merged-calls_at_example :
    Distinct (merged whole db_rows failed no_rows no_rows)
    × ((key : String)
        → wrapped (calls_at key (merged whole db_rows failed no_rows no_rows))
          ≡ wrapped (
              seen db_dep key db_rows
              + (seen http_dep key failed
                  + (seen redis_dep key no_rows + seen cache_dep key no_rows))))
merged-calls_at_example = merged-calls_at whole db_rows failed no_rows no_rows

no_slash : has_char b'/' "[::1]" ≡ false
unfolding contains_any
no_slash = refl

plain_port :
    (has_char b'/' "8443" ≡ false) × (has_char b':' "8443" ≡ false) × (has_char b']' "8443" ≡ false)
unfolding contains_any
plain_port = (refl, refl, refl)

abbrev loopback : String
loopback = "[::1]"

loopback_ne_nil : loopback ≢ ""
loopback_ne_nil e = ground (arith, eq_iff loopback "")

parse_http_target-address_example :
    parse_http_target (address ("[::1]", "8443", "https")) ≡ ("[::1]", "8443", "https")
parse_http_target-address_example =
    parse_http_target-address "[::1]" "8443" "https" (inr refl) loopback_ne_nil no_slash
      plain_port.0 plain_port.1 plain_port.2

-- stored values of JSON are their texts
abbrev texts : Traces.Handler.Values ℕ String
texts = record {
  zero_value = 0;
  sprint = decimal;
  above = λ m n. ltb n m;
  nil = "";
  decoded = λ s. s;
}

plain_since : is_expression (safe_time_literal no_times "2026-01-01") ≡ false
unfolding is_expression safe_time_literal
plain_since = refl

plain_until : is_expression (safe_time_literal no_times "2026' OR 1=1") ≡ false
unfolding is_expression safe_time_literal
plain_until = refl

serve_traces-IsSafe_example :
    Every (IsSafe tenant_scope) (serve_traces texts no_times true map_request)
serve_traces-IsSafe_example =
    serve_traces-IsSafe texts no_times tenant_scope tenant_scope-Escapes true map_request
      plain_since plain_until

serve_traces_subpath-IsSafe_example :
    Every (IsSafe tenant_scope) (serve_traces_subpath texts no_times true map_request)
serve_traces_subpath-IsSafe_example =
    serve_traces_subpath-IsSafe texts no_times tenant_scope tenant_scope-Escapes true map_request

with_spans-Shows_example :
    ForPayloads
      (Shows (db_row 1 ∷ db_row 2 ∷ []))
      (with_spans texts no_times "t1" true (inr (db_row 1 ∷ db_row 2 ∷ [])))
with_spans-Shows_example = with_spans-Shows texts no_times "t1" true (db_row 1 ∷ db_row 2 ∷ [])
