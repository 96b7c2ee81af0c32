-- ===== src/Query/ServiceMap/Targets.antt =====
-- What a call goes to: `parseHTTPTarget`, `defaultDBPort` and the cutting of addresses in
-- `appendExternalDependencyEdges` of internal/query/service_map_external.go.
pub mod Address
use Prim.Native.Char.{code}
use Prim.Native.String.{◌++◌}
use opa_hub.Prelude.{
  String, Bool, true, false, Option, none, some, List, [], ◌∷◌, ◌==◌, ◌&&◌, ◌||◌, not, eqb,
  if◌then◌else◌,
}
use opa_hub.Text.{has_prefix, trim_prefix, lower_equals, contains_any}
use opa_hub.Text.Split.{split_slash}

-- `defaultDBPort`
unfoldable pub default_db_port : String → String
unfolding lower_equals
default_db_port sys =
    if lower_equals sys "mysql" || lower_equals sys "mariadb"
    then "3306"
    else if lower_equals sys "postgres" || lower_equals sys "postgresql"
    then "5432"
    else if lower_equals sys "mongodb" || lower_equals sys "mongo"
    then "27017"
    else if lower_equals sys "mssql" || lower_equals sys "sqlserver"
    then "1433"
    else if lower_equals sys "clickhouse"
    then "9000"
    else ""

abbrev pub head_or_nil : List String → String
head_or_nil [] = ""
head_or_nil (w ∷ ws) = w

-- `strings.Split(s, "/")[0]`
unfoldable pub before_slash : String → String
unfolding split_slash
before_slash s = head_or_nil (split_slash s)

-- what stands before and behind the last colon, none where there is no colon
unfoldable pub last_colon : String → Option (String × String)
last_colon String.[] = none
last_colon (String.◌∷◌ c s) =
    let later = last_colon s in
    elim later [
      | none ↦ if eqb (code c) b':' then some ("", s) else none
      | some (before, behind) ↦ some (String.◌∷◌ c before, behind)
    ]

abbrev is_bracket : String → Bool
is_bracket s = contains_any (λ c. eqb c b']') s

-- a host with its port, the default one where it names none
unfoldable pub host_port : String → String → Option (String × String) → String × String × String
unfolding contains_any
host_port scheme whole none = (whole, if scheme == "https" then "443" else "80", scheme)
host_port scheme whole (some (before, behind)) =
    if not (before == "") && not (is_bracket behind)
    then (before, behind, scheme)
    else (whole, if scheme == "https" then "443" else "80", scheme)

abbrev pub at_host : String → String → String × String × String
at_host scheme rest = host_port scheme (before_slash rest) (last_colon (before_slash rest))

-- `parseHTTPTarget`: the host, the port and the scheme
unfoldable pub parse_http_target : String → String × String × String
unfolding has_prefix trim_prefix host_port before_slash last_colon
parse_http_target url =
    if has_prefix url "https://"
    then at_host "https" (trim_prefix url "https://")
    else if has_prefix url "http://"
    then at_host "http" (trim_prefix url "http://")
    else at_host "http" url

-- an address without its path
unfoldable pub base_url : String → String
unfolding has_prefix trim_prefix before_slash
base_url url =
    if has_prefix url "http://" || has_prefix url "https://"
    then (if has_prefix url "https://" then "https" else "http")
      ++ ("://" ++ before_slash (trim_prefix (trim_prefix url "https://") "http://"))
    else url

-- an address of the service itself
unfoldable pub is_own : String → String → Bool
unfolding has_prefix
is_own from url = url == from || has_prefix url (from ++ ":") || has_prefix url (from ++ "/")

-- the kind of a node by its name
unfoldable pub target_kind : String → String
unfolding has_prefix
target_kind name =
    if has_prefix name "db:"
    then "database"
    else if has_prefix name "http://" || has_prefix name "https://"
    then "http"
    else if has_prefix name "redis://" || name == "redis"
    then "redis"
    else if has_prefix name "cache:" || has_prefix name "cache://"
    then "cache"
    else "external"
