-- ===== src/Lib.antt =====
-- OPA-Hub: the control plane that edge agents enroll with and push telemetry to, and that the
-- dashboard and the peers read through an authenticated HTTP API.
--
-- The parts, and how they interact:
--   * Registry (internal/registry/registry.go): the agents in memory. Registry.antt has the state and
--     the methods (Register, Heartbeat, MarkPush, Get, List, Count); Registry/Scope the tenant scope
--     (ListScoped, agentInScope, projectIDAllowSet); Registry/Organizations the tally by organization;
--     Registry/Handler the HTTP handlers. A map is an association list, whose order is the order in
--     which Go happens to iterate; sort.Slice and sort.Strings are the insertion sort of Sort.
--   * Store (internal/store/clickhouse.go): the counters of the ClickHouse writer.
--   * Ingest (internal/ingest/ingest.go): ServePush, which writes to the store and to the registry.
--   * Auth (internal/auth): Auth.antt tokens and claims, Auth/Gate the wrappers of middleware.go,
--     Auth/Accounts the handlers of auth.go.
--   * Server (internal/server): Server/Routes the table of the routes with their wrappers, Server/Mux
--     the multiplexer, which hands a request to the wrapper and the handler of one route,
--     Server/Tenancy the handlers of tenancy.go, which join the directory with the registry.
--   * Query (internal/query): Query/Tiers the table of metric tiers and the choice of a tier and a step
--     (metrics_tiers.go), Query/Facets the value counts of a facet (explore_facets.go), Query/Numbers
--     the numbers in parameters (platform_ops.go), Query/Intervals the tokens of helpers.go.
--     Query/Times reads the times in parameters (helpers.go, query.go). Query/Replay is the timeline
--     of a session (rum_replay.go), sorted by the stable sort of Sort/Stable. Query/Errors is the
--     detail and the status of a group of errors (extras.go). Query/ServiceMap is the map of the
--     services (service_map.go, service_map_external.go), and Query/Traces the lists and the details
--     of traces (traces.go), in which a span is a map of texts to values. Query/Alerts, Query/Slos,
--     Query/Synthetics and Query/Diagnostics are the handlers of alerts.go, slos.go, synthetics.go and
--     diagnostics.go with every statement that they send. Such a statement is a list of pieces
--     (Query/Sql): code, values that are escaped between quotes, numbers, and the conditions of a
--     tenant. Query/Sql/Literals reads a text the way ClickHouse takes it apart into code and
--     literals, Query/Sql/Spelled says that its code is made of a vocabulary of the program, and
--     Query/Sql/Inserted reads the columns and the values of an INSERT. A handler is a tree of its
--     statements with a branch for every answer (Query/Db), so that a theorem about every statement
--     holds whatever ClickHouse answers.
--   * Directory (internal/oamdir/oamdir.go): the cache of the organizations that OAM knows.
--   * Config (internal/config/config.go): the settings of an environment.
--   * Prelude, Text, Sort, Http and Tenant are shared: tests, lists, association lists and signed
--     numbers; the functions of Go's strings package; requests and responses; the tenant context.
--
-- Numbers: a time is a natural number of nanoseconds, a uint64 is a natural number that every
-- addition reduces modulo 2^64, an int that can be negative is a ℤ, and a conversion of it to uint64
-- wraps. A text is a sequence of code points. Every loop of the source is structural recursion, except
-- for two on fuel: the decimal text of a number, where 20 digits are enough for a uint64, and the wait
-- for the delivery of an alert's test, where 31 turns of 400 ms are enough for its 12 seconds. A
-- mutex makes each method one step, and a history is a list of steps.
--
-- The packages open-auth-go, open-tenant-go and open-http-go are not in the repository. What the hub
-- uses of the first two are the records AuthLib (Auth.antt) and TenantLib (Tenant.antt), which the
-- definitions take as parameters; Enforces is the one documented property of a TenantLib that a
-- theorem assumes. An HTTP error of the third is the constructor write_error. Where statements are
-- sent, the conditions of a tenant and the escape of a value are the record ScopeLib (Query/Sql.antt);
-- Escapes (Query/Sql/Literals.antt) says that an escaped value ends in the literal that it began in,
-- and Query/Sql/Sample.antt shows that doubling quotes and backslashes does.
--
-- What the shared cache and the peer return to the directory is an argument of each call.
--
-- Floating-point numbers, configurations in JSON, SHA-1, the formats of times and sort.Slice are
-- parameters of the handlers that use them. So is what the readers of untyped values make of one:
-- asString, asUint64 and asFloat64 of a column (Row in Query/Db.antt), mapString, mapFloat and mapUint
-- of a body (Body in Query/Slos.antt), and the conversions of a replay's value (Query/Replay.antt).
--
-- Not modelled: the other handlers of internal/query, which build SQL for ClickHouse; the duration and
-- the AuthMode of internal/config; the HTTP proxies of internal/auth and internal/server; encoding and
-- decoding of JSON, whose result is an argument; and the client of ClickHouse.
mod Prelude
pub mod Text
pub mod Sort
pub mod Http
pub mod Tenant
pub mod Registry
pub mod Store
pub mod Ingest
pub mod Auth
pub mod Query
pub mod Directory
pub mod Config
pub mod Server
