-- ===== src/Server/Routes.antt =====
-- The routes of internal/server/server.go and internal/server/tenancy.go, in the order in which they
-- are registered: the pattern, the wrapper around the handler, and the handler.
use opa_hub.Prelude.{String, List, [], ◌∷◌, ◌++◌}

-- the wrapper of a route
pub data Guard : Type 0 where
  unguarded : Guard
  read_write : Guard
  at_least : String → Guard
  user_or_service : String → String → Guard

pub record Route : Type 0 where
  pub pattern : String
  pub guard : Guard
  pub handler : String

abbrev route : String → Guard → String → Route
route pattern guard handler = record { pattern = pattern; guard = guard; handler = handler }

-- health, agents, ingest and sign-in
abbrev pub core_routes : List Route
core_routes =
    route "/api/health" unguarded "s.handleHealth"
    ∷ route "/api/agents/register" unguarded "regH.ServeRegister"
    ∷ route "/api/agents/heartbeat" unguarded "regH.ServeHeartbeat"
    ∷ route "/api/agents" read_write "regH.ServeList"
    ∷ route "/api/agents/" read_write "regH.ServeGet"
    ∷ route "/api/ingest/push" unguarded "ingH.ServePush"
    ∷ route "/api/auth/login" unguarded "authH.ServeLogin"
    ∷ route "/api/auth/register" unguarded "authH.ServeRegister"
    ∷ route "/api/auth/logout" unguarded "authH.ServeLogout"
    ∷ route "/api/auth/status" unguarded "authH.ServeStatus"
    ∷ route "/api/query" read_write "queryH.ServeQueryRoot"
    ∷ []

-- the dashboard's queries
abbrev pub dashboard_routes : List Route
dashboard_routes =
    route "/api/admin" (at_least "admin") "queryH.ServeAdmin"
    ∷ route "/api/services/metadata" read_write "queryH.ServeServicesMetadata"
    ∷ route "/api/services/" read_write "queryH.ServeServicesSubpath"
    ∷ route "/api/services" read_write "queryH.ServeServices"
    ∷ route "/api/traces/" read_write "queryH.ServeTracesSubpath"
    ∷ route "/api/traces" read_write "queryH.ServeTraces"
    ∷ route "/api/explore/facets" read_write "queryH.ServeExploreFacets"
    ∷ route "/api/sql/queries/" read_write "queryH.ServeSQLQueriesSubpath"
    ∷ route "/api/sql/queries" read_write "queryH.ServeSQLQueries"
    ∷ route "/api/redis/operations" read_write "queryH.ServeRedisOperations"
    ∷ route "/api/http-calls" read_write "queryH.ServeHTTPCalls"
    ∷ route "/api/dumps" read_write "queryH.ServeDumps"
    ∷ route "/api/stats" read_write "queryH.ServeStats"
    ∷ route "/api/commands" read_write "queryH.ServeCommands"
    ∷ route "/api/key-transactions" read_write "queryH.ServeKeyTransactions"
    ∷ route "/api/infra/hosts" read_write "queryH.ServeInfraHosts"
    ∷ route "/api/metrics/names" read_write "queryH.ServeMetricNames"
    ∷ route "/api/metrics/labels" read_write "queryH.ServeMetricLabels"
    ∷ route "/api/metrics/label-values" read_write "queryH.ServeMetricLabelValues"
    ∷ route "/api/metrics/query-range" read_write "queryH.ServeMetricQueryRange"
    ∷ route "/api/metrics/performance" read_write "queryH.ServeMetricsPerformance"
    ∷ route "/api/metrics/network" read_write "queryH.ServeMetricsNetwork"
    ∷ route "/api/service-map/thresholds" read_write "queryH.ServeServiceMapThresholds"
    ∷ route "/api/service-map/edge-traces" read_write "queryH.ServeServiceMapEdgeTraces"
    ∷ route "/api/service-map" read_write "queryH.ServeServiceMap"
    ∷ route "/api/alerts/" read_write "queryH.ServeAlertsSubpath"
    ∷ route "/api/alerts" read_write "queryH.ServeAlerts"
    ∷ route "/api/rum/metrics" read_write "queryH.ServeRUMMetrics"
    ∷ route "/api/rum/detail" read_write "queryH.ServeRUMDetail"
    ∷ route "/api/rum/slo" read_write "queryH.ServeRUMSLO"
    ∷ route "/api/rum/facets" read_write "queryH.ServeRUMFacets"
    ∷ route "/api/rum/vitals/attribution" read_write "queryH.ServeRUMVitalsAttribution"
    ∷ route "/api/rum/replay-timeline/" read_write "queryH.ServeRUMReplayTimeline"
    ∷ route "/api/rum/replay/" read_write "queryH.ServeRUMReplay"
    ∷ route "/api/rum/mobile/sessions" read_write "queryH.ServeRUMMobileSessions"
    ∷ route "/api/rum/sessions/" read_write "queryH.ServeRUMSessionsSubpath"
    ∷ route "/api/rum/sessions" read_write "queryH.ServeRUMSessions"
    ∷ route "/api/mobile/crashes" read_write "queryH.ServeMobileCrashes"
    ∷ route "/api/profiles/flame" read_write "queryH.ServeProfilesFlame"
    ∷ route "/api/profiles" read_write "queryH.ServeProfiles"
    ∷ route "/api/errors/" read_write "queryH.ServeErrorsSubpath"
    ∷ route "/api/errors" read_write "queryH.ServeErrors"
    ∷ route "/api/synthetics/locations" read_write "queryH.ServeSyntheticsLocations"
    ∷ route "/api/synthetics/" read_write "queryH.ServeSyntheticsSubpath"
    ∷ route "/api/synthetics" read_write "queryH.ServeSynthetics"
    ∷ route "/api/slos/" read_write "queryH.ServeSLOsSubpath"
    ∷ route "/api/slos" read_write "queryH.ServeSLOs"
    ∷ route "/api/anomalies" read_write "queryH.ServeAnomalies"
    ∷ route "/api/logs" read_write "queryH.ServeLogs"
    ∷ route "/api/transactions/compare" read_write "queryH.ServeTransactionsCompare"
    ∷ route "/api/version" read_write "queryH.ServeVersion"
    ∷ route "/api/topology" read_write "queryH.ServeTopology"
    ∷ route "/api/ops/status" read_write "queryH.ServeOpsStatus"
    ∷ route "/api/audit" (at_least "admin") "queryH.ServeAudit"
    ∷ route "/api/db/instances" read_write "queryH.ServeDBInstances"
    ∷ route "/api/db/statements" read_write "queryH.ServeDBStatements"
    ∷ route "/api/db/fingerprint-match" read_write "queryH.ServeDBFingerprintMatch"
    ∷ route "/api/db/unused-indexes" read_write "queryH.ServeDBUnusedIndexes"
    ∷ route "/api/releases" read_write "queryH.ServeReleases"
    ∷ route "/api/diagnostics/suspect-commits" read_write "queryH.ServeSuspectCommits"
    ∷ route "/api/diagnostics/heap" read_write "queryH.ServeHeapDiagnostics"
    ∷ route "/api/diagnostics/threads" read_write "queryH.ServeThreadDiagnostics"
    ∷ route "/api/diagnostics/locks" read_write "queryH.ServeLockDiagnostics"
    ∷ []

-- `registerTenancyAndPeerRoutes`
abbrev pub peer_routes : List Route
peer_routes =
    route "/api/tenancy/organizations" (user_or_service "viewer" "health:read")
      "s.handleTenancyOrganizations"
    ∷ route "/api/oam/projects" (user_or_service "viewer" "orgs:read") "s.handleOAMProjects"
    ∷ route "/api/github/status" (user_or_service "viewer" "health:read") "s.handleGitHubStatus"
    ∷ route "/api/peer/health" unguarded "s.handlePeerHealth"
    ∷ []

-- `routes`
abbrev pub routes : List Route
routes = core_routes ++ (dashboard_routes ++ peer_routes)
