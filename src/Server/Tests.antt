-- ===== src/Server/Tests.antt =====
-- A request through the whole server.
use opa_hub.Prelude.{map, All, ◌≡◌, refl, none, some}
use opa_hub.Http.{Request, bearer_token, write_json}
use opa_hub.Auth.{claims_from_request, parse_token, oam_auth_configured}
use opa_hub.Auth.Gate.{require_read_write}
use opa_hub.Auth.Tests.{small_lib, guarded_hub, claims_of, as_token}
use opa_hub.Server.Mux.{best, guarded, serve, handled}
use opa_hub.Server.Mux.Protection.{IsCleared, serve-IsCleared}
use opa_hub.Registry.Tests.{fleet, get_all, strict, acme, strict-Enforces}
use opa_hub.Directory.{Org, Client, Outside, configured, refreshed}
use opa_hub.Directory as Directory
use opa_hub.Directory.Tests.{oam_env, acme_only}
use opa_hub.Server.Tenancy.{organizations, Discovery, serve_organizations}
use opa_hub.Server.Tenancy.Laws.{
  with_members, IsOwn, organizations-with_members, serve_organizations-IsOwn,
}

abbrev root_reads : Request Unit
root_reads = record (as_token "GET" "Bearer root" none) { path = "/api/agents/a1" }

root_reads_agent :
    serve small_lib "" guarded_hub root_reads
    ≡ handled "regH.ServeGet" root_reads (some (claims_of "root" "admin"))
unfolding serve best guarded require_read_write claims_from_request bearer_token parse_token
    oam_auth_configured
root_reads_agent = refl

serve-IsCleared_example :
    IsCleared small_lib "" guarded_hub "regH.ServeGet" root_reads (some (claims_of "root" "admin"))
serve-IsCleared_example =
    serve-IsCleared small_lib "" guarded_hub root_reads root_reads "regH.ServeGet"
      (some (claims_of "root" "admin")) refl root_reads_agent

-- the directory, read for the first time
abbrev first_read : Outside
first_read = record { now = 5; shared = none; fetched = some (some acme_only) }

organizations-with_members_example :
    organizations oam_env first_read Directory.new_client fleet
    ≡ (map (with_members fleet) acme_only, "oam", refreshed 5 (some acme_only))
unfolding Directory.organizations Directory.reload configured
organizations-with_members_example =
    organizations-with_members oam_env first_read Directory.new_client fleet (some acme_only) refl
      refl

serve_organizations-IsOwn_example :
    (d : Discovery) × ((serve_organizations strict oam_env first_read Directory.new_client fleet
        get_all).0
      ≡ write_json 200 d)
    × All (IsOwn strict acme) d.organizations
serve_organizations-IsOwn_example =
    serve_organizations-IsOwn strict oam_env first_read Directory.new_client fleet get_all
      strict-Enforces refl refl
