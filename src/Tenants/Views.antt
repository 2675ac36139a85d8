-- ===== src/Tenants/Views.antt =====
-- apps/api/src/modules/tenants/routes.ts: the list of the tenants and the detail view. The order of the
-- rows is the order of their creation where they have no time.
pub mod Page
use mathlib.Core.List.{reverse}
use xoom_agent_control.Prelude.{
  ℕ, String, Bool, true, false, ◌&&◌, ◌||◌, ◌==◌, Option, none, some, List, [], ◌∷◌, take, drop,
  map, present,
}
use xoom_agent_control.Enums.{TenantStatus, same_tenant_status}
use xoom_agent_control.Rows.{
  Db, Tenant, Host, TenantResourceLimit, TenantRuntimeConfig, TenantMcpAccess, McpServer,
  TenantEvent, HostCommand, Backup,
}
use xoom_agent_control.Env.{Env}
use xoom_agent_control.Guards.{Caller, require_user}
use xoom_agent_control.Action.{Action, Reply, send, pure, reject, ◌>>=◌, ◌>>◌}
use xoom_agent_control.Tables.{
  tenant_table, host_table, limit_table, runtime_config_table, mcp_access_table, mcp_server_table,
  secret_table, event_table, command_table, backup_table,
}
use xoom_agent_control.Query.{find_first, find_many, find_many_by, count}
use xoom_agent_control.Requests.{ListQuery}
use xoom_agent_control.Tenants.Routes.{later}
use xoom_agent_control.SecretRoutes.{SecretView, view_of, same_tenant}
use xoom_agent_control.Commands.{newer}

pub record TenantItem : Type 0 where
  pub tenant : Tenant
  pub assigned_host : Option Host
  pub resource_limits : Option TenantResourceLimit

pub record TenantPage : Type 0 where
  pub tenants : List TenantItem
  pub total : ℕ
  pub limit : ℕ
  pub offset : ℕ

pub record TenantDetail : Type 0 where
  pub tenant : Tenant
  pub assigned_host : Option Host
  pub resource_limits : Option TenantResourceLimit
  pub runtime_config : Option TenantRuntimeConfig
  pub mcp_access : List (TenantMcpAccess × Option McpServer)
  pub secrets : List SecretView
  pub events : List TenantEvent
  pub commands : List HostCommand
  pub backups : List Backup

abbrev wanted_status : Option TenantStatus → TenantStatus → Bool
wanted_status none s = true
wanted_status (some w) s = same_tenant_status s w

module _ (env : Env) where
  abbrev mentions : Option String → Tenant → Bool
  mentions none t = true
  mentions (some q) t = env.contains t.name q || env.contains t.slug q

  -- `where`
  unfoldable pub tenant_matches : ListQuery → Tenant → Bool
  unfolding present
  tenant_matches query t = wanted_status query.status t.status && mentions (present query.q) t

  -- `include: { assignedHost, resourceLimits }`
  abbrev pub host_of : Option String → Action (Option Host)
  host_of none = pure none
  host_of (some id) = find_first env host_table (λ h. h.id == id)

  abbrev pub include_both : Tenant → Action TenantItem
  include_both t = do
    host ← host_of t.assigned_host_id
    limits ← find_first env limit_table (λ l. l.tenant_id == t.id)
    pure (record { tenant = t; assigned_host = host; resource_limits = limits })

  unfoldable pub include_all : List Tenant → Action (List TenantItem)
  unfolding find_first
  include_all [] = pure []
  include_all (t ∷ tenants) = do
    item ← include_both t
    items ← include_all tenants
    pure (item ∷ items)

  abbrev pub counted_page : ListQuery → List TenantItem → Action (Reply TenantPage)
  counted_page query items = do
    total ← count env tenant_table (tenant_matches query)
    pure (
        send 200
          (record { tenants = items; total = total; limit = query.limit; offset = query.offset }))

  -- The rows of the page: of those that match, the latest first.
  abbrev pub page_rows : ListQuery → Db → List Tenant
  page_rows query s =
      take query.limit
        (drop query.offset (reverse (env.client.find_many (tenant_matches query) s.tenants)))

  -- The handler behind the guard.
  unfoldable pub page_of : ListQuery → Action (Reply TenantPage)
  unfolding find_many count tenant_matches include_all
  page_of query = do
    found ← find_many env tenant_table (tenant_matches query)
    tenants ← include_all (take query.limit (drop query.offset (reverse found)))
    counted_page query tenants

  -- GET /
  unfoldable pub list_tenants : Caller → ListQuery → Action (Reply TenantPage)
  unfolding require_user page_of
  list_tenants caller query = require_user env false caller λ user. page_of query

  unfoldable pub include_servers :
      List TenantMcpAccess → Action (List (TenantMcpAccess × Option McpServer))
  unfolding find_first
  include_servers [] = pure []
  include_servers (a ∷ rest) = do
    server ← find_first env mcp_server_table (λ m. m.id == a.mcp_server_id)
    others ← include_servers rest
    pure ((a, server) ∷ others)

  abbrev pub detail_of : Option Tenant → Action (Reply TenantDetail)
  detail_of none = reject 404 "not_found"
  detail_of (some tenant) = do
    host ← host_of tenant.assigned_host_id
    limits ← find_first env limit_table (λ l. l.tenant_id == tenant.id)
    config ← find_first env runtime_config_table (λ c. c.tenant_id == tenant.id)
    access ← find_many env mcp_access_table (λ a. a.tenant_id == tenant.id)
    joined ← include_servers access
    secrets ← find_many env secret_table (λ r. same_tenant r.tenant_id (some tenant.id))
    events ← find_many_by env event_table later (λ e. e.tenant_id == tenant.id)
    commands ← find_many_by env command_table newer (λ c. same_tenant c.tenant_id (some tenant.id))
    backups ← find_many env backup_table (λ b. b.tenant_id == tenant.id)
    pure (
        send 200 (record {
          tenant = tenant;
          assigned_host = host;
          resource_limits = limits;
          runtime_config = config;
          mcp_access = joined;
          secrets = map view_of secrets;
          events = take 25 events;
          commands = take 10 commands;
          backups = take 5 (reverse backups);
        }))

  -- GET /:id
  unfoldable pub get_tenant : Caller → String → Action (Reply TenantDetail)
  unfolding require_user find_first find_many find_many_by include_servers view_of newer
  get_tenant caller id =
      require_user env false caller
        λ user. do tenant ← find_first env tenant_table (λ t. t.id == id); detail_of tenant
