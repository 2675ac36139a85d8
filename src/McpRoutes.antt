-- ===== src/McpRoutes.antt =====
-- apps/api/src/modules/mcp/routes.ts: the registry of the MCP servers, and the access of the tenants.
use xoom_agent_control.Prelude.{
  String, Bool, true, false, not, ◌&&◌, ◌==◌, Option, none, some, List, [], ◌∷◌, get_or,
}
use xoom_agent_control.Json.{str, obj, object}
use xoom_agent_control.Rows.{McpServer, TenantMcpAccess}
use xoom_agent_control.Env.{Env, SessionUser}
use xoom_agent_control.Guards.{Caller, require_user}
use xoom_agent_control.Action.{Action, Reply, send, pure, ◌>>=◌, ◌>>◌}
use xoom_agent_control.Tables.{mcp_server_table, mcp_access_table}
use xoom_agent_control.Query.{find_first, find_many, find_many_by, create, update}
use xoom_agent_control.Audit.{AuditAction, mcp_enabled, mcp_disabled, record_audit}
use xoom_agent_control.Requests.{McpServerInput, McpServerPatch, TenantMcpAccessInput}
use xoom_agent_control.Tenants.Routes.{context_of}

abbrev kept : {A : Type 0} → Option A → Option A → Option A
kept none current = current
kept (some a) current = some a

-- The columns that an update of a server sets: a field that is missing keeps its column, and the
-- name stays.
abbrev pub patched : McpServerPatch → McpServer → McpServer
patched b m = record m {
  description = kept b.description m.description;
  transport = get_or b.transport m.transport;
  endpoint = kept b.endpoint m.endpoint;
  auth_type = kept b.auth_type m.auth_type;
  required_secrets = get_or b.required_secrets m.required_secrets;
  risk_level = get_or b.risk_level m.risk_level;
  approval_required = get_or b.approval_required m.approval_required;
  enabled = get_or b.enabled m.enabled;
}

abbrev change_of : Bool → AuditAction
change_of true = mcp_enabled
change_of false = mcp_disabled

abbrev needs_approval : Option McpServer → Bool
needs_approval none = false
needs_approval (some m) = m.approval_required

-- `b.approved ?? !server?.approvalRequired`
abbrev pub is_approved : TenantMcpAccessInput → Option McpServer → Bool
is_approved b server = get_or b.approved (not (needs_approval server))

module _ (env : Env) where
  -- GET /servers, in the order of their names
  unfoldable pub list_servers : Caller → Action (Reply (List McpServer))
  unfolding require_user find_many_by
  list_servers caller = require_user env false caller λ user. do
    servers ← find_many_by env mcp_server_table (λ a b. env.text_le a.name b.name) (λ m. true)
    pure (send 200 servers)

  abbrev pub create_server_as : Caller → McpServerInput → SessionUser → Action (Reply McpServer)
  create_server_as caller b user = do
    server ← create env mcp_server_table (λ id. record {
      id = id;
      name = b.name;
      description = b.description;
      transport = b.transport;
      endpoint = b.endpoint;
      auth_type = b.auth_type;
      required_secrets = get_or b.required_secrets [];
      risk_level = b.risk_level;
      approval_required = b.approval_required;
      enabled = b.enabled;
    })
    pure (send 201 server)

  -- POST /servers
  unfoldable pub create_server : Caller → McpServerInput → Action (Reply McpServer)
  unfolding require_user create
  create_server caller b = require_user env true caller (create_server_as caller b)

  abbrev pub patch_server_as :
      Caller → String → McpServerPatch → SessionUser → Action (Reply McpServer)
  patch_server_as caller id b user = do
    server ← update env mcp_server_table (λ m. m.id == id) (patched b)
    pure (send 200 server)

  -- PATCH /servers/:id
  unfoldable pub patch_server : Caller → String → McpServerPatch → Action (Reply McpServer)
  unfolding require_user update
  patch_server caller id b = require_user env true caller (patch_server_as caller id b)

  -- GET /tenants/:tenant_id/access, without the servers that are joined to it
  unfoldable pub list_access : Caller → String → Action (Reply (List TenantMcpAccess))
  unfolding require_user find_many
  list_access caller tenant_id = require_user env false caller λ user. do
    access ← find_many env mcp_access_table (λ a. a.tenant_id == tenant_id)
    pure (send 200 access)

  -- `upsert`
  abbrev pub put_access :
      String
      → TenantMcpAccessInput
      → Option McpServer
      → Option TenantMcpAccess
      → Action TenantMcpAccess
  put_access tenant_id b server (some access) =
      update env mcp_access_table (λ a. a.id == access.id)
        (λ a. record a {
          enabled = b.enabled;
          agent_scope = get_or b.agent_scope [];
          approved = is_approved b server;
        })
  put_access tenant_id b server none = create env mcp_access_table (λ id. record {
    id = id;
    tenant_id = tenant_id;
    mcp_server_id = b.mcp_server_id;
    enabled = b.enabled;
    agent_scope = get_or b.agent_scope [];
    approved = is_approved b server;
  })

  abbrev pub set_access_as :
      Caller → String → TenantMcpAccessInput → SessionUser → Action (Reply TenantMcpAccess)
  set_access_as caller tenant_id b user = do
    server ← find_first env mcp_server_table (λ m. m.id == b.mcp_server_id)
    existing ←
        find_first env mcp_access_table
          (λ a. a.tenant_id == tenant_id && a.mcp_server_id == b.mcp_server_id)
    access ← put_access tenant_id b server existing
    record_audit env (context_of user caller) (change_of b.enabled) "tenant" tenant_id
        (obj (object (("mcp_server_id", str b.mcp_server_id) ∷ [])))
    pure (send 200 access)

  -- PUT /tenants/:tenant_id/access
  unfoldable pub set_access :
      Caller → String → TenantMcpAccessInput → Action (Reply TenantMcpAccess)
  unfolding require_user find_first create update record_audit
  set_access caller tenant_id b = require_user env true caller (set_access_as caller tenant_id b)
