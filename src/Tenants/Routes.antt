-- ===== src/Tenants/Routes.antt =====
-- apps/api/src/modules/tenants/routes.ts: each route with its guard.
use xoom_agent_control.Prelude.{
  ℕ, String, Bool, true, false, not, ◌&&◌, ◌==◌, Option, none, some, [], ◌∷◌, leb, present, get_or,
  if◌then◌else◌,
}
use xoom_agent_control.Json.{Json, str, obj, object}
use xoom_agent_control.Enums.{TenantStatus, HostStatus, info, is_severe}
use xoom_agent_control.Rows.{Tenant, TenantResourceLimit, Host, TenantEvent}
use xoom_agent_control.Env.{Env, SessionUser}
use xoom_agent_control.Auth.{can_perform_destructive}
use xoom_agent_control.Guards.{Caller, require_user}
use xoom_agent_control.Action.{Action, Reply, send, pure, reject, reject_with, ◌>>=◌, ◌>>◌}
use xoom_agent_control.Tables.{tenant_table, limit_table, host_table, event_table}
use xoom_agent_control.Query.{find_first, find_first_by, create, update}
use xoom_agent_control.Audit.{
  AuditAction, AuditContext, tenant_created, tenant_updated, tenant_suspended, tenant_deleted,
  tenant_action, record_audit, no_metadata,
}
use xoom_agent_control.Requests.{
  CreateTenantRequest, UpdateTenantRequest, LimitsInput, TenantAction, suspend, delete,
}
use xoom_agent_control.Tenants.Create.{create_tenant}
use xoom_agent_control.Tenants.Create.Config.{Created}
use xoom_agent_control.Tenants.Lifecycle.{run_action, action_name, id_json}

-- Who acts, for the audit log.
abbrev pub context_of : SessionUser → Caller → AuditContext
context_of user caller = record { actor_user_id = some user.id; ip_address = some caller.ip }

-- `x ?? undefined` in a `data` clause: a value that is missing keeps the column.
abbrev pub or_keep : {A : Type 0} → Option A → A → A
or_keep input current = get_or input current

abbrev or_keep_option : Option String → Option String → Option String
or_keep_option none current = current
or_keep_option (some s) current = some s

abbrev pub is_destructive : TenantAction → Bool
is_destructive delete = true
is_destructive suspend = true
is_destructive _ = false

abbrev audit_of : TenantAction → AuditAction
audit_of delete = tenant_deleted
audit_of suspend = tenant_suspended
audit_of _ = tenant_action

abbrev status_name : TenantStatus → String
status_name TenantStatus.pending = "pending"
status_name TenantStatus.provisioning = "provisioning"
status_name TenantStatus.active = "active"
status_name TenantStatus.suspended = "suspended"
status_name TenantStatus.failed = "failed"
status_name TenantStatus.deleted = "deleted"

-- The later event first.
abbrev pub later : TenantEvent → TenantEvent → Bool
later a b = leb b.created_at a.created_at

pub record Health : Type 0 where
  pub tenant_id : String
  pub status : TenantStatus
  pub runtime_type : String
  pub runtime_version : String
  pub host_status : Option HostStatus
  pub host_last_seen : Option ℕ
  pub last_error : Option (String × ℕ)

-- The body of a callback, as far as the handler reads it.
pub record Callback : Type 0 where
  pub event_type : Option String
  pub message : Option String
  pub runtime_url : Option String
  pub body : Json

module _ (env : Env) where
  abbrev pub create_as : Caller → CreateTenantRequest → SessionUser → Action (Reply Created)
  create_as caller input user = do
    created ← create_tenant env input
    record_audit env (context_of user caller) tenant_created "tenant" created.tenant_id (
        obj (object (("slug", str input.slug) ∷ ("status", str (status_name created.status)) ∷ [])))
    pure (send 201 created)

  -- POST /
  unfoldable pub post_tenant : Caller → CreateTenantRequest → Action (Reply Created)
  unfolding require_user create_tenant record_audit
  post_tenant caller input = require_user env true caller (create_as caller input)

  abbrev pub patched_limits : LimitsInput → TenantResourceLimit → TenantResourceLimit
  patched_limits rl l = record l {
    vcpu = or_keep rl.vcpu l.vcpu;
    ram_mb = or_keep rl.ram_mb l.ram_mb;
    disk_gb = or_keep rl.disk_gb l.disk_gb;
    max_agents = or_keep rl.max_agents l.max_agents;
    max_monthly_spend = or_keep rl.max_monthly_spend l.max_monthly_spend;
    max_tokens_per_day = or_keep rl.max_tokens_per_day l.max_tokens_per_day;
    max_mcp_tools = or_keep rl.max_mcp_tools l.max_mcp_tools;
  }

  abbrev pub patch_limits : String → Option LimitsInput → Action Unit
  patch_limits id none = pure tt
  patch_limits id (some rl) = do
    update env limit_table (λ l. l.tenant_id == id) (patched_limits rl)
    pure tt

  abbrev pub patch_found :
      SessionUser → Caller → String → UpdateTenantRequest → Option Tenant → Action (Reply Unit)
  patch_found user caller id input none = reject 404 "not_found"
  patch_found user caller id input (some tenant) = do
    update env tenant_table (λ t. t.id == id)
        (λ t. record t {
          name = or_keep input.name t.name;
          domain = or_keep_option input.domain t.domain;
          runtime_version = or_keep input.runtime_version t.runtime_version;
        })
    patch_limits id input.resource_limits
    record_audit env (context_of user caller) tenant_updated "tenant" id no_metadata
    pure (send 200 tt)

  abbrev pub patch_as : Caller → String → UpdateTenantRequest → SessionUser → Action (Reply Unit)
  patch_as caller id input user = do
    tenant ← find_first env tenant_table (λ t. t.id == id)
    patch_found user caller id input tenant

  -- PATCH /:id
  unfoldable pub patch_tenant : Caller → String → UpdateTenantRequest → Action (Reply Unit)
  unfolding require_user find_first update record_audit
  patch_tenant caller id input = require_user env true caller (patch_as caller id input)

  abbrev pub act_as :
      SessionUser → Caller → String → TenantAction → Option String → Action (Reply (Option String))
  act_as user caller id action version = do
    command_id ← run_action env id action version
    record_audit env (context_of user caller) (audit_of action) "tenant" id (
        obj
          (object (("action", str (action_name action)) ∷ ("commandId", id_json command_id) ∷ [])))
    pure (send 200 command_id)

  abbrev pub request_action :
      Caller → String → TenantAction → Option String → SessionUser → Action (Reply (Option String))
  request_action caller id action version user =
      if is_destructive action && not (can_perform_destructive user.role)
      then reject_with 403 "forbidden" "Insufficient role for destructive action"
      else act_as user caller id action version

  -- POST /:id/actions
  unfoldable pub post_action :
      Caller → String → TenantAction → Option String → Action (Reply (Option String))
  unfolding require_user can_perform_destructive run_action record_audit
  post_action caller id action version =
      require_user env true caller (request_action caller id action version)

  abbrev pub assigned_host : Option String → Action (Option Host)
  assigned_host none = pure none
  assigned_host (some host_id) = find_first env host_table (λ h. h.id == host_id)

  abbrev host_status : Option Host → Option HostStatus
  host_status none = none
  host_status (some h) = some h.status

  abbrev host_last_seen : Option Host → Option ℕ
  host_last_seen none = none
  host_last_seen (some h) = h.last_seen_at

  abbrev error_of : Option TenantEvent → Option (String × ℕ)
  error_of none = none
  error_of (some e) = some (e.message, e.created_at)

  abbrev pub health_of : Option Tenant → Action (Reply Health)
  health_of none = reject 404 "not_found"
  health_of (some tenant) = do
    host ← assigned_host tenant.assigned_host_id
    last_error ←
        find_first_by env event_table later (λ e. e.tenant_id == tenant.id && is_severe e.severity)
    pure (
        send 200 (record {
          tenant_id = tenant.id;
          status = tenant.status;
          runtime_type = tenant.runtime_type;
          runtime_version = tenant.runtime_version;
          host_status = host_status host;
          host_last_seen = host_last_seen host;
          last_error = error_of last_error;
        }))

  -- GET /:id/health
  unfoldable pub get_health : Caller → String → Action (Reply Health)
  unfolding require_user find_first find_first_by
  get_health caller id =
      require_user env false caller
        λ user. do tenant ← find_first env tenant_table (λ t. t.id == id); health_of tenant

  abbrev pub set_domain : String → Option String → Action Unit
  set_domain id none = pure tt
  set_domain id (some url) = do
    update env tenant_table (λ t. t.id == id) (λ t. record t { domain = some url })
    pure tt

  abbrev pub callback_row : Callback → String → String → TenantEvent
  callback_row body tenant_id id = record {
    id = id;
    tenant_id = tenant_id;
    event_type = get_or body.event_type "runtime.callback";
    severity = info;
    message = get_or body.message "Runtime callback";
    metadata = body.body;
    created_at = env.now;
  }

  abbrev pub called_back : Callback → Option Tenant → Action (Reply Unit)
  called_back body none = reject 404 "not_found"
  called_back body (some tenant) = do
    create env event_table (callback_row body tenant.id)
    set_domain tenant.id (present body.runtime_url)
    pure (send 200 tt)

  -- POST /:id/callback, which has no guard
  unfoldable pub post_callback : String → Callback → Action (Reply Unit)
  unfolding find_first create update present
  post_callback id body = do
    tenant ← find_first env tenant_table (λ t. t.id == id)
    called_back body tenant
