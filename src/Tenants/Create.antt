-- ===== src/Tenants/Create.antt =====
-- `TenantService.createTenant` of apps/api/src/modules/tenants/service.ts.
pub mod Config
pub mod Steps
pub mod Refusals
pub mod Unplaced
pub mod Dispatch
use xoom_agent_control.Prelude.{
  ℕ, zero, suc, String, Bool, true, false, not, ◌&&◌, ◌==◌, Option, none, some, List, [], ◌∷◌,
  template, present, get_or, if◌then◌else◌,
}
use xoom_agent_control.Json.{Json, null, str, num, bool, arr, obj, object, strings, items}
use xoom_agent_control.Enums.{
  TenantStatus, pending, provisioning, CommandType, queued, EventSeverity, info, error, local,
}
use xoom_agent_control.Rows.{Host, Tenant, AgentTemplate, McpServer, TenantMcpAccess, HostCommand}
use xoom_agent_control.Env.{Env, VirtualKeySpec}
use xoom_agent_control.Action.{Action, Result, ok, throw, pure, fail, ◌>>=◌, ◌>>◌}
use xoom_agent_control.Tables.{
  tenant_table, limit_table, secret_table, template_table, runtime_config_table, mcp_server_table,
  mcp_access_table, command_table,
}
use xoom_agent_control.Query.{find_first, create, update, update_linked}
use xoom_agent_control.Audit.{record_tenant_event, no_metadata}
use xoom_agent_control.Requests.{CreateTenantRequest, LimitsInput, MemoryChoice, LlmConfigInput}
use xoom_agent_control.Secrets.{encrypt_value}
use xoom_agent_control.Providers.{VirtualKeyResult, create_virtual_key, ensure_namespace}
use xoom_agent_control.Scheduler.{RequiredResources, select_host_for_tenant, reserve_capacity}
use xoom_agent_control.Tenants.Create.Config.{
  Limits, default_limits, merge_limits, required_of, Created, llm_field, memory_field, positive,
  or_else, number, lift, memory_namespace, litellm_key_ref, base_url, llm_config, memory_config,
  mcp_config, create_payload,
}
use xoom_agent_control.Tenants.Create.Steps.{
  create_pending, choose_host, give_up, provision, persist_config, link_servers,
}

module _ (env : Env) where
  abbrev pub creation_row : CreateTenantRequest → Limits → Tenant → String → String → HostCommand
  creation_row input limits tenant host_id id = record {
    id = id;
    host_id = host_id;
    tenant_id = some tenant.id;
    command_type = CommandType.create_tenant;
    status = queued;
    payload = some (create_payload env input limits tenant.id host_id);
    result = none;
    error_message = none;
    attempts = 0;
    created_at = env.now;
    claimed_at = none;
    completed_at = none;
  }

  -- 5. The assignment, the reservation and the command.
  abbrev pub dispatch : CreateTenantRequest → Limits → Tenant → String → Action Created
  dispatch input limits tenant host_id = do
    update_linked env tenant_table (λ t. t.id == tenant.id)
        (λ t. record t { assigned_host_id = some host_id; status = provisioning })
    reserve_capacity env host_id (required_of limits)
    command ← create env command_table (creation_row input limits tenant host_id)
    record_tenant_event env tenant.id "command.queued" info
        (template ("Queued create_tenant on host " ∷ host_id ∷ [])) no_metadata
    pure (record { tenant_id = tenant.id; command_id = some command.id; status = provisioning })

  -- Steps 3 to 5.
  abbrev pub place : CreateTenantRequest → Limits → Tenant → Option String → Action Created
  place input limits tenant none = give_up env tenant
  place input limits tenant (some host_id) = do
    vkey ← provision env input limits tenant
    persist_config env input limits tenant vkey.key_name
    link_servers env tenant.id input.mcp_servers
    dispatch input limits tenant host_id

  abbrev pub admit_slug : CreateTenantRequest → Option Tenant → Action Created
  admit_slug input (some existing) =
      fail (some 409) (template ("Tenant slug \"" ∷ input.slug ∷ "\" already exists" ∷ []))
  admit_slug input none = do
    let limits = merge_limits input.resource_limits
    tenant ← create_pending env input limits
    host ← choose_host env input (required_of limits)
    place input limits tenant (present host)

  unfoldable pub create_tenant : CreateTenantRequest → Action Created
  unfolding find_first merge_limits create update record_tenant_event choose_host provision
      persist_config link_servers update_linked reserve_capacity
  create_tenant input = find_first env tenant_table (λ t. t.slug == input.slug) >>= λ existing.
      admit_slug input existing
