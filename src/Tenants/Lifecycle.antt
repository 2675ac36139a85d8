-- ===== src/Tenants/Lifecycle.antt =====
-- `TenantService.runAction` of apps/api/src/modules/tenants/service.ts.
pub mod Effects
pub mod Twins
pub mod Deletion
use xoom_agent_control.Prelude.{String, ◌==◌, Option, none, some, [], ◌∷◌, template, get_or}
use xoom_agent_control.Json.{Json, null, str, obj, object}
use xoom_agent_control.Enums.{
  TenantStatus, active, suspended, deleted, CommandType, queued, info, BackupStatus,
}
use xoom_agent_control.Rows.{Tenant, TenantResourceLimit, HostCommand}
use xoom_agent_control.Env.{Env}
use xoom_agent_control.Action.{Action, pure, fail, ◌>>=◌, ◌>>◌}
use xoom_agent_control.Tables.{tenant_table, limit_table, command_table, backup_table}
use xoom_agent_control.Query.{find_first, create, update}
use xoom_agent_control.Audit.{record_tenant_event}
use xoom_agent_control.Requests.{
  TenantAction, start, stop, restart, backup, update_runtime, suspend, delete,
}
use xoom_agent_control.Scheduler.{RequiredResources, release_capacity}

-- The two columns of `map`: the command of an action, and the status that the tenant gets at once.
unfoldable pub command_of : TenantAction → CommandType
command_of start = CommandType.start_tenant
command_of stop = CommandType.stop_tenant
command_of restart = CommandType.restart_tenant
command_of backup = CommandType.backup_tenant
command_of update_runtime = CommandType.update_runtime
command_of suspend = CommandType.stop_tenant
command_of delete = CommandType.delete_tenant

unfoldable pub status_of : TenantAction → Option TenantStatus
status_of start = some active
status_of stop = some suspended
status_of suspend = some suspended
status_of delete = some deleted
status_of _ = none

unfoldable pub action_name : TenantAction → String
action_name start = "start"
action_name stop = "stop"
action_name restart = "restart"
action_name backup = "backup"
action_name update_runtime = "update_runtime"
action_name suspend = "suspend"
action_name delete = "delete"

abbrev pub command_payload : TenantAction → String → Option String → Json
command_payload update_runtime slug version =
    obj
      (object (("tenant_slug", str slug) ∷ ("runtime_version", str (get_or version "latest")) ∷ []))
command_payload _ slug version = obj (object (("tenant_slug", str slug) ∷ []))

abbrev pub resources_of : TenantResourceLimit → RequiredResources
resources_of l = record { vcpu = l.vcpu; ram_mb = l.ram_mb; disk_gb = l.disk_gb }

abbrev pub id_json : Option String → Json
id_json none = null
id_json (some id) = str id

module _ (env : Env) where
  abbrev pub set_version : TenantAction → Tenant → Option String → Action Unit
  set_version update_runtime tenant version = do
    update env tenant_table (λ t. t.id == tenant.id)
        (λ t. record t { runtime_version = get_or version tenant.runtime_version })
    pure tt
  set_version _ tenant version = pure tt

  abbrev pub add_backup : TenantAction → String → String → Action Unit
  add_backup backup tenant_id host_id = do
    create env backup_table (λ id. record {
      id = id;
      tenant_id = tenant_id;
      host_id = some host_id;
      artifact_path = none;
      status = BackupStatus.pending;
      completed_at = none;
    })
    pure tt
  add_backup _ tenant_id host_id = pure tt

  abbrev pub command_row : TenantAction → Tenant → Option String → String → String → HostCommand
  command_row action tenant version host_id id = record {
    id = id;
    host_id = host_id;
    tenant_id = some tenant.id;
    command_type = command_of action;
    status = queued;
    payload = some (command_payload action tenant.slug version);
    result = none;
    error_message = none;
    attempts = 0;
    created_at = env.now;
    claimed_at = none;
    completed_at = none;
  }

  -- The command, if the tenant has a host.
  abbrev pub enqueue :
      TenantAction → Tenant → Option String → Option String → Action (Option String)
  enqueue action tenant version none = pure none
  enqueue action tenant version (some host_id) = do
    set_version action tenant version
    command ← create env command_table (command_row action tenant version host_id)
    add_backup action tenant.id host_id
    pure (some command.id)

  abbrev pub set_status : Option TenantStatus → String → Action Unit
  set_status none tenant_id = pure tt
  set_status (some status) tenant_id = do
    update env tenant_table (λ t. t.id == tenant_id) (λ t. record t { status = status })
    pure tt

  -- A delete gives the reserved capacity back.
  abbrev pub give_back : TenantAction → Option String → Option TenantResourceLimit → Action Unit
  give_back delete (some host_id) (some limits) = release_capacity env host_id (resources_of limits)
  give_back _ _ _ = pure tt

  abbrev pub act :
      TenantAction
      → Option String
      → Option TenantResourceLimit
      → Option Tenant
      → Action (Option String)
  act action version limits none = fail (some 404) "Tenant not found"
  act action version limits (some tenant) = do
    command_id ← enqueue action tenant version tenant.assigned_host_id
    set_status (status_of action) tenant.id
    give_back action tenant.assigned_host_id limits
    record_tenant_event env tenant.id (template ("tenant." ∷ action_name action ∷ [])) info
        (template ("Action \"" ∷ action_name action ∷ "\" requested" ∷ []))
        (obj (object (("commandId", id_json command_id) ∷ [])))
    pure command_id

  -- The id of the command, if one was enqueued.
  unfoldable pub run_action : String → TenantAction → Option String → Action (Option String)
  unfolding find_first command_of status_of action_name update create release_capacity
      record_tenant_event
  run_action tenant_id action version = do
    tenant ← find_first env tenant_table (λ t. t.id == tenant_id)
    limits ← find_first env limit_table (λ l. l.tenant_id == tenant_id)
    act action version limits tenant
