-- ===== src/Hosts/Reconcile.antt =====
-- `reconcileTenant` of apps/api/src/modules/hosts/agent.routes.ts: what a command's outcome makes of
-- its tenant.
pub mod Outcomes
use xoom_agent_control.Prelude.{
  String, Bool, true, false, ◌&&◌, ◌==◌, Option, none, some, if◌then◌else◌,
}
use xoom_agent_control.Json.{Json, Fields, get, truthy, to_string}
use xoom_agent_control.Enums.{
  TenantStatus, active, suspended, deleted, CommandType, BackupStatus, is_pending,
}
use xoom_agent_control.Rows.{Tenant}
use xoom_agent_control.Env.{Env}
use xoom_agent_control.Action.{Action, pure, ◌>>◌}
use xoom_agent_control.Tables.{tenant_table, backup_table}
use xoom_agent_control.Query.{update, update_many}
use xoom_agent_control.Requests.{ResultStatus, succeeded}

abbrev pub has_succeeded : ResultStatus → Bool
has_succeeded succeeded = true
has_succeeded _ = false

-- `transitions`: the status after a success, and the one after any other report.
unfoldable pub transitions : CommandType → Option (Option TenantStatus × Option TenantStatus)
transitions CommandType.create_tenant = some (some active, some TenantStatus.failed)
transitions CommandType.start_tenant = some (some active, none)
transitions CommandType.restart_tenant = some (some active, none)
transitions CommandType.stop_tenant = some (some suspended, none)
transitions CommandType.delete_tenant = some (some deleted, none)
transitions _ = none

-- `result?.key`, if it is truthy, as a string.
abbrev pub truthy_text : Option Json → Option String
truthy_text none = none
truthy_text (some v) = if truthy v then some (to_string v) else none

abbrev pub result_text : String → Option Fields → Option String
result_text key none = none
result_text key (some fields) = truthy_text (get key fields)

-- The `data` of the tenant's update.
abbrev pub outcome : Bool → TenantStatus → Option String → Tenant → Tenant
outcome true status (some url) t = record t { status = status; domain = some url }
outcome _ status _ t = record t { status = status }

abbrev pub new_status : Bool → Option TenantStatus × Option TenantStatus → Option TenantStatus
new_status true (ok, fail) = ok
new_status false (ok, fail) = fail

abbrev pub is_backup : CommandType → Bool
is_backup CommandType.backup_tenant = true
is_backup _ = false

module _ (env : Env) where
  -- The last part of the function: the backups that are pending become succeeded.
  abbrev pub complete_backups : Bool → String → Option Fields → Action Unit
  complete_backups false tenant_id result = pure tt
  complete_backups true tenant_id result =
      update_many env backup_table (λ b. b.tenant_id == tenant_id && is_pending b.status)
        (λ b. record b {
          status = BackupStatus.succeeded;
          artifact_path = result_text "artifact_path" result;
          completed_at = some env.now;
        })

  abbrev pub settle :
      String → CommandType → Bool → Option Fields → Option TenantStatus → Action Unit
  settle tenant_id type success result none = pure tt
  settle tenant_id type success result (some status) = do
    update env tenant_table (λ t. t.id == tenant_id)
        (outcome success status (result_text "runtime_url" result))
    complete_backups (is_backup type && success) tenant_id result

  abbrev pub settle_by :
      String
      → CommandType
      → Bool
      → Option Fields
      → Option (Option TenantStatus × Option TenantStatus)
      → Action Unit
  settle_by tenant_id type success result none = pure tt
  settle_by tenant_id type success result (some t) =
      settle tenant_id type success result (new_status success t)

  unfoldable pub reconcile_tenant :
      String → CommandType → ResultStatus → Option Fields → Action Unit
  unfolding transitions get to_string update update_many
  reconcile_tenant tenant_id type status result =
      settle_by tenant_id type (has_succeeded status) result (transitions type)
