-- ===== src/Server/Reports.antt =====
-- A report of a host keeps the hosts, tenants and commands sound.
use xoom_agent_control.Prelude.{
  ◌≡◌, refl, String, Bool, true, false, ◌==◌, ◌&&◌, Option, none, some, present,
}
use xoom_agent_control.Json.{Fields}
use xoom_agent_control.Prisma.{Documented}
use xoom_agent_control.Enums.{TenantStatus, CommandType}
use xoom_agent_control.Rows.{Tenant, HostCommand}
use xoom_agent_control.Env.{Env}
use xoom_agent_control.Guards.{Caller}
use xoom_agent_control.Tables.{command_table, backup_table}
use xoom_agent_control.Requests.{CommandResultRequest, ResultStatus}
use xoom_agent_control.Hosts.Queue.{
  report, report_tenant, report_found, take_result, post_result, recorded_status, completion,
}
use xoom_agent_control.Hosts.Reconcile.{
  reconcile_tenant, settle, complete_backups, outcome, result_text, is_backup,
}
use xoom_agent_control.Server.Preserve.{
  Preserves, pure-Preserves, bind-Preserves, require_host-Preserves, find_first-Preserves,
}
use xoom_agent_control.Server.Sound.{
  IsSound, is_placed, is_settled, update_tenant-Sound, update_command-Sound,
}
use xoom_agent_control.Server.Aside.{update_many-Sound, event-Sound, audit-Sound}

-- The statuses that a report or an action gives to a tenant, whose place they do not depend on.
abbrev pub is_free : TenantStatus → Bool
is_free TenantStatus.pending = false
is_free TenantStatus.provisioning = false
is_free _ = true

pub is_placed-is_free :
    (status : TenantStatus) (host_id : Option String)
    → is_free status ≡ true
    → is_placed status host_id ≡ true
is_placed-is_free TenantStatus.pending host_id e = cc
is_placed-is_free TenantStatus.provisioning host_id e = cc
is_placed-is_free _ host_id e = refl

settled_report :
    (env : Env) (body : CommandResultRequest) (c : HostCommand)
    → is_settled (report env body c).status (report env body c).completed_at ≡ true
settled_report env body c = go body.status
  where
    go :
        (status : ResultStatus)
        → is_settled (recorded_status status) (completion status env.now) ≡ true
    go ResultStatus.running = refl
    go ResultStatus.succeeded = refl
    go ResultStatus.failed = refl

outcome_fields :
    (success : Bool) (status : TenantStatus) (url : Option String) (t : Tenant)
    → ((outcome success status url t).id ≡ t.id)
      × ((outcome success status url t).slug ≡ t.slug)
      × ((outcome success status url t).status ≡ status)
outcome_fields true status (some url) t = (refl, refl, refl)
outcome_fields true status none t = (refl, refl, refl)
outcome_fields false status url t = (refl, refl, refl)

module _ (env : Env) (d : Documented env.client) where
  complete_backups-Sound :
      (complete : Bool) (tenant_id : String) (result : Option Fields)
      → Preserves IsSound (complete_backups env complete tenant_id result)
  complete_backups-Sound true tenant_id result =
      update_many-Sound env d backup_table (λ rows s p. p) _ _
  complete_backups-Sound false tenant_id result = pure-Preserves IsSound

  settle-Sound :
      (tenant_id : String) (type : CommandType) (success : Bool) (result : Option Fields)
      (status : TenantStatus)
      → is_free status ≡ true
      → Preserves IsSound (settle env tenant_id type success result (some status))
  settle-Sound tenant_id type success result status free =
      let url = result_text "runtime_url" result in
      bind-Preserves IsSound
        (update_tenant-Sound env d (λ t. t.id == tenant_id) (outcome success status url)
          (λ t. (outcome_fields success status url t).0)
          (λ t. (outcome_fields success status url t).1)
          (λ t k.
            rw ((outcome_fields success status url t).2)
              (is_placed-is_free status ((outcome success status url t).assigned_host_id) free)))
        (λ _. complete_backups-Sound (is_backup type && success) tenant_id result)

  pub reconcile_tenant-Sound :
      (tenant_id : String) (type : CommandType) (status : ResultStatus) (result : Option Fields)
      → Preserves IsSound (reconcile_tenant env tenant_id type status result)
  unfolding reconcile_tenant
  reconcile_tenant-Sound id CommandType.create_tenant ResultStatus.succeeded result =
      settle-Sound id CommandType.create_tenant true result TenantStatus.active refl
  reconcile_tenant-Sound id CommandType.create_tenant ResultStatus.running result =
      settle-Sound id CommandType.create_tenant false result TenantStatus.failed refl
  reconcile_tenant-Sound id CommandType.create_tenant ResultStatus.failed result =
      settle-Sound id CommandType.create_tenant false result TenantStatus.failed refl
  reconcile_tenant-Sound id CommandType.start_tenant ResultStatus.succeeded result =
      settle-Sound id CommandType.start_tenant true result TenantStatus.active refl
  reconcile_tenant-Sound id CommandType.restart_tenant ResultStatus.succeeded result =
      settle-Sound id CommandType.restart_tenant true result TenantStatus.active refl
  reconcile_tenant-Sound id CommandType.stop_tenant ResultStatus.succeeded result =
      settle-Sound id CommandType.stop_tenant true result TenantStatus.suspended refl
  reconcile_tenant-Sound id CommandType.delete_tenant ResultStatus.succeeded result =
      settle-Sound id CommandType.delete_tenant true result TenantStatus.deleted refl
  reconcile_tenant-Sound id _ _ result = pure-Preserves IsSound

  report_tenant-Sound :
      (command : HostCommand) (body : CommandResultRequest) (tenant_id : Option String)
      → Preserves IsSound (report_tenant env command body tenant_id)
  report_tenant-Sound command body none = pure-Preserves IsSound
  report_tenant-Sound command body (some id) =
      bind-Preserves IsSound
        (reconcile_tenant-Sound id command.command_type body.status body.result)
        (λ _. event-Sound env d _ _ _ _ _)

  report_found-Sound :
      (caller : Caller) (body : CommandResultRequest) (found : Option HostCommand)
      → Preserves IsSound (report_found env caller body found)
  report_found-Sound caller body none = pure-Preserves IsSound
  report_found-Sound caller body (some command) =
      bind-Preserves IsSound
        (update_command-Sound env d (λ c. c.id == command.id) (report env body) (λ c. refl)
          (settled_report env body))
        (λ _.
          bind-Preserves IsSound (report_tenant-Sound command body (present command.tenant_id))
            (λ _.
              bind-Preserves IsSound (audit-Sound env d _ _ _ _ _) (λ _. pure-Preserves IsSound)))

  take_result-Sound :
      (body : CommandResultRequest) (caller : Caller) (command_id host_id : String)
      → Preserves IsSound (take_result env body caller command_id host_id)
  unfolding take_result
  take_result-Sound body caller command_id host_id =
      bind-Preserves IsSound
        (find_first-Preserves IsSound env d command_table
          (λ c. c.id == command_id && c.host_id == host_id))
        (λ command. report_found-Sound caller body command)

  pub post_result-Sound :
      (caller : Caller) (host_id command_id : String) (body : CommandResultRequest)
      → Preserves IsSound (post_result env caller host_id command_id body)
  unfolding post_result
  post_result-Sound caller host_id command_id body =
      require_host-Preserves IsSound env d caller host_id (take_result env body caller command_id)
        (take_result-Sound body caller command_id)
