-- ===== src/Hosts/Reconcile/Outcomes.antt =====
-- What a report makes of a tenant and of its backups.
use xoom_agent_control.Prelude.{
  ◌≡◌, refl, String, Bool, true, false, ◌&&◌, ◌==◌, Option, some, find, arith,
}
use xoom_agent_control.Prisma.{Documented}
use xoom_agent_control.Json.{Fields}
use xoom_agent_control.Enums.{TenantStatus, active, suspended, deleted, CommandType}
use xoom_agent_control.Rows.{Db, Tenant}
use xoom_agent_control.Env.{Env}
use xoom_agent_control.Tables.{tenant_table}
use xoom_agent_control.Query.{update_many}
use xoom_agent_control.Query.Laws.{update-find}
use xoom_agent_control.Requests.{ResultStatus, running, succeeded}
use xoom_agent_control.Hosts.Reconcile.{
  reconcile_tenant, settle, outcome, result_text, complete_backups, is_backup,
}

-- No report of any command changes a backup, so none is ever completed.
pub backups-reconcile_tenant :
    (env : Env) (tenant_id : String) (type : CommandType) (status : ResultStatus)
    (result : Option Fields) (s : Db)
    → (reconcile_tenant env tenant_id type status result s).1.backups ≡ s.backups
unfolding reconcile_tenant
backups-reconcile_tenant env tenant_id CommandType.create_tenant status result s = ground arith
backups-reconcile_tenant env tenant_id type status result s = ground arith

-- What a report of a status makes of a tenant.
abbrev pub settled_status : CommandType → ResultStatus → TenantStatus → TenantStatus
settled_status CommandType.create_tenant succeeded old = active
settled_status CommandType.create_tenant _ old = TenantStatus.failed
settled_status CommandType.start_tenant succeeded old = active
settled_status CommandType.restart_tenant succeeded old = active
settled_status CommandType.stop_tenant succeeded old = suspended
settled_status CommandType.delete_tenant succeeded old = deleted
settled_status _ _ old = old

pub id-outcome :
    (success : Bool) (status : TenantStatus) (url : Option String) (t : Tenant)
    → (outcome success status url t).id ≡ t.id
id-outcome true status (some url) t = refl
id-outcome _ status _ t = refl

status-outcome :
    (success : Bool) (status : TenantStatus) (url : Option String) (t : Tenant)
    → (outcome success status url t).status ≡ status
status-outcome true status (some url) t = refl
status-outcome _ status _ t = refl

-- The tenant that a condition by its id finds, in a database.
abbrev pub tenant_by_id : String → Db → Option Tenant
tenant_by_id id s = find (λ t. t.id == id) s.tenants

tenants-complete_backups :
    (env : Env) (complete : Bool) (tenant_id : String) (result : Option Fields) (s : Db)
    → (complete_backups env complete tenant_id result s).1.tenants ≡ s.tenants
unfolding update_many
tenants-complete_backups env true tenant_id result s = refl
tenants-complete_backups env false tenant_id result s = refl

module _ (env : Env) (d : Documented env.client) (tenant_id : String) (result : Option Fields)
    (s : Db) (t : Tenant) (e : tenant_by_id tenant_id s ≡ some t) where
  settle-tenant :
      (type : CommandType) (success : Bool) (status : TenantStatus)
      → (t' : Tenant) × (tenant_by_id tenant_id
            (settle env tenant_id type success result (some status) s).1
          ≡ some t')
        × (t'.status ≡ status)
  settle-tenant type success status =
      let url = result_text "runtime_url" result in
      let (rows, a, b, c) =
        update-find env d tenant_table (λ t. t.id == tenant_id) (outcome success status url) s t
          (λ r. rw (id-outcome success status url r)) e in
      (
        outcome success status url t,
        rw a (rw (tenants-complete_backups env (is_backup type && success) tenant_id result) b),
        status-outcome success status url t,
      )

  -- On a documented client, a report on a command of a stored tenant sets the status of the
  -- tenant by the type of the command: a creation that is reported in any way but as a success,
  -- also as running, makes it failed; a start or restart that succeeded makes it active, a stop
  -- suspended, a deletion deleted; any other report leaves the status.
  pub status-reconcile_tenant :
      (type : CommandType) (status : ResultStatus)
      → (t' : Tenant) × (tenant_by_id tenant_id
            (reconcile_tenant env tenant_id type status result s).1
          ≡ some t')
        × (t'.status ≡ settled_status type status t.status)
  unfolding reconcile_tenant
  status-reconcile_tenant CommandType.create_tenant succeeded =
      settle-tenant CommandType.create_tenant true active
  status-reconcile_tenant CommandType.create_tenant running =
      settle-tenant CommandType.create_tenant false TenantStatus.failed
  status-reconcile_tenant CommandType.create_tenant ResultStatus.failed =
      settle-tenant CommandType.create_tenant false TenantStatus.failed
  status-reconcile_tenant CommandType.start_tenant succeeded =
      settle-tenant CommandType.start_tenant true active
  status-reconcile_tenant CommandType.restart_tenant succeeded =
      settle-tenant CommandType.restart_tenant true active
  status-reconcile_tenant CommandType.stop_tenant succeeded =
      settle-tenant CommandType.stop_tenant true suspended
  status-reconcile_tenant CommandType.delete_tenant succeeded =
      settle-tenant CommandType.delete_tenant true deleted
  status-reconcile_tenant _ _ = (t, e, refl)
