-- ===== src/Tenants/Lifecycle/Effects.antt =====
-- What an action on a tenant does, and what it leaves alone.
use xoom_agent_control.Prelude.{
  ◌≡◌, refl, String, Bool, true, false, ◌==◌, Option, none, some, List, find,
}
use xoom_agent_control.Prisma.{Documented}
use xoom_agent_control.Rows.{Db, Tenant, Host, TenantResourceLimit}
use xoom_agent_control.Env.{Env, by_standard}
use xoom_agent_control.Action.{throw, pure, ◌>>◌}
use xoom_agent_control.Tables.{tenant_table, command_table, backup_table}
use xoom_agent_control.Query.{update, find_first}
use xoom_agent_control.Audit.Frame.{event-Keeps}
use xoom_agent_control.Query.Frame.{
  Keeps, pure-Keeps, fail-Keeps, bind-Keeps, update-Keeps, create-Keeps,
}
use xoom_agent_control.Enums.{TenantStatus}
use xoom_agent_control.Requests.{TenantAction, backup, update_runtime, delete}
use xoom_agent_control.Tenants.Lifecycle.{
  run_action, act, give_back, set_status, set_version, add_backup, enqueue, status_of,
}

-- On a documented client, an action on a tenant that does not exist is answered with 404, and
-- changes nothing.
pub run_action-none :
    (env : Env) (tenant_id : String) (action : TenantAction) (version : Option String) (s : Db)
    → Documented env.client
    → find (λ t. t.id == tenant_id) s.tenants ≡ none
    → run_action env tenant_id action version s
      ≡ (throw (record { status_code = some 404; message = "Tenant not found" }), s)
run_action-none env tenant_id action version s d e =
    by_standard
      (λ v.
        run_action v tenant_id action version s
        ≡ (throw (record { status_code = some 404; message = "Tenant not found" }), s))
      env d (unfold run_action in rw e refl)

abbrev pub is_delete : TenantAction → Bool
is_delete delete = true
is_delete _ = false

abbrev pub hosts_of : Db → List Host
hosts_of s = s.hosts

module _ (env : Env) where
  update_tenant-Keeps :
      (w : Tenant → Bool) (f : Tenant → Tenant)
      → Keeps hosts_of (update env tenant_table w f >> pure tt)
  update_tenant-Keeps w f =
      bind-Keeps hosts_of (update-Keeps hosts_of env tenant_table (λ rows s. refl) w f)
        (λ _. pure-Keeps hosts_of)

  set_version-Keeps :
      (action : TenantAction) (tenant : Tenant) (version : Option String)
      → Keeps hosts_of (set_version env action tenant version)
  set_version-Keeps update_runtime tenant version = update_tenant-Keeps _ _
  set_version-Keeps _ tenant version = pure-Keeps hosts_of

  add_backup-Keeps :
      (action : TenantAction) (tenant_id host_id : String)
      → Keeps hosts_of (add_backup env action tenant_id host_id)
  add_backup-Keeps backup tenant_id host_id =
      bind-Keeps hosts_of (create-Keeps hosts_of env backup_table (λ rows s. refl) (λ n s. refl) _)
        (λ _. pure-Keeps hosts_of)
  add_backup-Keeps _ tenant_id host_id = pure-Keeps hosts_of

  enqueue-Keeps :
      (action : TenantAction) (tenant : Tenant) (version host_id : Option String)
      → Keeps hosts_of (enqueue env action tenant version host_id)
  enqueue-Keeps action tenant version none = pure-Keeps hosts_of
  enqueue-Keeps action tenant version (some host_id) =
      bind-Keeps hosts_of (set_version-Keeps action tenant version) (λ _.
        bind-Keeps hosts_of
          (create-Keeps hosts_of env command_table (λ rows s. refl) (λ n s. refl) _)
          (λ command.
            bind-Keeps hosts_of (add_backup-Keeps action tenant.id host_id)
              (λ _. pure-Keeps hosts_of)))

  set_status-Keeps :
      (status : Option TenantStatus) (id : String) → Keeps hosts_of (set_status env status id)
  set_status-Keeps none id = pure-Keeps hosts_of
  set_status-Keeps (some status) id = update_tenant-Keeps _ _

  give_back-Keeps :
      (action : TenantAction) (host_id : Option String) (limits : Option TenantResourceLimit)
      → is_delete action ≡ false
      → Keeps hosts_of (give_back env action host_id limits)
  give_back-Keeps delete host_id limits e = cc
  give_back-Keeps _ host_id limits e = pure-Keeps hosts_of

  act-Keeps :
      (action : TenantAction) (version : Option String) (limits : Option TenantResourceLimit)
      (tenant : Option Tenant)
      → is_delete action ≡ false
      → Keeps hosts_of (act env action version limits tenant)
  act-Keeps action version limits none e = fail-Keeps hosts_of
  act-Keeps action version limits (some tenant) e =
      bind-Keeps hosts_of (enqueue-Keeps action tenant version tenant.assigned_host_id) (λ id.
        bind-Keeps hosts_of (set_status-Keeps (status_of action) tenant.id) (λ _.
          bind-Keeps hosts_of (give_back-Keeps action tenant.assigned_host_id limits e) (λ _.
            bind-Keeps hosts_of (event-Keeps hosts_of env (λ rows s. refl) (λ n s. refl) _ _ _ _ _)
              (λ _. pure-Keeps hosts_of))))

  -- No action on a tenant but a deletion changes a host or its capacity, whether it succeeds or
  -- throws, with any client.
  pub hosts-run_action :
      (tenant_id : String) (action : TenantAction) (version : Option String) (s : Db)
      → is_delete action ≡ false
      → (run_action env tenant_id action version s).1.hosts ≡ s.hosts
  unfolding run_action find_first
  hosts-run_action tenant_id action version s e = (act-Keeps action version _ _ e).keeps s
