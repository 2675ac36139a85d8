-- ===== src/Server/TenantRoutes.antt =====
-- The routes of the tenants keep the hosts, tenants and commands sound.
use xoom_agent_control.Prelude.{
  ◌≡◌, refl, String, Bool, true, ◌==◌, ◌&&◌, not, Option, none, some, present,
}
use xoom_agent_control.Prisma.{Documented}
use xoom_agent_control.Enums.{TenantStatus}
use xoom_agent_control.Rows.{Tenant, TenantResourceLimit}
use xoom_agent_control.Env.{Env, SessionUser}
use xoom_agent_control.Auth.{can_perform_destructive}
use xoom_agent_control.Guards.{Caller}
use xoom_agent_control.Action.{reject_with}
use xoom_agent_control.Tables.{backup_table, tenant_table, limit_table, event_table}
use xoom_agent_control.Query.{update, find_first}
use xoom_agent_control.Requests.{
  UpdateTenantRequest, LimitsInput, TenantAction, start, stop, backup, update_runtime, suspend,
  delete,
}
use xoom_agent_control.Scheduler.{
  RequiredResources, reserved, released, reserve_capacity, release_capacity,
}
use xoom_agent_control.Tenants.Lifecycle.{
  run_action, act, give_back, set_status, set_version, add_backup, enqueue, status_of, command_row,
  resources_of,
}
use xoom_agent_control.Tenants.Routes.{
  patch_limits, patch_found, patch_as, patch_tenant, act_as, request_action, post_action,
  is_destructive, Callback, callback_row, set_domain, called_back, post_callback,
}
use xoom_agent_control.Server.Preserve.{
  Preserves, pure-Preserves, fail-Preserves, bind-Preserves, if-Preserves, require_user-Preserves,
  find_first-Preserves,
}
use xoom_agent_control.Server.Sound.{
  IsSound, update_host-Sound, update_tenant-Sound, create_command-Sound,
}
use xoom_agent_control.Server.Reports.{is_free, is_placed-is_free}
use xoom_agent_control.Server.Aside.{create-Sound, update-Sound, event-Sound, audit-Sound}

module _ (env : Env) (d : Documented env.client) where
  patch_limits-Sound :
      (id : String) (limits : Option LimitsInput) → Preserves IsSound (patch_limits env id limits)
  patch_limits-Sound id none = pure-Preserves IsSound
  patch_limits-Sound id (some rl) =
      bind-Preserves IsSound (update-Sound env d limit_table (λ rows s p. p) _ _)
        (λ _. pure-Preserves IsSound)

  -- A change of a tenant that leaves its id, slug, status and host.
  relabel-Sound :
      (w : Tenant → Bool) (f : Tenant → Tenant)
      → ((t : Tenant)
          → ((f t).id ≡ t.id)
            × ((f t).slug ≡ t.slug)
            × ((f t).status ≡ t.status)
            × ((f t).assigned_host_id ≡ t.assigned_host_id))
      → Preserves IsSound (update env tenant_table w f)
  relabel-Sound w f same =
      update_tenant-Sound env d w f (λ t. (same t).0) (λ t. (same t).1)
        (λ t k. rw ((same t).2, (same t).3) k)

  patch_found-Sound :
      (user : SessionUser) (caller : Caller) (id : String) (input : UpdateTenantRequest)
      (tenant : Option Tenant)
      → Preserves IsSound (patch_found env user caller id input tenant)
  patch_found-Sound user caller id input none = pure-Preserves IsSound
  patch_found-Sound user caller id input (some tenant) =
      bind-Preserves IsSound (relabel-Sound _ _ (λ t. (refl, refl, refl, refl))) (λ _.
        bind-Preserves IsSound (patch_limits-Sound id input.resource_limits)
          (λ _. bind-Preserves IsSound (audit-Sound env d _ _ _ _ _) (λ _. pure-Preserves IsSound)))

  patch_as-Sound :
      (caller : Caller) (id : String) (input : UpdateTenantRequest) (user : SessionUser)
      → Preserves IsSound (patch_as env caller id input user)
  patch_as-Sound caller id input user =
      bind-Preserves IsSound (find_first-Preserves IsSound env d tenant_table (λ t. t.id == id))
        (λ tenant. patch_found-Sound user caller id input tenant)

  pub patch_tenant-Sound :
      (caller : Caller) (id : String) (input : UpdateTenantRequest)
      → Preserves IsSound (patch_tenant env caller id input)
  unfolding patch_tenant
  patch_tenant-Sound caller id input =
      require_user-Preserves IsSound env true caller (patch_as env caller id input)
        (patch_as-Sound caller id input)

  set_version-Sound :
      (action : TenantAction) (tenant : Tenant) (version : Option String)
      → Preserves IsSound (set_version env action tenant version)
  set_version-Sound update_runtime tenant version =
      bind-Preserves IsSound (relabel-Sound _ _ (λ t. (refl, refl, refl, refl)))
        (λ _. pure-Preserves IsSound)
  set_version-Sound _ tenant version = pure-Preserves IsSound

  add_backup-Sound :
      (action : TenantAction) (tenant_id host_id : String)
      → Preserves IsSound (add_backup env action tenant_id host_id)
  add_backup-Sound backup tenant_id host_id =
      bind-Preserves IsSound (create-Sound env d backup_table (λ rows s p. p) _ (λ rows n s p. p))
        (λ _. pure-Preserves IsSound)
  add_backup-Sound _ tenant_id host_id = pure-Preserves IsSound

  enqueue-Sound :
      (action : TenantAction) (tenant : Tenant) (version host_id : Option String)
      → Preserves IsSound (enqueue env action tenant version host_id)
  enqueue-Sound action tenant version none = pure-Preserves IsSound
  enqueue-Sound action tenant version (some host_id) =
      bind-Preserves IsSound (set_version-Sound action tenant version) (λ _.
        bind-Preserves IsSound
          (create_command-Sound env d (command_row env action tenant version host_id) (λ id. refl))
          (λ command.
            bind-Preserves IsSound (add_backup-Sound action tenant.id host_id)
              (λ _. pure-Preserves IsSound)))

  restatus-Sound :
      (status : TenantStatus) (id : String)
      → is_free status ≡ true
      → Preserves IsSound (set_status env (some status) id)
  restatus-Sound status id free =
      bind-Preserves IsSound
        (update_tenant-Sound env d (λ t. t.id == id) (λ t. record t { status = status }) (λ t. refl)
          (λ t. refl) (λ t k. is_placed-is_free status t.assigned_host_id free))
        (λ _. pure-Preserves IsSound)

  set_status-Sound :
      (action : TenantAction) (id : String)
      → Preserves IsSound (set_status env (status_of action) id)
  unfolding status_of
  set_status-Sound start id = restatus-Sound TenantStatus.active id refl
  set_status-Sound stop id = restatus-Sound TenantStatus.suspended id refl
  set_status-Sound suspend id = restatus-Sound TenantStatus.suspended id refl
  set_status-Sound delete id = restatus-Sound TenantStatus.deleted id refl
  set_status-Sound _ id = pure-Preserves IsSound

  pub reserve_capacity-Sound :
      (host_id : String) (req : RequiredResources)
      → Preserves IsSound (reserve_capacity env host_id req)
  unfolding reserve_capacity reserved
  reserve_capacity-Sound host_id req =
      bind-Preserves IsSound
        (update_host-Sound env d (λ h. h.id == host_id) (reserved req) (λ h. refl) (λ h. refl))
        (λ _. pure-Preserves IsSound)

  release_capacity-Sound :
      (host_id : String) (req : RequiredResources)
      → Preserves IsSound (release_capacity env host_id req)
  unfolding release_capacity released
  release_capacity-Sound host_id req =
      bind-Preserves IsSound
        (update_host-Sound env d (λ h. h.id == host_id) (released req) (λ h. refl) (λ h. refl))
        (λ _. pure-Preserves IsSound)

  give_back-Sound :
      (action : TenantAction) (host_id : Option String) (limits : Option TenantResourceLimit)
      → Preserves IsSound (give_back env action host_id limits)
  give_back-Sound delete (some host_id) (some limits) =
      release_capacity-Sound host_id (resources_of limits)
  give_back-Sound _ _ _ = pure-Preserves IsSound

  act-Sound :
      (action : TenantAction) (version : Option String) (limits : Option TenantResourceLimit)
      (tenant : Option Tenant)
      → Preserves IsSound (act env action version limits tenant)
  act-Sound action version limits none = fail-Preserves IsSound
  act-Sound action version limits (some tenant) =
      bind-Preserves IsSound (enqueue-Sound action tenant version tenant.assigned_host_id) (λ id.
        bind-Preserves IsSound (set_status-Sound action tenant.id) (λ _.
          bind-Preserves IsSound (give_back-Sound action tenant.assigned_host_id limits) (λ _.
            bind-Preserves IsSound (event-Sound env d _ _ _ _ _) (λ _. pure-Preserves IsSound))))

  run_action-Sound :
      (tenant_id : String) (action : TenantAction) (version : Option String)
      → Preserves IsSound (run_action env tenant_id action version)
  unfolding run_action find_first
  run_action-Sound tenant_id action version = record {
    preserves = λ s p. (act-Sound action version _ _).preserves s p;
  }

  act_as-Sound :
      (user : SessionUser) (caller : Caller) (id : String) (action : TenantAction)
      (version : Option String)
      → Preserves IsSound (act_as env user caller id action version)
  act_as-Sound user caller id action version =
      bind-Preserves IsSound (run_action-Sound id action version) (λ command_id.
        bind-Preserves IsSound (audit-Sound env d _ _ _ _ _) (λ _. pure-Preserves IsSound))

  pub post_action-Sound :
      (caller : Caller) (id : String) (action : TenantAction) (version : Option String)
      → Preserves IsSound (post_action env caller id action version)
  unfolding post_action
  post_action-Sound caller id action version =
      require_user-Preserves IsSound env true caller (request_action env caller id action version)
        λ user.
          if-Preserves IsSound (is_destructive action && not (can_perform_destructive user.role))
            {m = reject_with 403 "forbidden" "Insufficient role for destructive action"}
            {n = act_as env user caller id action version} (pure-Preserves IsSound)
            (act_as-Sound user caller id action version)

  set_domain-Sound : (id : String) (url : Option String) → Preserves IsSound (set_domain env id url)
  set_domain-Sound id none = pure-Preserves IsSound
  set_domain-Sound id (some url) =
      bind-Preserves IsSound (relabel-Sound _ _ (λ t. (refl, refl, refl, refl)))
        (λ _. pure-Preserves IsSound)

  called_back-Sound :
      (body : Callback) (tenant : Option Tenant) → Preserves IsSound (called_back env body tenant)
  called_back-Sound body none = pure-Preserves IsSound
  called_back-Sound body (some tenant) =
      bind-Preserves IsSound
        (create-Sound env d event_table (λ rows s p. p) (callback_row env body tenant.id)
          (λ rows n s p. p))
        (λ _.
          bind-Preserves IsSound (set_domain-Sound tenant.id (present body.runtime_url))
            (λ _. pure-Preserves IsSound))

  pub post_callback-Sound :
      (id : String) (body : Callback) → Preserves IsSound (post_callback env id body)
  unfolding post_callback
  post_callback-Sound id body =
      bind-Preserves IsSound (find_first-Preserves IsSound env d tenant_table (λ t. t.id == id))
        (λ tenant. called_back-Sound body tenant)
