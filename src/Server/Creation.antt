-- ===== src/Server/Creation.antt =====
-- The creation of a tenant keeps the hosts, tenants and commands sound.
use xoom_agent_control.Prelude.{
  refl, String, Bool, true, false, ◌==◌, Option, none, some, List, [], ◌∷◌, present, template,
}
use xoom_agent_control.Prisma.{Documented}
use xoom_agent_control.Enums.{TenantStatus}
use xoom_agent_control.Rows.{Tenant, McpServer, TenantMcpAccess, AgentTemplate}
use xoom_agent_control.Env.{Env, SessionUser, VirtualKeySpec}
use xoom_agent_control.Guards.{Caller}
use xoom_agent_control.Action.{Result, pure, or_throw, ◌>>=◌, ◌>>◌}
use xoom_agent_control.Tables.{
  tenant_table, limit_table, secret_table, template_table, runtime_config_table, mcp_access_table,
  mcp_server_table,
}
use xoom_agent_control.Query.{find_many_by}
use xoom_agent_control.Requests.{CreateTenantRequest}
use xoom_agent_control.Providers.{
  VirtualKeyResult, create_virtual_key, configured, ensure_namespace,
}
use xoom_agent_control.Scheduler.{RequiredResources, select_host_for_tenant}
use xoom_agent_control.Tenants.Create.{create_tenant, admit_slug, place, dispatch, creation_row}
use xoom_agent_control.Tenants.Create.Config.{Limits, merge_limits, required_of, lift}
use xoom_agent_control.Tenants.Create.Steps.{
  key_spec, keep_key, store_key, config_row, save_config, create_pending, choose_host, host_choice,
  give_up, provision, persist_config, resolved_template, link_servers, link_server, put_access,
}
use xoom_agent_control.Tenants.Routes.{post_tenant, create_as}
use xoom_agent_control.Server.Preserve.{
  Preserves, pure-Preserves, fail-Preserves, bind-Preserves, atomic-Preserves, if-Preserves,
  require_user-Preserves, find_first-Preserves,
}
use xoom_agent_control.Server.Sound.{
  IsSound, update_tenant-Sound, assign_tenant-Sound, create_tenant_row-Sound, create_command-Sound,
}
use xoom_agent_control.Server.TenantRoutes.{reserve_capacity-Sound}
use xoom_agent_control.Server.Aside.{create-Sound, update-Sound, event-Sound, audit-Sound}

module _ (env : Env) (d : Documented env.client) where
  create_pending-Sound :
      (input : CreateTenantRequest) (limits : Limits)
      → Preserves IsSound (create_pending env input limits)
  create_pending-Sound input limits =
      bind-Preserves IsSound
        (atomic-Preserves IsSound (
          bind-Preserves IsSound (create_tenant_row-Sound env d _ (λ id. refl)) (λ tenant.
            bind-Preserves IsSound
              (create-Sound env d limit_table (λ rows s p. p) _ (λ rows n s p. p))
              (λ _. pure-Preserves IsSound))))
        (λ tenant.
          bind-Preserves IsSound (event-Sound env d _ _ _ _ _) (λ _. pure-Preserves IsSound))

  select_host_for_tenant-Sound :
      (req : RequiredResources) → Preserves IsSound (select_host_for_tenant env req)
  unfolding select_host_for_tenant find_many_by
  select_host_for_tenant-Sound req = record { preserves = λ s p. p }

  host_choice-Sound :
      (auto : Bool) (pinned : Option String) (req : RequiredResources)
      → Preserves IsSound (host_choice env auto pinned req)
  host_choice-Sound auto (some id) req = pure-Preserves IsSound
  host_choice-Sound true none req = select_host_for_tenant-Sound req
  host_choice-Sound false none req = pure-Preserves IsSound

  choose_host-Sound :
      (input : CreateTenantRequest) (req : RequiredResources)
      → Preserves IsSound (choose_host env input req)
  unfolding choose_host
  choose_host-Sound input req =
      host_choice-Sound input.auto_select_host (present input.assigned_host_id) req

  give_up-Sound : (tenant : Tenant) → Preserves IsSound (give_up env tenant)
  give_up-Sound tenant =
      bind-Preserves IsSound
        (update_tenant-Sound env d (λ t. t.id == tenant.id)
          (λ t. record t { status = TenantStatus.failed }) (λ t. refl) (λ t. refl) (λ t k. refl))
        (λ _. bind-Preserves IsSound (event-Sound env d _ _ _ _ _) (λ _. pure-Preserves IsSound))

  pub lift-Sound : {A : Type 0} (r : Result A) → Preserves IsSound (lift r)
  lift-Sound r = record { preserves = λ s p. p }

  or_throw-Sound :
      {A : Type 0} (a : Option A) (message : String) → Preserves IsSound (or_throw a message)
  or_throw-Sound none message = fail-Preserves IsSound
  or_throw-Sound (some a) message = pure-Preserves IsSound

  create_virtual_key-Sound :
      (spec : VirtualKeySpec) → Preserves IsSound (create_virtual_key env spec)
  unfolding create_virtual_key
  create_virtual_key-Sound spec =
      if-Preserves IsSound (configured env)
        {m = or_throw (env.generate_key spec) "LiteLLM POST /key/generate failed" >>= λ key.
          pure (record { key = key; key_name = template ("tenant-" ∷ spec.tenant_slug ∷ []) })}
        (bind-Preserves IsSound (or_throw-Sound _ _) (λ key. pure-Preserves IsSound))
        (pure-Preserves IsSound)

  pub ensure_namespace-Sound :
      (namespace : String) (days : _) → Preserves IsSound (ensure_namespace env namespace days)
  unfolding ensure_namespace
  ensure_namespace-Sound namespace days = pure-Preserves IsSound

  store_key-Sound :
      (input : CreateTenantRequest) (tenant : Tenant) (vkey : VirtualKeyResult) (sealed : String)
      → Preserves IsSound (store_key env input tenant vkey sealed)
  store_key-Sound input tenant vkey sealed =
      bind-Preserves IsSound (create-Sound env d secret_table (λ rows s p. p) _ (λ rows n s p. p))
        (λ _. bind-Preserves IsSound (ensure_namespace-Sound _ _) (λ _. pure-Preserves IsSound))

  keep_key-Sound :
      (input : CreateTenantRequest) (tenant : Tenant) (vkey : VirtualKeyResult)
      → Preserves IsSound (keep_key env input tenant vkey)
  keep_key-Sound input tenant vkey =
      bind-Preserves IsSound (lift-Sound _) (λ sealed. store_key-Sound input tenant vkey sealed)

  provision-Sound :
      (input : CreateTenantRequest) (limits : Limits) (tenant : Tenant)
      → Preserves IsSound (provision env input limits tenant)
  unfolding provision
  provision-Sound input limits tenant =
      bind-Preserves IsSound {f = keep_key env input tenant}
        (create_virtual_key-Sound (key_spec env input limits))
        (λ vkey. keep_key-Sound input tenant vkey)

  resolved_template-Sound : (id : Option String) → Preserves IsSound (resolved_template env id)
  resolved_template-Sound none = pure-Preserves IsSound
  resolved_template-Sound (some id) =
      find_first-Preserves IsSound env d template_table (λ t. t.id == id)

  save_config-Sound :
      (input : CreateTenantRequest) (limits : Limits) (tenant : Tenant) (key_name : String)
      (template : Option AgentTemplate)
      → Preserves IsSound (save_config env input limits tenant key_name template)
  save_config-Sound input limits tenant key_name template =
      bind-Preserves IsSound
        (create-Sound env d runtime_config_table (λ rows s p. p)
          (config_row env input limits tenant key_name template) (λ rows n s p. p))
        (λ _. pure-Preserves IsSound)

  persist_config-Sound :
      (input : CreateTenantRequest) (limits : Limits) (tenant : Tenant) (key_name : String)
      → Preserves IsSound (persist_config env input limits tenant key_name)
  unfolding persist_config
  persist_config-Sound input limits tenant key_name =
      bind-Preserves IsSound {f = save_config env input limits tenant key_name}
        (resolved_template-Sound (present input.agent_template_id))
        (save_config-Sound input limits tenant key_name)

  put_access-Sound :
      (tenant_id : String) (server : McpServer) (access : Option TenantMcpAccess)
      → Preserves IsSound (put_access env tenant_id server access)
  put_access-Sound tenant_id server (some access) =
      update-Sound env d mcp_access_table (λ rows s p. p) _ _
  put_access-Sound tenant_id server none =
      create-Sound env d mcp_access_table (λ rows s p. p) _ (λ rows n s p. p)

  link_server-Sound :
      (tenant_id : String) (server : Option McpServer)
      → Preserves IsSound (link_server env tenant_id server)
  link_server-Sound tenant_id none = pure-Preserves IsSound
  link_server-Sound tenant_id (some server) =
      bind-Preserves IsSound (find_first-Preserves IsSound env d mcp_access_table _) (λ access.
        bind-Preserves IsSound (put_access-Sound tenant_id server access)
          (λ _. pure-Preserves IsSound))

  link_servers-Sound :
      (tenant_id : String) (names : List String)
      → Preserves IsSound (link_servers env tenant_id names)
  unfolding link_servers
  link_servers-Sound tenant_id [] = pure-Preserves IsSound
  link_servers-Sound tenant_id (name ∷ names) =
      bind-Preserves IsSound
        {f = λ server. link_server env tenant_id server >> link_servers env tenant_id names}
        (find_first-Preserves IsSound env d mcp_server_table (λ m. m.name == name))
        (λ server.
          bind-Preserves IsSound {m = link_server env tenant_id server}
            (link_server-Sound tenant_id server) (λ _. link_servers-Sound tenant_id names))

  dispatch-Sound :
      (input : CreateTenantRequest) (limits : Limits) (tenant : Tenant) (host_id : String)
      → Preserves IsSound (dispatch env input limits tenant host_id)
  dispatch-Sound input limits tenant host_id =
      bind-Preserves IsSound
        (assign_tenant-Sound env d (λ t. t.id == tenant.id)
          (λ t. record t { assigned_host_id = some host_id; status = TenantStatus.provisioning })
          (λ t. refl) (λ t. refl) (λ t k. refl))
        (λ _.
          bind-Preserves IsSound (reserve_capacity-Sound env d host_id (required_of limits)) (λ _.
            bind-Preserves IsSound
              (create_command-Sound env d (creation_row env input limits tenant host_id)
                (λ id. refl))
              (λ command.
                bind-Preserves IsSound (event-Sound env d _ _ _ _ _)
                  (λ _. pure-Preserves IsSound))))

  place-Sound :
      (input : CreateTenantRequest) (limits : Limits) (tenant : Tenant) (host_id : Option String)
      → Preserves IsSound (place env input limits tenant host_id)
  place-Sound input limits tenant none = give_up-Sound tenant
  place-Sound input limits tenant (some host_id) =
      bind-Preserves IsSound (provision-Sound input limits tenant) (λ vkey.
        bind-Preserves IsSound (persist_config-Sound input limits tenant vkey.key_name) (λ _.
          bind-Preserves IsSound (link_servers-Sound tenant.id input.mcp_servers)
            (λ _. dispatch-Sound input limits tenant host_id)))

  admit_slug-Sound :
      (input : CreateTenantRequest) (existing : Option Tenant)
      → Preserves IsSound (admit_slug env input existing)
  admit_slug-Sound input (some existing) = fail-Preserves IsSound
  admit_slug-Sound input none =
      let limits = merge_limits input.resource_limits in
      bind-Preserves IsSound (create_pending-Sound input limits) (λ tenant.
        bind-Preserves IsSound (choose_host-Sound input (required_of limits))
          (λ host. place-Sound input limits tenant (present host)))

  create_tenant-Sound : (input : CreateTenantRequest) → Preserves IsSound (create_tenant env input)
  unfolding create_tenant
  create_tenant-Sound input =
      bind-Preserves IsSound {f = admit_slug env input}
        (find_first-Preserves IsSound env d tenant_table (λ t. t.slug == input.slug))
        (admit_slug-Sound input)

  create_as-Sound :
      (caller : Caller) (input : CreateTenantRequest) (user : SessionUser)
      → Preserves IsSound (create_as env caller input user)
  create_as-Sound caller input user = bind-Preserves IsSound (create_tenant-Sound input) (λ created.
      bind-Preserves IsSound (audit-Sound env d _ _ _ _ _) (λ _. pure-Preserves IsSound))

  pub post_tenant-Sound :
      (caller : Caller) (input : CreateTenantRequest)
      → Preserves IsSound (post_tenant env caller input)
  unfolding post_tenant
  post_tenant-Sound caller input =
      require_user-Preserves IsSound env true caller (create_as env caller input)
        (create_as-Sound caller input)
