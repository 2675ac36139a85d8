-- ===== src/Tenants/Create/Steps.antt =====
-- The steps of `createTenant` (apps/api/src/modules/tenants/service.ts) up to the dispatch.
use xoom_agent_control.Prelude.{
  String, Bool, true, false, not, ◌&&◌, ◌==◌, Option, none, some, List, [], ◌∷◌, template, present,
}
use xoom_agent_control.Json.{Json, arr, obj, object, items, null, str, Fields}
use xoom_agent_control.Enums.{TenantStatus, pending, info, error, local}
use xoom_agent_control.Rows.{
  Tenant, TenantRuntimeConfig, SecretReference, AgentTemplate, McpServer, TenantMcpAccess,
}
use xoom_agent_control.Env.{Env, VirtualKeySpec}
use xoom_agent_control.Action.{Action, pure, atomic, ◌>>=◌, ◌>>◌}
use xoom_agent_control.Tables.{
  tenant_table, limit_table, secret_table, template_table, runtime_config_table, mcp_server_table,
  mcp_access_table,
}
use xoom_agent_control.Query.{find_first, create, update}
use xoom_agent_control.Audit.{record_tenant_event, no_metadata}
use xoom_agent_control.Requests.{CreateTenantRequest}
use xoom_agent_control.Secrets.{encrypt_value}
use xoom_agent_control.Providers.{VirtualKeyResult, create_virtual_key, ensure_namespace}
use xoom_agent_control.Scheduler.{RequiredResources, select_host_for_tenant}
use xoom_agent_control.Tenants.Create.Config.{
  Limits, Created, llm_field, memory_field, positive, or_else, lift, memory_namespace,
  litellm_key_ref, llm_config, memory_config, mcp_config,
}

abbrev maybe_json : Option Json → Json
maybe_json none = null
maybe_json (some v) = v

abbrev maybe_text : Option String → Json
maybe_text none = null
maybe_text (some s) = str s

-- A template as the snapshot of a runtime configuration holds it, without its two times.
abbrev pub template_fields : AgentTemplate → Fields
template_fields t = object (
    ("id", str t.id)
    ∷ ("name", str t.name)
    ∷ ("description", maybe_text t.description)
    ∷ ("defaultSystemPrompt", maybe_text t.default_system_prompt)
    ∷ ("skillsJson", maybe_json t.skills)
    ∷ ("schedulesJson", maybe_json t.schedules)
    ∷ ("mcpToolsJson", maybe_json t.mcp_tools)
    ∷ ("memoryPolicyJson", maybe_json t.memory_policy)
    ∷ ("llmPolicyJson", maybe_json t.llm_policy)
    ∷ [])

module _ (env : Env) where
  -- The nested create: the row of a pending tenant, and that of its limits.
  abbrev pub create_with_limits : CreateTenantRequest → Limits → Action Tenant
  create_with_limits input limits = do
    tenant ← create env tenant_table (λ id. record {
      id = id;
      name = input.name;
      slug = input.slug;
      status = pending;
      assigned_host_id = none;
      runtime_type = input.runtime_type;
      runtime_version = input.runtime_version;
      domain = input.domain;
    })
    create env limit_table (λ _. record {
      tenant_id = tenant.id;
      vcpu = limits.vcpu;
      ram_mb = limits.ram_mb;
      disk_gb = limits.disk_gb;
      max_agents = limits.max_agents;
      max_monthly_spend = limits.max_monthly_spend;
      max_tokens_per_day = limits.max_tokens_per_day;
      max_mcp_tools = limits.max_mcp_tools;
    })
    pure tenant

  -- 1. The tenant and its limits, in one write.
  abbrev pub create_pending : CreateTenantRequest → Limits → Action Tenant
  create_pending input limits = do
    tenant ← atomic (create_with_limits input limits)
    record_tenant_event env tenant.id "tenant.created" info
        (template ("Tenant " ∷ input.slug ∷ " created (pending)" ∷ [])) no_metadata
    pure tenant

  abbrev pub host_choice : Bool → Option String → RequiredResources → Action (Option String)
  host_choice auto (some id) required = pure (some id)
  host_choice true none required = select_host_for_tenant env required
  host_choice false none required = pure none

  -- 2. The host: the pinned one, else the scheduler's.
  unfoldable pub choose_host : CreateTenantRequest → RequiredResources → Action (Option String)
  unfolding present select_host_for_tenant
  choose_host input required =
      host_choice input.auto_select_host (present input.assigned_host_id) required

  -- No host: the tenant is failed.
  abbrev pub give_up : Tenant → Action Created
  give_up tenant = do
    update env tenant_table (λ t. t.id == tenant.id)
        (λ t. record t { status = TenantStatus.failed })
    record_tenant_event env tenant.id "tenant.schedule_failed" error
        "No host with sufficient capacity" no_metadata
    pure (record { tenant_id = tenant.id; command_id = none; status = TenantStatus.failed })

  abbrev pub key_spec : CreateTenantRequest → Limits → VirtualKeySpec
  key_spec input limits = record {
    tenant_slug = input.slug;
    model_allowlist = llm_field input.llm (λ l. l.model_allowlist);
    max_budget_usd =
        or_else (llm_field input.llm (λ l. l.max_monthly_spend))
          (positive limits.max_monthly_spend);
    rpm_limit = llm_field input.llm (λ l. l.rate_limit_rpm);
  }

  abbrev pub key_row : CreateTenantRequest → Tenant → String → String → SecretReference
  key_row input tenant sealed id = record {
    id = id;
    tenant_id = some tenant.id;
    name = "litellm_key";
    provider = local;
    external_secret_ref = litellm_key_ref input.slug;
    encrypted_value = some sealed;
  }

  abbrev pub store_key :
      CreateTenantRequest → Tenant → VirtualKeyResult → String → Action VirtualKeyResult
  store_key input tenant vkey sealed = do
    create env secret_table (key_row input tenant sealed)
    ensure_namespace env (memory_namespace input) (memory_field input.memory (λ _. some 90))
    pure vkey

  abbrev pub keep_key : CreateTenantRequest → Tenant → VirtualKeyResult → Action VirtualKeyResult
  keep_key input tenant vkey = do
    sealed ← lift (encrypt_value env vkey.key env.config.secrets_master_key)
    store_key input tenant vkey sealed

  -- 3. The virtual key, with its secret, and the memory namespace.
  unfoldable pub provision : CreateTenantRequest → Limits → Tenant → Action VirtualKeyResult
  unfolding create_virtual_key encrypt_value create ensure_namespace
  provision input limits tenant = do
    vkey ← create_virtual_key env (key_spec input limits)
    keep_key input tenant vkey

  abbrev pub snapshot : Option AgentTemplate → Json
  snapshot none = arr (items [])
  snapshot (some t) = arr (items (obj (template_fields t) ∷ []))

  abbrev pub resolved_template : Option String → Action (Option AgentTemplate)
  resolved_template none = pure none
  resolved_template (some id) = find_first env template_table (λ t. t.id == id)

  abbrev pub config_row :
      CreateTenantRequest
      → Limits
      → Tenant
      → String
      → Option AgentTemplate
      → String
      → TenantRuntimeConfig
  config_row input limits tenant key_name template _ = record {
    tenant_id = tenant.id;
    swarmclaw_version = input.runtime_version;
    agent_templates = snapshot template;
    skills = arr (items []);
    schedules = arr (items []);
    mcp_config = mcp_config env input;
    memory_config = some (memory_config env input);
    llm_config = some (llm_config env input limits key_name);
    environment = obj (object []);
  }

  abbrev pub save_config :
      CreateTenantRequest → Limits → Tenant → String → Option AgentTemplate → Action Unit
  save_config input limits tenant key_name template = do
    create env runtime_config_table (config_row input limits tenant key_name template)
    pure tt

  -- 4. The runtime configuration.
  unfoldable pub persist_config : CreateTenantRequest → Limits → Tenant → String → Action Unit
  unfolding find_first create present
  persist_config input limits tenant key_name = do
    template ← resolved_template (present input.agent_template_id)
    save_config input limits tenant key_name template

  abbrev pub access_row : String → McpServer → String → TenantMcpAccess
  access_row tenant_id server id = record {
    id = id;
    tenant_id = tenant_id;
    mcp_server_id = server.id;
    enabled = true;
    agent_scope = [];
    approved = not server.approval_required;
  }

  abbrev pub put_access : String → McpServer → Option TenantMcpAccess → Action TenantMcpAccess
  put_access tenant_id server (some access) =
      update env mcp_access_table (λ a. a.id == access.id)
        (λ a. record a { enabled = true; approved = not server.approval_required })
  put_access tenant_id server none = create env mcp_access_table (access_row tenant_id server)

  abbrev pub link_server : String → Option McpServer → Action Unit
  link_server tenant_id none = pure tt
  link_server tenant_id (some server) = do
    access ←
        find_first env mcp_access_table
          (λ a. a.tenant_id == tenant_id && a.mcp_server_id == server.id)
    put_access tenant_id server access
    pure tt

  -- The access rows, for those servers that the registry has.
  unfoldable pub link_servers : String → List String → Action Unit
  unfolding find_first create update
  link_servers tenant_id [] = pure tt
  link_servers tenant_id (name ∷ names) = do
    server ← find_first env mcp_server_table (λ m. m.name == name)
    link_server tenant_id server
    link_servers tenant_id names
