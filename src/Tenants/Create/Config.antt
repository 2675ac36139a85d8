-- ===== src/Tenants/Create/Config.antt =====
-- The limits, configurations and payload of a new tenant
-- (apps/api/src/modules/tenants/service.ts).
use xoom_agent_control.Prelude.{
  ℕ, zero, suc, String, true, Option, none, some, [], ◌∷◌, template, get_or,
}
use xoom_agent_control.Json.{Json, null, str, num, bool, arr, obj, object, strings}
use xoom_agent_control.Enums.{TenantStatus}
use xoom_agent_control.Env.{Env}
use xoom_agent_control.Action.{Action, Result}
use xoom_agent_control.Requests.{CreateTenantRequest, LimitsInput, MemoryChoice, LlmConfigInput}
use xoom_agent_control.Scheduler.{RequiredResources}

pub record Limits : Type 0 where
  pub vcpu : ℕ
  pub ram_mb : ℕ
  pub disk_gb : ℕ
  pub max_agents : ℕ
  pub max_monthly_spend : ℕ
  pub max_tokens_per_day : ℕ
  pub max_mcp_tools : ℕ

-- `DEFAULT_LIMITS`
abbrev pub default_limits : Limits
default_limits = record {
  vcpu = 2;
  ram_mb = 4096;
  disk_gb = 40;
  max_agents = 5;
  max_monthly_spend = 0;
  max_tokens_per_day = 0;
  max_mcp_tools = 10;
}

-- `{ ...DEFAULT_LIMITS, ...input }`
unfoldable pub merge_limits : Option LimitsInput → Limits
merge_limits none = default_limits
merge_limits (some input) = record {
  vcpu = get_or input.vcpu 2;
  ram_mb = get_or input.ram_mb 4096;
  disk_gb = get_or input.disk_gb 40;
  max_agents = get_or input.max_agents 5;
  max_monthly_spend = get_or input.max_monthly_spend 0;
  max_tokens_per_day = get_or input.max_tokens_per_day 0;
  max_mcp_tools = get_or input.max_mcp_tools 10;
}

abbrev pub required_of : Limits → RequiredResources
required_of l = record { vcpu = l.vcpu; ram_mb = l.ram_mb; disk_gb = l.disk_gb }

pub record Created : Type 0 where
  pub tenant_id : String
  pub command_id : Option String
  pub status : TenantStatus

-- `input.llm?.field`
abbrev pub llm_field : {A : Type 0} → Option LlmConfigInput → (LlmConfigInput → Option A) → Option A
llm_field none f = none
llm_field (some llm) f = f llm

abbrev pub memory_field : {A : Type 0} → Option MemoryChoice → (MemoryChoice → Option A) → Option A
memory_field none f = none
memory_field (some memory) f = f memory

-- `n || undefined`
abbrev pub positive : ℕ → Option ℕ
positive zero = none
positive (suc n) = some (suc n)

abbrev pub or_else : {A : Type 0} → Option A → Option A → Option A
or_else none b = b
or_else (some a) b = some a

abbrev pub number : Option ℕ → Json
number none = null
number (some n) = num n

-- An outside computation that may throw.
abbrev pub lift : {A : Type 0} → Result A → Action A
lift r s = (r, s)

abbrev pub memory_namespace : CreateTenantRequest → String
memory_namespace input = get_or (memory_field input.memory (λ m. m.namespace)) input.slug

abbrev pub litellm_key_ref : String → String
litellm_key_ref slug = template ("tenant/" ∷ slug ∷ "/litellm_key" ∷ [])

module _ (env : Env) where
  abbrev pub base_url : CreateTenantRequest → String
  base_url input = get_or (llm_field input.llm (λ l. l.base_url)) env.config.litellm_base_url

  abbrev pub llm_config : CreateTenantRequest → Limits → String → Json
  llm_config input limits key_name = obj (
      object (
        ("provider", str "litellm")
        ∷ ("base_url", str (base_url input))
        ∷ ("virtual_key_secret_ref", str (litellm_key_ref input.slug))
        ∷ (
          "model_allowlist",
          arr (strings (get_or (llm_field input.llm (λ l. l.model_allowlist)) [])),
        )
        ∷ (
          "fallback_models",
          arr (strings (get_or (llm_field input.llm (λ l. l.fallback_models)) [])),
        )
        ∷ (
          "max_monthly_spend",
          num (get_or (llm_field input.llm (λ l. l.max_monthly_spend)) limits.max_monthly_spend),
        )
        ∷ ("rate_limit_rpm", number (llm_field input.llm (λ l. l.rate_limit_rpm)))
        ∷ ("virtual_key_name", str key_name)
        ∷ []))

  abbrev pub memory_config : CreateTenantRequest → Json
  memory_config input = obj (
      object (
        ("provider", str (get_or (memory_field input.memory (λ m. some m.provider)) "supermemory"))
        ∷ ("namespace", str (memory_namespace input))
        ∷ ("enabled", bool true)
        ∷ []))

  abbrev pub mcp_config : CreateTenantRequest → Json
  mcp_config input = obj (object (("enabled_servers", arr (strings input.mcp_servers)) ∷ []))

  -- The payload of the `create_tenant` command.
  abbrev pub create_payload : CreateTenantRequest → Limits → String → String → Json
  create_payload input limits tenant_id host_id = obj (
      object (
        ("tenant_slug", str input.slug)
        ∷ ("tenant_name", str input.name)
        ∷ ("runtime", str input.runtime_type)
        ∷ ("runtime_version", str input.runtime_version)
        ∷ (
          "resources",
          obj (
              object (
                ("vcpu", num limits.vcpu)
                ∷ ("ram_mb", num limits.ram_mb)
                ∷ ("disk_gb", num limits.disk_gb)
                ∷ [])),
        )
        ∷ (
          "llm",
          obj (
              object (
                ("provider", str "litellm")
                ∷ ("base_url", str (base_url input))
                ∷ ("virtual_key_secret_ref", str (litellm_key_ref input.slug))
                ∷ (
                  "model_allowlist",
                  arr (strings (get_or (llm_field input.llm (λ l. l.model_allowlist)) [])),
                )
                ∷ [])),
        )
        ∷ (
          "memory",
          obj (
              object (
                (
                  "provider",
                  str (get_or (memory_field input.memory (λ m. some m.provider)) "supermemory"),
                )
                ∷ ("namespace", str (memory_namespace input))
                ∷ [])),
        )
        ∷ ("mcp", mcp_config input)
        ∷ (
          "webhook_callback_url",
          str (
              template
                (env.config.api_public_url ∷ "/api/tenants/" ∷ tenant_id ∷ "/callback" ∷ [])),
        )
        ∷ (
          "log_forward_url",
          str (template (env.config.api_public_url ∷ "/api/hosts/" ∷ host_id ∷ "/logs" ∷ [])),
        )
        ∷ []))
