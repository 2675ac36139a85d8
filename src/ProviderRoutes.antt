-- ===== src/ProviderRoutes.antt =====
-- apps/api/src/modules/{llm,memory}/routes.ts: the settings of a tenant for language models and
-- memory, which stand as JSON in its runtime configuration.
pub mod Kept
use xoom_agent_control.Prelude.{
  ℕ, String, Bool, true, false, ◌==◌, Option, none, some, List, [], ◌∷◌, get_or, present,
  if◌then◌else◌,
}
use xoom_agent_control.Json.{
  Json, null, bool, num, str, arr, obj, Fields, end, field, object, strings, get, truthy, to_string,
}
use xoom_agent_control.Rows.{TenantRuntimeConfig}
use xoom_agent_control.Env.{Env, SessionUser}
use xoom_agent_control.Guards.{Caller, require_user}
use xoom_agent_control.Action.{Action, Reply, send, pure, reject, ◌>>=◌, ◌>>◌}
use xoom_agent_control.Tables.{runtime_config_table}
use xoom_agent_control.Query.{find_first, update}
use xoom_agent_control.Audit.{llm_budget_changed, record_audit}
use xoom_agent_control.Requests.{LlmConfigInput, MemoryConfigInput}
use xoom_agent_control.Providers.{update_virtual_key, ensure_namespace}
use xoom_agent_control.Tenants.Routes.{context_of}

-- `{ ...fields, key: value }`: a key that is there keeps its place.
unfoldable pub set_field : String → Json → Fields → Fields
set_field key value end = field key value end
set_field key value (field k v rest) =
    let others = set_field key value rest in
    if k == key then field key value rest else field k v others

-- `(json ?? {}) as Record<string, unknown>`: only objects are stored there.
abbrev pub fields_of : Option Json → Fields
fields_of (some (obj fields)) = fields
fields_of _ = end

-- `current.key ?? fallback`
abbrev current_or : Option Json → Json → Json
current_or none fallback = fallback
current_or (some null) fallback = fallback
current_or (some v) fallback = v

-- `input ?? current.key ?? fallback`
abbrev pub chosen : Option Json → Option Json → Json → Json
chosen (some v) current fallback = v
chosen none current fallback = current_or current fallback

abbrev number : Option ℕ → Option Json
number none = none
number (some n) = some (num n)

abbrev text : Option String → Option Json
text none = none
text (some s) = some (str s)

abbrev texts : Option (List String) → Option Json
texts none = none
texts (some ss) = some (arr (strings ss))

abbrev number_or_null : Option ℕ → Json
number_or_null none = null
number_or_null (some n) = num n

abbrev pub llm_column : Option TenantRuntimeConfig → Option Json
llm_column none = none
llm_column (some c) = c.llm_config

-- `Boolean(text)`, on the text that is there
abbrev is_configured : Option String → Bool
is_configured none = false
is_configured (some key) = true

module _ (env : Env) where
  -- `next`
  unfoldable pub next_llm : LlmConfigInput → Fields → Fields
  unfolding get set_field
  next_llm b current =
      set_field "fallback_models"
        (chosen (texts b.fallback_models) (get "fallback_models" current) (arr (strings [])))
        (set_field "rate_limit_rpm"
          (chosen (number b.rate_limit_rpm) (get "rate_limit_rpm" current) null)
          (set_field "max_monthly_spend"
            (chosen (number b.max_monthly_spend) (get "max_monthly_spend" current) (num 0))
            (set_field "model_allowlist"
              (chosen (texts b.model_allowlist) (get "model_allowlist" current) (arr (strings [])))
              (set_field "base_url"
                (chosen (text b.base_url) (get "base_url" current)
                  (str env.config.litellm_base_url))
                current))))

  abbrev pub rekey : Option Json → LlmConfigInput → Action Unit
  rekey none b = pure tt
  rekey (some name) b =
      if truthy name
      then update_virtual_key env (to_string name) (record {
        model_allowlist = b.model_allowlist;
        max_budget_usd = b.max_monthly_spend;
        rpm_limit = b.rate_limit_rpm;
      })
      else pure tt

  abbrev pub save_llm :
      Caller
      → String
      → LlmConfigInput
      → SessionUser
      → Option TenantRuntimeConfig
      → Action (Reply Fields)
  save_llm caller tenant_id b user config = do
    let current = fields_of (llm_column config)
    let next = next_llm b current
    rekey (get "virtual_key_name" current) b
    update env runtime_config_table (λ c. c.tenant_id == tenant_id)
        (λ c. record c { llm_config = some (obj next) })
    record_audit env (context_of user caller) llm_budget_changed "tenant" tenant_id
        (obj (object (("max_monthly_spend", get_or (get "max_monthly_spend" next) null) ∷ [])))
    pure (send 200 next)

  abbrev pub put_llm_as : Caller → String → LlmConfigInput → SessionUser → Action (Reply Fields)
  put_llm_as caller tenant_id b user =
      find_first env runtime_config_table (λ c. c.tenant_id == tenant_id)
      >>= save_llm caller tenant_id b user

  -- PUT /api/llm/tenants/:tenant_id
  unfoldable pub put_llm : Caller → String → LlmConfigInput → Action (Reply Fields)
  unfolding require_user find_first get to_string update_virtual_key next_llm update record_audit
  put_llm caller tenant_id b = require_user env true caller (put_llm_as caller tenant_id b)

  abbrev pub llm_found : Option TenantRuntimeConfig → Action (Reply Json)
  llm_found none = reject 404 "not_found"
  llm_found (some c) =
      pure (send 200 (current_or c.llm_config (obj (object (("provider", str "litellm") ∷ [])))))

  -- GET /api/llm/gateway: the address, and whether there is a key for administration
  unfoldable pub get_gateway : Caller → Action (Reply (String × Bool))
  unfolding require_user present
  get_gateway caller = require_user env false caller λ user.
      pure (
        send 200
          (env.config.litellm_base_url, is_configured (present env.config.litellm_admin_key)))

  -- GET /api/llm/tenants/:tenant_id
  unfoldable pub get_llm : Caller → String → Action (Reply Json)
  unfolding require_user find_first
  get_llm caller tenant_id = require_user env false caller λ user. do
    config ← find_first env runtime_config_table (λ c. c.tenant_id == tenant_id)
    llm_found config

  abbrev pub memory_found : Option TenantRuntimeConfig → Action (Reply Json)
  memory_found none = reject 404 "not_found"
  memory_found (some c) = pure (
      send 200 (
        current_or c.memory_config
          (obj (object (("provider", str "supermemory") ∷ ("enabled", bool false) ∷ [])))))

  -- GET /api/memory/tenants/:tenant_id
  unfoldable pub get_memory : Caller → String → Action (Reply Json)
  unfolding require_user find_first
  get_memory caller tenant_id = require_user env false caller λ user. do
    config ← find_first env runtime_config_table (λ c. c.tenant_id == tenant_id)
    memory_found config

  abbrev pub memory_json : String → MemoryConfigInput → Json
  memory_json namespace b = obj (
      object (
        ("provider", str b.provider)
        ∷ ("namespace", str namespace)
        ∷ ("retention_days", number_or_null b.retention_days)
        ∷ ("enabled", bool b.enabled)
        ∷ []))

  abbrev pub put_memory_as : Caller → String → MemoryConfigInput → SessionUser → Action (Reply Json)
  put_memory_as caller tenant_id b user = do
    let namespace = get_or b.namespace tenant_id
    ensure_namespace env namespace b.retention_days
    update env runtime_config_table (λ c. c.tenant_id == tenant_id)
        (λ c. record c { memory_config = some (memory_json namespace b) })
    pure (send 200 (memory_json namespace b))

  -- PUT /api/memory/tenants/:tenant_id
  unfoldable pub put_memory : Caller → String → MemoryConfigInput → Action (Reply Json)
  unfolding require_user ensure_namespace update
  put_memory caller tenant_id b = require_user env true caller (put_memory_as caller tenant_id b)
