-- ===== src/Agent/Payload.antt =====
-- `CreateTenantCommandPayload` of packages/shared-types/src/host-agent.ts: what its validation makes
-- of a JSON value. Whether a text is a URL is for the validator to say.
pub mod Accepted
use xoom_agent_control.Prelude.{
  ℕ, suc, String, Bool, Option, none, some, List, [], ◌∷◌, if◌then◌else◌,
}
use xoom_agent_control.Json.{Json, str, num, arr, obj, Items, nil, cons, Fields, get}

pub record Resources : Type 0 where
  pub vcpu : ℕ
  pub ram_mb : ℕ
  pub disk_gb : ℕ

pub record Llm : Type 0 where
  pub provider : String
  pub base_url : String
  pub virtual_key_secret_ref : String
  pub model_allowlist : Option (List String)

pub record Memory : Type 0 where
  pub provider : String
  pub namespace : String
  pub api_key_secret_ref : Option String

pub record CreateTenantCommandPayload : Type 0 where
  pub tenant_slug : String
  pub tenant_name : Option String
  pub runtime : String
  pub runtime_version : String
  pub resources : Resources
  pub llm : Option Llm
  pub memory : Option Memory
  -- `mcp.enabled_servers`
  pub mcp : Option (List String)
  pub webhook_callback_url : Option String
  pub log_forward_url : Option String

infixl 5 ◌>>=◌
abbrev ◌>>=◌ : {A B : Type 0} → Option A → (A → Option B) → Option B
none >>= f = none
some a >>= f = f a

-- `z.string()`
abbrev text : Option Json → Option String
text (some (str s)) = some s
text _ = none

-- `z.string().default(d)`
abbrev text_or : String → Option Json → Option String
text_or d none = some d
text_or d (some v) = text (some v)

-- `.optional()`
abbrev optional : {A : Type 0} → (Option Json → Option A) → Option Json → Option (Option A)
optional parse none = some none
optional parse (some v) = do a ← parse (some v); some (some a)

-- `z.number().int().positive()`
abbrev pub positive : Option Json → Option ℕ
positive (some (num (suc n))) = some (suc n)
positive _ = none

-- `z.object({ … })`
abbrev shape : {A : Type 0} → (Fields → Option A) → Option Json → Option A
shape parse (some (obj fields)) = parse fields
shape parse _ = none

abbrev pub texts_of : Items → Option (List String)
texts_of nil = some []
texts_of (cons v vs) = do s ← text (some v); rest ← texts_of vs; some (s ∷ rest)

-- `z.array(z.string())`
abbrev texts : Option Json → Option (List String)
texts (some (arr vs)) = texts_of vs
texts _ = none

abbrev texts_or_none : Option Json → Option (List String)
texts_or_none none = some []
texts_or_none (some v) = texts (some v)

-- `z.string().url()`
abbrev url : (String → Bool) → Option Json → Option String
url is_url v = do s ← text v; if is_url s then some s else none

abbrev resources_of : Fields → Option Resources
resources_of f = do
  vcpu ← positive (get "vcpu" f)
  ram_mb ← positive (get "ram_mb" f)
  disk_gb ← positive (get "disk_gb" f)
  some (record { vcpu = vcpu; ram_mb = ram_mb; disk_gb = disk_gb })

abbrev llm_of : (String → Bool) → Fields → Option Llm
llm_of is_url f = do
  provider ← text_or "litellm" (get "provider" f)
  base_url ← url is_url (get "base_url" f)
  ref ← text (get "virtual_key_secret_ref" f)
  models ← optional texts (get "model_allowlist" f)
  some (record {
    provider = provider;
    base_url = base_url;
    virtual_key_secret_ref = ref;
    model_allowlist = models;
  })

abbrev memory_of : Fields → Option Memory
memory_of f = do
  provider ← text_or "supermemory" (get "provider" f)
  namespace ← text (get "namespace" f)
  ref ← optional text (get "api_key_secret_ref" f)
  some (record { provider = provider; namespace = namespace; api_key_secret_ref = ref })

abbrev mcp_of : Fields → Option (List String)
mcp_of f = texts_or_none (get "enabled_servers" f)

abbrev payload_of : (String → Bool) → Fields → Option CreateTenantCommandPayload
payload_of is_url f = do
  slug ← text (get "tenant_slug" f)
  name ← optional text (get "tenant_name" f)
  runtime ← text_or "swarmclaw" (get "runtime" f)
  version ← text_or "latest" (get "runtime_version" f)
  resources ← shape resources_of (get "resources" f)
  llm ← optional (shape (llm_of is_url)) (get "llm" f)
  memory ← optional (shape memory_of) (get "memory" f)
  mcp ← optional (shape mcp_of) (get "mcp" f)
  webhook ← optional (url is_url) (get "webhook_callback_url" f)
  logs ← optional (url is_url) (get "log_forward_url" f)
  some (record {
    tenant_slug = slug;
    tenant_name = name;
    runtime = runtime;
    runtime_version = version;
    resources = resources;
    llm = llm;
    memory = memory;
    mcp = mcp;
    webhook_callback_url = webhook;
    log_forward_url = logs;
  })

-- `safeParse`, which answers `none` where `parse` throws.
unfoldable pub safe_parse : (String → Bool) → Json → Option CreateTenantCommandPayload
unfolding get
safe_parse is_url v = shape (payload_of is_url) (some v)
