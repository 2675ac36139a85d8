-- ===== src/Console/Dialog.antt =====
-- The dialog of apps/web/src/app/(dashboard)/tenants/page.tsx that creates a tenant: its fields, and
-- the body that it sends. `toLowerCase` is given, and the number fields hold natural numbers.
pub mod Typing
use xoom_agent_control.Prelude.{
  ℕ, ◌*◌, String, Bool, true, false, not, ◌||◌, ◌==◌, Option, none, some, List, [], ◌∷◌, ◌++◌,
  present, select, if◌then◌else◌,
}
use xoom_agent_control.Requests.{CreateTenantRequest, LimitsInput, LlmConfigInput, MemoryChoice}
use xoom_agent_control.Console.Slug.{suggest}

pub record Dialog : Type 0 where
  pub name : String
  pub slug : String
  pub host_id : String
  pub template_id : String
  pub vcpu : ℕ
  pub ram_gb : ℕ
  pub disk_gb : ℕ
  pub budget : ℕ
  pub selected_mcp : List String

-- What `useState` starts with.
abbrev pub opened : Dialog
opened = record {
  name = "";
  slug = "";
  host_id = "";
  template_id = "";
  vcpu = 2;
  ram_gb = 4;
  disk_gb = 40;
  budget = 100;
  selected_mcp = [];
}

-- `onChange` of the name, on the new text of the field
unfoldable pub type_name : (String → String) → String → Dialog → Dialog
unfolding suggest
type_name to_lower_case value f = record f {
  name = value;
  slug = if f.slug == "" then suggest to_lower_case value else f.slug;
}

-- The name is typed: one event for every text that the field takes in turn.
unfoldable pub type_names : (String → String) → List String → Dialog → Dialog
unfolding type_name
type_names to_lower_case [] f = f
type_names to_lower_case (value ∷ values) f =
    type_names to_lower_case values (type_name to_lower_case value f)

-- `selectedMcp.includes(name)`
unfoldable pub is_selected : String → List String → Bool
is_selected name [] = false
is_selected name (x ∷ xs) = x == name || is_selected name xs

-- `onClick` of a tag
unfoldable pub toggle : String → List String → List String
unfolding is_selected select
toggle name selected =
    if is_selected name selected
    then select (λ x. not (x == name)) selected
    else selected ++ name ∷ []

-- Whether the button is enabled, while nothing is sent.
unfoldable pub can_submit : Dialog → Bool
can_submit f = not (f.name == "" || f.slug == "")

-- The body, with the defaults of `CreateTenantRequest` for what it leaves out
unfoldable pub request_of : Dialog → CreateTenantRequest
unfolding present
request_of f = record {
  name = f.name;
  slug = f.slug;
  runtime_type = "swarmclaw";
  runtime_version = "latest";
  domain = none;
  assigned_host_id = present (some f.host_id);
  auto_select_host = f.host_id == "";
  resource_limits = some (record {
    vcpu = some f.vcpu;
    ram_mb = some (f.ram_gb * 1024);
    disk_gb = some f.disk_gb;
    max_agents = none;
    max_monthly_spend = none;
    max_tokens_per_day = none;
    max_mcp_tools = none;
  });
  agent_template_id = present (some f.template_id);
  mcp_servers = f.selected_mcp;
  memory = some (record { provider = "supermemory"; namespace = some f.slug });
  llm = some (record {
    base_url = none;
    model_allowlist = none;
    max_monthly_spend = some f.budget;
    rate_limit_rpm = none;
    fallback_models = none;
  });
}
