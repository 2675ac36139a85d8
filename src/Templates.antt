-- ===== src/Templates.antt =====
-- apps/api/src/modules/templates/routes.ts: the agent templates.
use xoom_agent_control.Prelude.{String, true, false, ◌==◌, Option, none, some, List, get_or}
use xoom_agent_control.Json.{arr, obj, end, nil}
use xoom_agent_control.Rows.{AgentTemplate}
use xoom_agent_control.Env.{Env, SessionUser}
use xoom_agent_control.Guards.{Caller, require_user}
use xoom_agent_control.Action.{Action, Reply, send, pure, reject, ◌>>=◌, ◌>>◌}
use xoom_agent_control.Tables.{template_table}
use xoom_agent_control.Query.{find_first, find_many_by, create, update_unique, delete}
use xoom_agent_control.Requests.{AgentTemplateInput, AgentTemplatePatch}

-- `data: { column: asJson(input) }`: what is undefined keeps the column.
abbrev pub kept : {A : Type 0} → Option A → Option A → Option A
kept none current = current
kept (some a) current = some a

abbrev pub new_template : AgentTemplateInput → String → AgentTemplate
new_template b id = record {
  id = id;
  name = b.name;
  description = b.description;
  default_system_prompt = b.default_system_prompt;
  skills = some (get_or b.skills (arr nil));
  schedules = some (get_or b.schedules (arr nil));
  mcp_tools = some (get_or b.mcp_tools (arr nil));
  memory_policy = some (get_or b.memory_policy (obj end));
  llm_policy = some (get_or b.llm_policy (obj end));
}

abbrev pub patched_template : AgentTemplatePatch → AgentTemplate → AgentTemplate
patched_template b t = record t {
  name = get_or b.name t.name;
  description = kept b.description t.description;
  default_system_prompt = kept b.default_system_prompt t.default_system_prompt;
  skills = kept b.skills t.skills;
  schedules = kept b.schedules t.schedules;
  mcp_tools = kept b.mcp_tools t.mcp_tools;
  memory_policy = kept b.memory_policy t.memory_policy;
  llm_policy = kept b.llm_policy t.llm_policy;
}

module _ (env : Env) where
  -- GET /
  unfoldable pub list_templates : Caller → Action (Reply (List AgentTemplate))
  unfolding require_user find_many_by
  list_templates caller = require_user env false caller λ user. do
    templates ← find_many_by env template_table (λ a b. env.text_le a.name b.name) (λ t. true)
    pure (send 200 templates)

  abbrev pub template_found : Option AgentTemplate → Action (Reply AgentTemplate)
  template_found none = reject 404 "not_found"
  template_found (some template) = pure (send 200 template)

  -- GET /:id
  unfoldable pub get_template : Caller → String → Action (Reply AgentTemplate)
  unfolding require_user find_first
  get_template caller id =
      require_user env false caller λ user. do
        template ← find_first env template_table (λ t. t.id == id)
        template_found template

  abbrev pub create_template_as :
      Caller → AgentTemplateInput → SessionUser → Action (Reply AgentTemplate)
  create_template_as caller b user = do
    template ← create env template_table (new_template b)
    pure (send 201 template)

  -- POST /
  unfoldable pub create_template : Caller → AgentTemplateInput → Action (Reply AgentTemplate)
  unfolding require_user create
  create_template caller b = require_user env true caller (create_template_as caller b)

  abbrev pub patch_template_as :
      Caller → String → AgentTemplatePatch → SessionUser → Action (Reply AgentTemplate)
  patch_template_as caller id b user = do
    template ← update_unique env template_table (λ t. t.id == id) (patched_template b)
    pure (send 200 template)

  -- PATCH /:id
  unfoldable pub patch_template :
      Caller → String → AgentTemplatePatch → Action (Reply AgentTemplate)
  unfolding require_user update_unique
  patch_template caller id b = require_user env true caller (patch_template_as caller id b)

  abbrev pub delete_template_as : Caller → String → SessionUser → Action (Reply Unit)
  delete_template_as caller id user = do
    delete env template_table (λ t. t.id == id)
    pure (send 200 tt)

  -- DELETE /:id
  unfoldable pub delete_template : Caller → String → Action (Reply Unit)
  unfolding require_user delete
  delete_template caller id = require_user env true caller (delete_template_as caller id)
