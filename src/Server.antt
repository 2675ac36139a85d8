-- ===== src/Server.antt =====
-- The routes that apps/api/src/app.ts registers, behind one another: a request is served from the
-- state that the ones before it left. `Request` has the routes that write, `Query` those that read.
pub mod Keys
pub mod Members
pub mod Preserve
pub mod Sound
pub mod Aside
pub mod HostRoutes
pub mod CommandRoutes
pub mod Polls
pub mod Reports
pub mod TenantRoutes
pub mod Creation
pub mod SideRoutes
pub mod Invariant
pub mod Drain
pub mod Reads
use xoom_agent_control.Prelude.{String, Bool, Option}
use xoom_agent_control.Json.{Fields}
use xoom_agent_control.Prisma.{Documented}
use xoom_agent_control.Rows.{Db}
use xoom_agent_control.Env.{Env}
use xoom_agent_control.Guards.{Caller}
use xoom_agent_control.Requests.{
  CreateTenantRequest, UpdateTenantRequest, TenantAction, MaintenanceStatus, RegisterHostRequest,
  HeartbeatRequest, ForwardLogsRequest, CreateCommandRequest, CommandResultRequest, ListQuery,
  LoginRequest, CreateUserRequest, McpServerInput, McpServerPatch, TenantMcpAccessInput,
  LlmConfigInput, MemoryConfigInput, CreateSecretRequest, AgentTemplateInput, AgentTemplatePatch,
}
use xoom_agent_control.Tenants.Routes.{
  Callback, get_health, post_tenant, patch_tenant, post_action, post_callback,
}
use xoom_agent_control.Hosts.Admin.{list_hosts, approve_host, set_maintenance}
use xoom_agent_control.Hosts.Registration.{register, heartbeat, post_logs}
use xoom_agent_control.Hosts.Queue.{next_command, post_result}
use xoom_agent_control.Commands.{
  CommandQuery, list_commands, get_command, post_command, retry_command,
}
use xoom_agent_control.Hosts.Views.{get_host, get_host_logs}
use xoom_agent_control.Tenants.Views.{list_tenants, get_tenant}
use xoom_agent_control.Templates.{
  list_templates, get_template, create_template, patch_template, delete_template,
}
use xoom_agent_control.McpRoutes.{
  list_servers, list_access, create_server, patch_server, set_access,
}
use xoom_agent_control.SecretRoutes.{list_secrets, post_secret, delete_secret}
use xoom_agent_control.ProviderRoutes.{get_gateway, get_llm, get_memory, put_llm, put_memory}
use xoom_agent_control.Settings.{list_settings, put_setting}
use xoom_agent_control.Accounts.{me, list_users, login, create_user}
use xoom_agent_control.Dashboard.{summary}
use xoom_agent_control.Logs.{
  EventQuery, AuditQuery, UsageQuery, BackupQuery, list_events, list_audit_logs, list_usage,
  list_backups,
}

pub data Request : Type 0 where
  creation : Caller → CreateTenantRequest → Request
  change : Caller → String → UpdateTenantRequest → Request
  action : Caller → String → TenantAction → Option String → Request
  callback : String → Callback → Request
  approval : Caller → String → Bool → Request
  maintenance : Caller → String → MaintenanceStatus → Request
  command : Caller → CreateCommandRequest → Request
  retry : Caller → String → Request
  registration : Option String → Caller → RegisterHostRequest → Request
  beat : Caller → String → HeartbeatRequest → Request
  logs : Caller → String → ForwardLogsRequest → Request
  poll : Caller → String → Request
  report : Caller → String → String → CommandResultRequest → Request
  sign_in : LoginRequest → Request
  user : Caller → CreateUserRequest → Request
  setting : Caller → String → Fields → Request
  server : Caller → McpServerInput → Request
  server_change : Caller → String → McpServerPatch → Request
  grant : Caller → String → TenantMcpAccessInput → Request
  llm_change : Caller → String → LlmConfigInput → Request
  memory_change : Caller → String → MemoryConfigInput → Request
  secret : Caller → CreateSecretRequest → Request
  secret_removal : Caller → String → Request
  new_template : Caller → AgentTemplateInput → Request
  template_change : Caller → String → AgentTemplatePatch → Request
  template_removal : Caller → String → Request

-- The database after the request, whether it is answered, refused or thrown out of.
unfoldable pub serve : Env → Request → Db → Db
unfolding post_tenant patch_tenant post_action post_callback approve_host set_maintenance
    post_command retry_command register heartbeat post_logs next_command post_result login
    create_user put_setting create_server patch_server set_access put_llm put_memory post_secret
    delete_secret create_template patch_template delete_template
serve env (creation caller input) s = (post_tenant env caller input s).1
serve env (change caller id input) s = (patch_tenant env caller id input s).1
serve env (action caller id act version) s = (post_action env caller id act version s).1
serve env (callback id body) s = (post_callback env id body s).1
serve env (approval caller id approved) s = (approve_host env caller id approved s).1
serve env (maintenance caller id status) s = (set_maintenance env caller id status s).1
serve env (command caller body) s = (post_command env caller body s).1
serve env (retry caller id) s = (retry_command env caller id s).1
serve env (registration token caller body) s = (register env token caller body s).1
serve env (beat caller host_id body) s = (heartbeat env caller host_id body s).1
serve env (logs caller host_id body) s = (post_logs env caller host_id body s).1
serve env (poll caller host_id) s = (next_command env caller host_id s).1
serve env (report caller host_id command_id body) s =
    (post_result env caller host_id command_id body s).1
serve env (sign_in body) s = (login env body s).1
serve env (user caller body) s = (create_user env caller body s).1
serve env (setting caller key body) s = (put_setting env caller key body s).1
serve env (server caller body) s = (create_server env caller body s).1
serve env (server_change caller id body) s = (patch_server env caller id body s).1
serve env (grant caller tenant_id body) s = (set_access env caller tenant_id body s).1
serve env (llm_change caller tenant_id body) s = (put_llm env caller tenant_id body s).1
serve env (memory_change caller tenant_id body) s = (put_memory env caller tenant_id body s).1
serve env (secret caller body) s = (post_secret env caller body s).1
serve env (secret_removal caller id) s = (delete_secret env caller id s).1
serve env (new_template caller body) s = (create_template env caller body s).1
serve env (template_change caller id body) s = (patch_template env caller id body s).1
serve env (template_removal caller id) s = (delete_template env caller id s).1

-- The routes that read.
pub data Query : Type 0 where
  current_user : Caller → Query
  users : Caller → Query
  settings : Caller → Query
  tenants : Caller → ListQuery → Query
  tenant : Caller → String → Query
  health : Caller → String → Query
  hosts : Caller → Query
  host : Caller → String → Query
  host_logs : Caller → String → Query
  commands : Caller → CommandQuery → Query
  one_command : Caller → String → Query
  templates : Caller → Query
  template : Caller → String → Query
  servers : Caller → Query
  gateway : Caller → Query
  access : Caller → String → Query
  secrets : Caller → Option String → Query
  llm : Caller → String → Query
  memory : Caller → String → Query
  events : Caller → EventQuery → Query
  audit_logs : Caller → AuditQuery → Query
  usage : Caller → UsageQuery → Query
  backups : Caller → BackupQuery → Query
  dashboard : Caller → Query

unfoldable pub answer : Env → Query → Db → Db
unfolding me list_users list_settings list_tenants get_tenant get_health list_hosts get_host
    get_host_logs list_commands get_command list_templates get_template list_access list_secrets
    get_llm get_memory list_servers get_gateway list_events list_audit_logs list_usage list_backups
    summary
answer env (current_user caller) s = (me env caller s).1
answer env (users caller) s = (list_users env caller s).1
answer env (settings caller) s = (list_settings env caller s).1
answer env (tenants caller q) s = (list_tenants env caller q s).1
answer env (tenant caller id) s = (get_tenant env caller id s).1
answer env (health caller id) s = (get_health env caller id s).1
answer env (hosts caller) s = (list_hosts env caller s).1
answer env (host caller id) s = (get_host env caller id s).1
answer env (host_logs caller id) s = (get_host_logs env caller id s).1
answer env (commands caller q) s = (list_commands env caller q s).1
answer env (one_command caller id) s = (get_command env caller id s).1
answer env (templates caller) s = (list_templates env caller s).1
answer env (template caller id) s = (get_template env caller id s).1
answer env (servers caller) s = (list_servers env caller s).1
answer env (gateway caller) s = (get_gateway env caller s).1
answer env (access caller tenant_id) s = (list_access env caller tenant_id s).1
answer env (secrets caller tenant_id) s = (list_secrets env caller tenant_id s).1
answer env (llm caller tenant_id) s = (get_llm env caller tenant_id s).1
answer env (memory caller tenant_id) s = (get_memory env caller tenant_id s).1
answer env (events caller q) s = (list_events env caller q s).1
answer env (audit_logs caller q) s = (list_audit_logs env caller q s).1
answer env (usage caller q) s = (list_usage env caller q s).1
answer env (backups caller q) s = (list_backups env caller q s).1
answer env (dashboard caller) s = (summary env caller s).1

-- A request is served with a clock, tokens and answers of the outside of its own.
pub data Step : Db → Db → Type 1 where
  served :
      (env : Env)
      → Documented env.client
      → (request : Request) (s : Db) → Step s (serve env request s)

pub data Reachable (s : Db) : Db → Type 1 where
  here : Reachable s s
  next : {t u : Db} → Reachable s t → Step t u → Reachable s u
