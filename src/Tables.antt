-- ===== src/Tables.antt =====
-- The queries of the database client (`db.<table>.<operation>`) as actions, with the constraints of
-- packages/db/prisma/schema.prisma: primary keys, `@unique` columns and foreign keys.
use xoom_agent_control.Prelude.{
  String, Bool, true, false, ◌&&◌, ◌||◌, Option, none, some, List, find, ◌==◌,
}
use xoom_agent_control.Rows.{
  Db, User, Host, HostHeartbeat, Tenant, TenantResourceLimit, TenantRuntimeConfig, HostCommand,
  TenantEvent, AuditLog, SecretReference, AgentTemplate, McpServer, TenantMcpAccess, Backup,
  PlatformSetting, UsageMetric,
}

-- A table: where its rows are kept, which two rows exclude one another, and whether the rows that a
-- row refers to exist.
pub record Table (Row : Type 0) : Type 0 where
  pub rows : Db → List Row
  pub set_rows : List Row → Db → Db
  pub conflict : Row → Row → Bool
  pub linked : Db → Row → Bool

abbrev pub is_some : {A : Type 0} → Option A → Bool
is_some none = false
is_some (some _) = true

unfoldable pub has_host : Db → String → Bool
has_host s id = is_some (find (λ (h : Host). h.id == id) s.hosts)

unfoldable pub has_tenant : Db → String → Bool
has_tenant s id = is_some (find (λ (t : Tenant). t.id == id) s.tenants)

unfoldable pub has_user : Db → String → Bool
has_user s id = is_some (find (λ (u : User). u.id == id) s.users)

unfoldable pub has_mcp_server : Db → String → Bool
has_mcp_server s id = is_some (find (λ (m : McpServer). m.id == id) s.mcp_servers)

-- A foreign key that may be null.
abbrev optional : (String → Bool) → Option String → Bool
optional has none = true
optional has (some id) = has id

abbrev same_key : Option String → Option String → Bool
same_key (some a) (some b) = a == b
same_key _ _ = false

abbrev pub user_table : Table User
user_table = record {
  rows = λ s. s.users;
  set_rows = λ rows s. record s { users = rows };
  conflict = λ a b. a.id == b.id || a.email == b.email;
  linked = λ s u. true;
}

abbrev pub host_table : Table Host
host_table = record {
  rows = λ s. s.hosts;
  set_rows = λ rows s. record s { hosts = rows };
  conflict = λ a b. a.id == b.id;
  linked = λ s h. true;
}

abbrev pub heartbeat_table : Table HostHeartbeat
heartbeat_table = record {
  rows = λ s. s.heartbeats;
  set_rows = λ rows s. record s { heartbeats = rows };
  conflict = λ a b. a.id == b.id;
  linked = λ s h. has_host s h.host_id;
}

abbrev pub tenant_table : Table Tenant
tenant_table = record {
  rows = λ s. s.tenants;
  set_rows = λ rows s. record s { tenants = rows };
  conflict = λ a b. a.id == b.id || a.slug == b.slug;
  linked = λ s t. optional (has_host s) t.assigned_host_id;
}

abbrev pub limit_table : Table TenantResourceLimit
limit_table = record {
  rows = λ s. s.limits;
  set_rows = λ rows s. record s { limits = rows };
  conflict = λ a b. a.tenant_id == b.tenant_id;
  linked = λ s l. has_tenant s l.tenant_id;
}

abbrev pub runtime_config_table : Table TenantRuntimeConfig
runtime_config_table = record {
  rows = λ s. s.runtime_configs;
  set_rows = λ rows s. record s { runtime_configs = rows };
  conflict = λ a b. a.tenant_id == b.tenant_id;
  linked = λ s c. has_tenant s c.tenant_id;
}

abbrev pub command_table : Table HostCommand
command_table = record {
  rows = λ s. s.commands;
  set_rows = λ rows s. record s { commands = rows };
  conflict = λ a b. a.id == b.id;
  linked = λ s c. has_host s c.host_id && optional (has_tenant s) c.tenant_id;
}

abbrev pub event_table : Table TenantEvent
event_table = record {
  rows = λ s. s.events;
  set_rows = λ rows s. record s { events = rows };
  conflict = λ a b. a.id == b.id;
  linked = λ s e. has_tenant s e.tenant_id;
}

abbrev pub audit_table : Table AuditLog
audit_table = record {
  rows = λ s. s.audit_logs;
  set_rows = λ rows s. record s { audit_logs = rows };
  conflict = λ a b. a.id == b.id;
  linked = λ s a. optional (has_user s) a.actor_user_id;
}

abbrev pub secret_table : Table SecretReference
secret_table = record {
  rows = λ s. s.secrets;
  set_rows = λ rows s. record s { secrets = rows };
  conflict = λ a b. a.id == b.id || same_key a.tenant_id b.tenant_id && a.name == b.name;
  linked = λ s r. optional (has_tenant s) r.tenant_id;
}

abbrev pub template_table : Table AgentTemplate
template_table = record {
  rows = λ s. s.templates;
  set_rows = λ rows s. record s { templates = rows };
  conflict = λ a b. a.id == b.id || a.name == b.name;
  linked = λ s t. true;
}

abbrev pub mcp_server_table : Table McpServer
mcp_server_table = record {
  rows = λ s. s.mcp_servers;
  set_rows = λ rows s. record s { mcp_servers = rows };
  conflict = λ a b. a.id == b.id || a.name == b.name;
  linked = λ s m. true;
}

abbrev pub mcp_access_table : Table TenantMcpAccess
mcp_access_table = record {
  rows = λ s. s.mcp_access;
  set_rows = λ rows s. record s { mcp_access = rows };
  conflict =
      λ a b. a.id == b.id || a.tenant_id == b.tenant_id && a.mcp_server_id == b.mcp_server_id;
  linked = λ s a. has_tenant s a.tenant_id && has_mcp_server s a.mcp_server_id;
}

abbrev pub backup_table : Table Backup
backup_table = record {
  rows = λ s. s.backups;
  set_rows = λ rows s. record s { backups = rows };
  conflict = λ a b. a.id == b.id;
  linked = λ s b. has_tenant s b.tenant_id && optional (has_host s) b.host_id;
}

abbrev pub setting_table : Table PlatformSetting
setting_table = record {
  rows = λ s. s.settings;
  set_rows = λ rows s. record s { settings = rows };
  conflict = λ a b. a.key == b.key;
  linked = λ s p. true;
}

abbrev pub usage_table : Table UsageMetric
usage_table = record {
  rows = λ s. s.usage;
  set_rows = λ rows s. record s { usage = rows };
  conflict = λ a b. a.id == b.id;
  linked = λ s m. true;
}
