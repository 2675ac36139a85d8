-- ===== src/Rows.antt =====
-- The rows of the tables (packages/db/prisma/schema.prisma), with the columns that the code reads or
-- writes, and the database as a record of tables. Times are milliseconds, money is in cents, and
-- the columns `created_at` and `updated_at` are kept where a query orders by them.
use xoom_agent_control.Prelude.{ℕ, String, Bool, Option, List, [], ℤ}
use xoom_agent_control.Json.{Json}
use xoom_agent_control.Enums.{
  TenantStatus, HostStatus, CommandType, CommandStatus, EventSeverity, UserRole, McpTransport,
  McpRiskLevel, SecretProvider, BackupStatus,
}

pub record User : Type 0 where
  pub id : String
  pub email : String
  pub name : Option String
  pub password_hash : String
  pub role : UserRole
  pub active : Bool
  pub last_login_at : Option ℕ

pub record Host : Type 0 where
  pub id : String
  pub name : String
  pub provider : String
  pub location : Option String
  pub public_ip : Option String
  pub private_ip : Option String
  pub status : HostStatus
  pub host_agent_version : Option String
  pub firecracker_version : Option String
  pub capabilities : Json
  pub total_cpu : Option ℕ
  pub total_ram_mb : Option ℕ
  pub total_disk_gb : Option ℕ
  -- what reservations leave may be negative
  pub available_cpu : Option ℤ
  pub available_ram_mb : Option ℤ
  pub available_disk_gb : Option ℤ
  pub agent_key_hash : Option String
  pub approved : Bool
  pub last_seen_at : Option ℕ

pub record HostHeartbeat : Type 0 where
  pub id : String
  pub host_id : String
  pub cpu_usage : Option ℕ
  pub ram_usage : Option ℕ
  pub disk_usage : Option ℕ
  pub running_microvms : ℕ
  pub firecracker_status : Option String
  pub agent_status : Option String

pub record Tenant : Type 0 where
  pub id : String
  pub name : String
  pub slug : String
  pub status : TenantStatus
  pub assigned_host_id : Option String
  pub runtime_type : String
  pub runtime_version : String
  pub domain : Option String

pub record TenantResourceLimit : Type 0 where
  pub tenant_id : String
  pub vcpu : ℕ
  pub ram_mb : ℕ
  pub disk_gb : ℕ
  pub max_agents : ℕ
  pub max_monthly_spend : ℕ
  pub max_tokens_per_day : ℕ
  pub max_mcp_tools : ℕ

pub record TenantRuntimeConfig : Type 0 where
  pub tenant_id : String
  pub swarmclaw_version : String
  pub agent_templates : Json
  pub skills : Json
  pub schedules : Json
  pub mcp_config : Json
  pub memory_config : Option Json
  pub llm_config : Option Json
  pub environment : Json

pub record HostCommand : Type 0 where
  pub id : String
  pub host_id : String
  pub tenant_id : Option String
  pub command_type : CommandType
  pub status : CommandStatus
  pub payload : Option Json
  pub result : Option Json
  pub error_message : Option String
  pub attempts : ℕ
  pub created_at : ℕ
  pub claimed_at : Option ℕ
  pub completed_at : Option ℕ

pub record TenantEvent : Type 0 where
  pub id : String
  pub tenant_id : String
  pub event_type : String
  pub severity : EventSeverity
  pub message : String
  pub metadata : Json
  pub created_at : ℕ

pub record AuditLog : Type 0 where
  pub id : String
  pub actor_user_id : Option String
  pub action : String
  pub target_type : Option String
  pub target_id : Option String
  pub ip_address : Option String
  pub metadata : Json

pub record SecretReference : Type 0 where
  pub id : String
  pub tenant_id : Option String
  pub name : String
  pub provider : SecretProvider
  pub external_secret_ref : String
  pub encrypted_value : Option String

pub record AgentTemplate : Type 0 where
  pub id : String
  pub name : String
  pub description : Option String
  pub default_system_prompt : Option String
  pub skills : Option Json
  pub schedules : Option Json
  pub mcp_tools : Option Json
  pub memory_policy : Option Json
  pub llm_policy : Option Json

pub record McpServer : Type 0 where
  pub id : String
  pub name : String
  pub description : Option String
  pub transport : McpTransport
  pub endpoint : Option String
  pub auth_type : Option String
  pub required_secrets : List String
  pub risk_level : McpRiskLevel
  pub approval_required : Bool
  pub enabled : Bool

pub record TenantMcpAccess : Type 0 where
  pub id : String
  pub tenant_id : String
  pub mcp_server_id : String
  pub enabled : Bool
  pub agent_scope : List String
  pub approved : Bool

pub record Backup : Type 0 where
  pub id : String
  pub tenant_id : String
  pub host_id : Option String
  pub artifact_path : Option String
  pub status : BackupStatus
  pub completed_at : Option ℕ

pub record PlatformSetting : Type 0 where
  pub key : String
  pub value : Json

pub record UsageMetric : Type 0 where
  pub id : String
  pub tenant_id : String
  pub window_start : ℕ
  pub model : Option String
  pub input_tokens : ℕ
  pub output_tokens : ℕ
  pub spend_usd : ℕ

-- `next` counts the ids that were given out.
pub record Db : Type 0 where
  pub users : List User
  pub hosts : List Host
  pub heartbeats : List HostHeartbeat
  pub tenants : List Tenant
  pub limits : List TenantResourceLimit
  pub runtime_configs : List TenantRuntimeConfig
  pub commands : List HostCommand
  pub events : List TenantEvent
  pub audit_logs : List AuditLog
  pub secrets : List SecretReference
  pub templates : List AgentTemplate
  pub mcp_servers : List McpServer
  pub mcp_access : List TenantMcpAccess
  pub backups : List Backup
  pub settings : List PlatformSetting
  pub usage : List UsageMetric
  pub next : ℕ

abbrev pub empty_db : Db
empty_db = record {
  users = [];
  hosts = [];
  heartbeats = [];
  tenants = [];
  limits = [];
  runtime_configs = [];
  commands = [];
  events = [];
  audit_logs = [];
  secrets = [];
  templates = [];
  mcp_servers = [];
  mcp_access = [];
  backups = [];
  settings = [];
  usage = [];
  next = 0;
}
