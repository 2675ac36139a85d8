-- ===== src/Requests.antt =====
-- The request bodies of packages/shared-types/src/{admin,host-agent}.ts, as the handlers see them
-- after validation: defaults are filled in, and what may still be missing is an `Option`.
use xoom_agent_control.Prelude.{ℕ, String, Bool, Option, List}
use xoom_agent_control.Json.{Json, Fields}
use xoom_agent_control.Enums.{
  TenantStatus, HostStatus, CommandType, EventSeverity, UserRole, McpTransport, McpRiskLevel,
  SecretProvider,
}

pub record LoginRequest : Type 0 where
  pub email : String
  pub password : String

-- `ResourceLimits.partial()`
pub record LimitsInput : Type 0 where
  pub vcpu : Option ℕ
  pub ram_mb : Option ℕ
  pub disk_gb : Option ℕ
  pub max_agents : Option ℕ
  pub max_monthly_spend : Option ℕ
  pub max_tokens_per_day : Option ℕ
  pub max_mcp_tools : Option ℕ

pub record MemoryChoice : Type 0 where
  pub provider : String
  pub namespace : Option String

pub record LlmConfigInput : Type 0 where
  pub base_url : Option String
  pub model_allowlist : Option (List String)
  pub max_monthly_spend : Option ℕ
  pub rate_limit_rpm : Option ℕ
  pub fallback_models : Option (List String)

pub record CreateTenantRequest : Type 0 where
  pub name : String
  pub slug : String
  pub runtime_type : String
  pub runtime_version : String
  pub domain : Option String
  pub assigned_host_id : Option String
  pub auto_select_host : Bool
  pub resource_limits : Option LimitsInput
  pub agent_template_id : Option String
  pub mcp_servers : List String
  pub memory : Option MemoryChoice
  pub llm : Option LlmConfigInput

-- The fields of `UpdateTenantRequest` that the handler reads.
pub record UpdateTenantRequest : Type 0 where
  pub name : Option String
  pub domain : Option String
  pub runtime_version : Option String
  pub resource_limits : Option LimitsInput

pub data TenantAction : Type 0 where
  start stop restart backup update_runtime suspend delete : TenantAction

pub data MaintenanceStatus : Type 0 where
  maintenance draining online : MaintenanceStatus

pub record CreateCommandRequest : Type 0 where
  pub host_id : String
  pub tenant_id : Option String
  pub command_type : CommandType
  pub payload : Option Fields

-- `AgentTemplateInput`, its arrays and records as JSON
pub record AgentTemplateInput : Type 0 where
  pub name : String
  pub description : Option String
  pub default_system_prompt : Option String
  pub skills : Option Json
  pub schedules : Option Json
  pub mcp_tools : Option Json
  pub memory_policy : Option Json
  pub llm_policy : Option Json

-- `AgentTemplateInput.partial()`
pub record AgentTemplatePatch : Type 0 where
  pub name : Option String
  pub description : Option String
  pub default_system_prompt : Option String
  pub skills : Option Json
  pub schedules : Option Json
  pub mcp_tools : Option Json
  pub memory_policy : Option Json
  pub llm_policy : Option Json

pub record ListQuery : Type 0 where
  pub status : Option TenantStatus
  pub q : Option String
  pub limit : ℕ
  pub offset : ℕ

pub record McpServerInput : Type 0 where
  pub name : String
  pub description : Option String
  pub transport : McpTransport
  pub endpoint : Option String
  pub auth_type : Option String
  pub required_secrets : Option (List String)
  pub risk_level : McpRiskLevel
  pub approval_required : Bool
  pub enabled : Bool

-- `McpServerInput.partial()`, where no default is filled in, without the name that no update reads
pub record McpServerPatch : Type 0 where
  pub description : Option String
  pub transport : Option McpTransport
  pub endpoint : Option String
  pub auth_type : Option String
  pub required_secrets : Option (List String)
  pub risk_level : Option McpRiskLevel
  pub approval_required : Option Bool
  pub enabled : Option Bool

pub record TenantMcpAccessInput : Type 0 where
  pub mcp_server_id : String
  pub enabled : Bool
  pub agent_scope : Option (List String)
  pub approved : Option Bool

pub record CreateSecretRequest : Type 0 where
  pub tenant_id : Option String
  pub name : String
  pub provider : SecretProvider
  pub value : Option String
  pub external_secret_ref : Option String

pub record MemoryConfigInput : Type 0 where
  pub provider : String
  pub namespace : Option String
  pub retention_days : Option ℕ
  pub enabled : Bool

pub record CreateUserRequest : Type 0 where
  pub email : String
  pub name : Option String
  pub password : String
  pub role : UserRole

-- The host agent's side.
pub record HostResources : Type 0 where
  pub total_cpu : ℕ
  pub total_ram_mb : ℕ
  pub total_disk_gb : ℕ

pub record RegisterHostRequest : Type 0 where
  pub host_name : String
  pub provider : String
  pub location : Option String
  pub public_ip : Option String
  pub private_ip : Option String
  pub host_agent_version : String
  pub firecracker_version : Option String
  pub capabilities : Json
  pub resources : HostResources

pub record RunningMicrovm : Type 0 where
  pub tenant_id : String
  pub status : String

pub record HeartbeatRequest : Type 0 where
  pub status : HostStatus
  pub cpu_usage : Option ℕ
  pub ram_usage : Option ℕ
  pub disk_usage : Option ℕ
  pub running_microvms : List RunningMicrovm
  pub firecracker_status : Option String
  pub agent_status : Option String
  pub host_agent_version : Option String

pub record HeartbeatResponse : Type 0 where
  pub desired_status : Option HostStatus
  pub pending_commands : ℕ

-- What a host is given to do; `NextCommandResponse` without its `null`.
pub record NextCommand : Type 0 where
  pub command_id : String
  pub command_type : CommandType
  pub tenant_id : Option String
  pub payload : Json

pub data ResultStatus : Type 0 where
  running succeeded failed : ResultStatus

pub record CommandResultRequest : Type 0 where
  pub status : ResultStatus
  pub message : Option String
  pub result : Option Fields
  pub error : Option String

pub record ForwardedEvent : Type 0 where
  pub event_type : String
  pub severity : EventSeverity
  pub message : String
  pub metadata : Option Json

pub record ForwardLogsRequest : Type 0 where
  pub tenant_id : Option String
  pub events : List ForwardedEvent
