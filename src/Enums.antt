-- ===== src/Enums.antt =====
-- packages/shared-types/src/enums.ts and the role ranks of packages/shared-types/src/index.ts.
use xoom_agent_control.Prelude.{ℕ, Bool, true, false}

pub data TenantStatus : Type 0 where
  pending provisioning active suspended failed deleted : TenantStatus

pub data HostStatus : Type 0 where
  online offline draining maintenance : HostStatus

pub data CommandType : Type 0 where
  create_tenant start_tenant stop_tenant restart_tenant delete_tenant update_runtime backup_tenant
        restore_tenant collect_logs :
      CommandType

pub data CommandStatus : Type 0 where
  queued claimed running succeeded failed cancelled : CommandStatus

pub data EventSeverity : Type 0 where
  debug info warning error critical : EventSeverity

pub data UserRole : Type 0 where
  platform_owner msp_admin support_engineer read_only_auditor tenant_admin : UserRole

pub data McpTransport : Type 0 where
  stdio http sse websocket : McpTransport

pub data McpRiskLevel : Type 0 where
  low medium high critical : McpRiskLevel

pub data SecretProvider : Type 0 where
  local vault infisical doppler aws : SecretProvider

pub data BackupStatus : Type 0 where
  pending running succeeded failed : BackupStatus

-- The tests that the code makes with `===`.
abbrev pub is_online : HostStatus → Bool
is_online online = true
is_online _ = false

abbrev pub is_queued : CommandStatus → Bool
is_queued queued = true
is_queued _ = false

abbrev pub is_pending : BackupStatus → Bool
is_pending BackupStatus.pending = true
is_pending _ = false

-- A host that the control plane asked to drain or to stop for maintenance.
abbrev pub is_withdrawn : HostStatus → Bool
is_withdrawn maintenance = true
is_withdrawn draining = true
is_withdrawn _ = false

abbrev pub is_severe : EventSeverity → Bool
is_severe error = true
is_severe EventSeverity.critical = true
is_severe _ = false

abbrev pub same_severity : EventSeverity → EventSeverity → Bool
same_severity debug debug = true
same_severity info info = true
same_severity warning warning = true
same_severity error error = true
same_severity EventSeverity.critical EventSeverity.critical = true
same_severity _ _ = false

abbrev pub same_tenant_status : TenantStatus → TenantStatus → Bool
same_tenant_status TenantStatus.pending TenantStatus.pending = true
same_tenant_status provisioning provisioning = true
same_tenant_status active active = true
same_tenant_status suspended suspended = true
same_tenant_status TenantStatus.failed TenantStatus.failed = true
same_tenant_status deleted deleted = true
same_tenant_status _ _ = false

-- `ROLE_RANK`
unfoldable pub role_rank : UserRole → ℕ
role_rank read_only_auditor = 0
role_rank tenant_admin = 1
role_rank support_engineer = 2
role_rank msp_admin = 3
role_rank platform_owner = 4
