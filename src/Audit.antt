-- ===== src/Audit.antt =====
-- apps/api/src/lib/audit.ts, and the audit actions of packages/shared-types/src/index.ts.
pub mod Frame
use xoom_agent_control.Prelude.{String, Option, some}
use xoom_agent_control.Json.{Json, obj}
use xoom_agent_control.Json
use xoom_agent_control.Enums.{EventSeverity}
use xoom_agent_control.Rows.{TenantEvent, AuditLog}
use xoom_agent_control.Env.{Env}
use xoom_agent_control.Action.{Action, try_quietly}
use xoom_agent_control.Tables.{audit_table, event_table}
use xoom_agent_control.Query.{create}

-- `AUDIT_ACTIONS`, those that a handler records.
pub data AuditAction : Type 0 where
  tenant_created tenant_updated tenant_suspended tenant_deleted tenant_action : AuditAction
  host_registered host_approved host_maintenance : AuditAction
  command_created command_executed command_retried : AuditAction
  secret_changed mcp_enabled mcp_disabled llm_budget_changed user_created settings_changed :
      AuditAction

unfoldable pub action_name : AuditAction → String
action_name tenant_created = "tenant.created"
action_name tenant_updated = "tenant.updated"
action_name tenant_suspended = "tenant.suspended"
action_name tenant_deleted = "tenant.deleted"
action_name tenant_action = "tenant.action"
action_name host_registered = "host.registered"
action_name host_approved = "host.approved"
action_name host_maintenance = "host.maintenance"
action_name command_created = "command.created"
action_name command_executed = "command.executed"
action_name command_retried = "command.retried"
action_name secret_changed = "secret.changed"
action_name mcp_enabled = "mcp.enabled"
action_name mcp_disabled = "mcp.disabled"
action_name llm_budget_changed = "llm.budget_changed"
action_name user_created = "user.created"
action_name settings_changed = "settings.changed"

-- Who acts, and from where.
pub record AuditContext : Type 0 where
  pub actor_user_id : Option String
  pub ip_address : Option String

module _ (env : Env) where
  abbrev pub audit_row : AuditContext → AuditAction → String → String → Json → String → AuditLog
  audit_row ctx action target_type target_id metadata id = record {
    id = id;
    actor_user_id = ctx.actor_user_id;
    action = action_name action;
    target_type = some target_type;
    target_id = some target_id;
    ip_address = ctx.ip_address;
    metadata = metadata;
  }

  -- A failure to write the entry is logged, and does not stop the operation.
  unfoldable pub record_audit : AuditContext → AuditAction → String → String → Json → Action Unit
  unfolding create action_name
  record_audit ctx action target_type target_id metadata =
      try_quietly (create env audit_table (audit_row ctx action target_type target_id metadata))

  abbrev pub tenant_event : String → String → EventSeverity → String → Json → String → TenantEvent
  tenant_event tenant_id event_type severity message metadata id = record {
    id = id;
    tenant_id = tenant_id;
    event_type = event_type;
    severity = severity;
    message = message;
    metadata = metadata;
    created_at = env.now;
  }

  unfoldable pub record_tenant_event : String → String → EventSeverity → String → Json → Action Unit
  unfolding create
  record_tenant_event tenant_id event_type severity message metadata =
      try_quietly
        (create env event_table (tenant_event tenant_id event_type severity message metadata))

abbrev pub no_metadata : Json
no_metadata = obj Json.end
