-- ===== src/Audit/Frame.antt =====
-- Events and audit entries are written to their own tables alone.
use xoom_agent_control.Prelude.{◌≡◌, ℕ, String, List}
use xoom_agent_control.Json.{Json}
use xoom_agent_control.Enums.{EventSeverity}
use xoom_agent_control.Rows.{Db, TenantEvent, AuditLog}
use xoom_agent_control.Env.{Env}
use xoom_agent_control.Tables.{event_table, audit_table}
use xoom_agent_control.Query.Frame.{Keeps, create-Keeps, try_quietly-Keeps}
use xoom_agent_control.Audit.{
  AuditContext, AuditAction, tenant_event, record_tenant_event, audit_row, record_audit,
}

module _ {V : Type 0} (view : Db → V) (env : Env)
    (outside : (rows : List TenantEvent) (s : Db) → view (record s { events = rows }) ≡ view s)
    (counts : (n : ℕ) (s : Db) → view (record s { next = n }) ≡ view s) where
  pub event-Keeps :
      (id type : String) (severity : EventSeverity) (message : String) (metadata : Json)
      → Keeps view (record_tenant_event env id type severity message metadata)
  unfolding record_tenant_event
  event-Keeps id type severity message metadata = try_quietly-Keeps view (
      create-Keeps view env event_table outside counts
        (tenant_event env id type severity message metadata))

module _ {V : Type 0} (view : Db → V) (env : Env)
    (outside : (rows : List AuditLog) (s : Db) → view (record s { audit_logs = rows }) ≡ view s)
    (counts : (n : ℕ) (s : Db) → view (record s { next = n }) ≡ view s) where
  pub audit-Keeps :
      (ctx : AuditContext) (action : AuditAction) (type id : String) (metadata : Json)
      → Keeps view (record_audit env ctx action type id metadata)
  unfolding record_audit
  audit-Keeps ctx action type id metadata =
      try_quietly-Keeps view (
        create-Keeps view env audit_table outside counts
          (audit_row env ctx action type id metadata))
