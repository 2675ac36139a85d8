-- ===== src/Logs.antt =====
-- apps/api/src/modules/logs/routes.ts and apps/api/src/modules/backups/routes.ts: the lists of
-- events, audit entries, usage and backups. Where a row has no time here, the order of the rows is
-- the order of their creation.
use mathlib.Core.List.{reverse}
use xoom_agent_control.Prelude.{
  ℕ, String, Bool, true, false, ◌&&◌, ◌==◌, Option, none, some, List, take, leb, present,
}
use xoom_agent_control.Enums.{EventSeverity, same_severity}
use xoom_agent_control.Rows.{TenantEvent, AuditLog, UsageMetric, Backup}
use xoom_agent_control.Env.{Env}
use xoom_agent_control.Guards.{Caller, require_user}
use xoom_agent_control.Action.{Action, Reply, send, pure, ◌>>=◌}
use xoom_agent_control.Tables.{event_table, audit_table, usage_table, backup_table}
use xoom_agent_control.Query.{find_many, find_many_by}
use xoom_agent_control.Tenants.Routes.{later}

pub record EventQuery : Type 0 where
  pub tenant_id : Option String
  pub severity : Option EventSeverity
  pub limit : ℕ

pub record AuditQuery : Type 0 where
  pub actor_user_id : Option String
  pub target_type : Option String
  pub limit : ℕ

pub record UsageQuery : Type 0 where
  pub tenant_id : Option String
  pub limit : ℕ

pub record BackupQuery : Type 0 where
  pub tenant_id : Option String
  pub limit : ℕ

abbrev pub wanted_text : Option String → String → Bool
wanted_text none value = true
wanted_text (some w) value = value == w

abbrev pub wanted_column : Option String → Option String → Bool
wanted_column none column = true
wanted_column (some w) none = false
wanted_column (some w) (some value) = value == w

abbrev pub wanted_severity : Option EventSeverity → EventSeverity → Bool
wanted_severity none s = true
wanted_severity (some w) s = same_severity s w

unfoldable pub event_matches : EventQuery → TenantEvent → Bool
unfolding present
event_matches q e =
    wanted_text (present q.tenant_id) e.tenant_id && wanted_severity q.severity e.severity

unfoldable pub audit_matches : AuditQuery → AuditLog → Bool
unfolding present
audit_matches q a =
    wanted_column (present q.actor_user_id) a.actor_user_id
    && wanted_column (present q.target_type) a.target_type

abbrev later_window : UsageMetric → UsageMetric → Bool
later_window a b = leb b.window_start a.window_start

module _ (env : Env) where
  -- GET /events
  unfoldable pub list_events : Caller → EventQuery → Action (Reply (List TenantEvent))
  unfolding require_user find_many_by event_matches
  list_events caller q = require_user env false caller λ user. do
    events ← find_many_by env event_table later (event_matches q)
    pure (send 200 (take q.limit events))

  -- GET /audit-logs
  unfoldable pub list_audit_logs : Caller → AuditQuery → Action (Reply (List AuditLog))
  unfolding require_user find_many audit_matches
  list_audit_logs caller q = require_user env false caller λ user. do
    logs ← find_many env audit_table (audit_matches q)
    pure (send 200 (take q.limit (reverse logs)))

  -- GET /usage
  unfoldable pub list_usage : Caller → UsageQuery → Action (Reply (List UsageMetric))
  unfolding require_user find_many_by present
  list_usage caller q = require_user env false caller λ user. do
    metrics ←
        find_many_by env usage_table later_window
          (λ m. wanted_text (present q.tenant_id) m.tenant_id)
    pure (send 200 (take q.limit metrics))

  -- GET /api/backups, without the names of the tenant and the host that are joined to it
  unfoldable pub list_backups : Caller → BackupQuery → Action (Reply (List Backup))
  unfolding require_user find_many present
  list_backups caller q = require_user env false caller λ user. do
    backups ← find_many env backup_table (λ b. wanted_text (present q.tenant_id) b.tenant_id)
    pure (send 200 (take q.limit (reverse backups)))
