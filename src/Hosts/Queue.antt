-- ===== src/Hosts/Queue.antt =====
-- apps/api/src/modules/hosts/agent.routes.ts: how a host agent takes commands and reports on them.
pub mod Fifo
pub mod Claims
pub mod Reports
pub mod Settled
use xoom_agent_control.Prelude.{
  ℕ, ◌+◌, String, Bool, ◌&&◌, ◌==◌, Option, none, some, [], ◌∷◌, leb, get_or, present, template,
}
use xoom_agent_control.Json.{Json, null, str, obj, object, end}
use xoom_agent_control.Enums.{CommandType, CommandStatus, claimed, EventSeverity, info, error}
use xoom_agent_control.Rows.{HostCommand}
use xoom_agent_control.Env.{Env}
use xoom_agent_control.Guards.{Caller, require_host}
use xoom_agent_control.Action.{Action, Reply, send, pure, reject, ◌>>=◌, ◌>>◌}
use xoom_agent_control.Tables.{command_table}
use xoom_agent_control.Query.{find_first, find_first_by, update}
use xoom_agent_control.Audit.{command_executed, record_audit, record_tenant_event}
use xoom_agent_control.Requests.{
  NextCommand, ResultStatus, running, succeeded, failed, CommandResultRequest,
}
use xoom_agent_control.Hosts.Reconcile.{reconcile_tenant}
use xoom_agent_control.Hosts.Common.{from_ip, is_waiting}

-- The command that was created first.
unfoldable pub older : HostCommand → HostCommand → Bool
older a b = leb a.created_at b.created_at

abbrev pub recorded_status : ResultStatus → CommandStatus
recorded_status running = CommandStatus.running
recorded_status succeeded = CommandStatus.succeeded
recorded_status failed = CommandStatus.failed

abbrev pub completion : ResultStatus → ℕ → Option ℕ
completion running now = none
completion _ now = some now

abbrev pub severity_of : ResultStatus → EventSeverity
severity_of failed = error
severity_of _ = info

abbrev pub status_text : ResultStatus → String
status_text running = "running"
status_text succeeded = "succeeded"
status_text failed = "failed"

abbrev pub type_text : CommandType → String
type_text CommandType.create_tenant = "create_tenant"
type_text CommandType.start_tenant = "start_tenant"
type_text CommandType.stop_tenant = "stop_tenant"
type_text CommandType.restart_tenant = "restart_tenant"
type_text CommandType.delete_tenant = "delete_tenant"
type_text CommandType.update_runtime = "update_runtime"
type_text CommandType.backup_tenant = "backup_tenant"
type_text CommandType.restore_tenant = "restore_tenant"
type_text CommandType.collect_logs = "collect_logs"

abbrev text : Option String → Json
text none = null
text (some s) = str s

module _ (env : Env) where
  -- The first half of a poll: the oldest command that waits.
  unfoldable pub oldest_queued : String → Action (Option HostCommand)
  unfolding find_first_by older
  oldest_queued host_id = find_first_by env command_table older (is_waiting host_id)

  abbrev pub claim : HostCommand → HostCommand
  claim c = record c { status = claimed; claimed_at = some env.now; attempts = c.attempts + 1 }

  abbrev pub handed_out : HostCommand → NextCommand
  handed_out c = record {
    command_id = c.id;
    command_type = c.command_type;
    tenant_id = c.tenant_id;
    payload = get_or c.payload (obj end);
  }

  -- The second half: the command is claimed and handed out.
  unfoldable pub claim_command : Option HostCommand → Action (Reply (Option NextCommand))
  unfolding update
  claim_command none = pure (send 200 none)
  claim_command (some next) = do
    taken ← update env command_table (λ c. c.id == next.id) claim
    pure (send 200 (some (handed_out taken)))

  abbrev pub next_for : String → Action (Reply (Option NextCommand))
  next_for host_id = do next ← oldest_queued host_id; claim_command next

  -- GET /:host_id/commands/next
  unfoldable pub next_command : Caller → String → Action (Reply (Option NextCommand))
  unfolding require_host oldest_queued claim_command
  next_command caller param = require_host env caller param next_for

  abbrev pub report : CommandResultRequest → HostCommand → HostCommand
  report body c = record c {
    status = recorded_status body.status;
    result = some (obj (get_or body.result end));
    error_message = body.error;
    completed_at = completion body.status env.now;
  }

  abbrev pub report_tenant : HostCommand → CommandResultRequest → Option String → Action Unit
  report_tenant command body none = pure tt
  report_tenant command body (some tenant_id) = do
    reconcile_tenant env tenant_id command.command_type body.status body.result
    record_tenant_event env tenant_id "command.result" (severity_of body.status)
        (template (type_text command.command_type ∷ " -> " ∷ status_text body.status ∷ []))
        (obj (
          object (
            ("command_id", str command.id)
            ∷ ("message", text body.message)
            ∷ ("error", text body.error)
            ∷ [])))

  abbrev pub report_found : Caller → CommandResultRequest → Option HostCommand → Action (Reply Unit)
  report_found caller body none = reject 404 "not_found"
  report_found caller body (some command) = do
    update env command_table (λ c. c.id == command.id) (report body)
    report_tenant command body (present command.tenant_id)
    record_audit env (from_ip caller) command_executed "command" command.id (
        obj (
          object (
            ("status", str (status_text body.status))
            ∷ ("type", str (type_text command.command_type))
            ∷ [])))
    pure (send 200 tt)

  -- The handler behind the guard.
  unfoldable pub take_result : CommandResultRequest → Caller → String → String → Action (Reply Unit)
  unfolding find_first update reconcile_tenant record_tenant_event record_audit present
  take_result body caller command_id host_id = do
    command ← find_first env command_table (λ c. c.id == command_id && c.host_id == host_id)
    report_found caller body command

  -- POST /:host_id/commands/:command_id/result
  unfoldable pub post_result : Caller → String → String → CommandResultRequest → Action (Reply Unit)
  unfolding require_host take_result
  post_result caller param command_id body =
      require_host env caller param (take_result body caller command_id)
