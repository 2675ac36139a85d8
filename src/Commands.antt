-- ===== src/Commands.antt =====
-- apps/api/src/modules/commands/routes.ts: the command queue as the operators see it.
pub mod Retry
use xoom_agent_control.Prelude.{
  ℕ, String, Bool, true, false, ◌&&◌, ◌==◌, Option, none, some, List, [], ◌∷◌, leb, take, present,
  get_or,
}
use xoom_agent_control.Json.{Json, null, str, obj, object, end}
use xoom_agent_control.Enums.{CommandStatus, queued}
use xoom_agent_control.Rows.{HostCommand}
use xoom_agent_control.Env.{Env, SessionUser}
use xoom_agent_control.Guards.{Caller, require_user}
use xoom_agent_control.Action.{Action, Reply, send, pure, reject, ◌>>=◌, ◌>>◌}
use xoom_agent_control.Tables.{command_table}
use xoom_agent_control.Query.{find_first, find_many_by, create}
use xoom_agent_control.Audit.{command_created, command_retried, record_audit}
use xoom_agent_control.Requests.{CreateCommandRequest}
use xoom_agent_control.Tenants.Routes.{context_of}
use xoom_agent_control.Hosts.Queue.{type_text}

-- The later command first.
unfoldable pub newer : HostCommand → HostCommand → Bool
newer a b = leb b.created_at a.created_at

-- `CommandQuery`, with the test that its status makes.
pub record CommandQuery : Type 0 where
  pub status : Option CommandStatus
  pub host_id : Option String
  pub tenant_id : Option String
  pub limit : ℕ

unfoldable pub same_status : CommandStatus → CommandStatus → Bool
same_status CommandStatus.queued CommandStatus.queued = true
same_status CommandStatus.claimed CommandStatus.claimed = true
same_status CommandStatus.running CommandStatus.running = true
same_status CommandStatus.succeeded CommandStatus.succeeded = true
same_status CommandStatus.failed CommandStatus.failed = true
same_status CommandStatus.cancelled CommandStatus.cancelled = true
same_status _ _ = false

abbrev wanted_status : Option CommandStatus → CommandStatus → Bool
wanted_status none s = true
wanted_status (some w) s = same_status s w

abbrev wanted_host : Option String → String → Bool
wanted_host none id = true
wanted_host (some w) id = id == w

abbrev wanted_tenant : Option String → Option String → Bool
wanted_tenant none id = true
wanted_tenant (some w) none = false
wanted_tenant (some w) (some id) = id == w

-- `where`: a clause for each part of the query that is given.
unfoldable pub matches : CommandQuery → HostCommand → Bool
unfolding same_status present
matches q c =
    wanted_status q.status c.status
    && wanted_host (present q.host_id) c.host_id
    && wanted_tenant (present q.tenant_id) c.tenant_id

abbrev maybe_text : Option String → Json
maybe_text none = null
maybe_text (some s) = str s

module _ (env : Env) where
  -- GET /
  unfoldable pub list_commands : Caller → CommandQuery → Action (Reply (List HostCommand))
  unfolding require_user find_many_by newer matches
  list_commands caller q = require_user env false caller λ user. do
    commands ← find_many_by env command_table newer (matches q)
    pure (send 200 (take q.limit commands))

  abbrev pub found : Option HostCommand → Action (Reply HostCommand)
  found none = reject 404 "not_found"
  found (some command) = pure (send 200 command)

  -- GET /:id
  unfoldable pub get_command : Caller → String → Action (Reply HostCommand)
  unfolding require_user find_first
  get_command caller id =
      require_user env false caller
        λ user. do command ← find_first env command_table (λ c. c.id == id); found command

  abbrev pub requested_row : CreateCommandRequest → String → HostCommand
  requested_row body id = record {
    id = id;
    host_id = body.host_id;
    tenant_id = body.tenant_id;
    command_type = body.command_type;
    status = queued;
    payload = some (obj (get_or body.payload end));
    result = none;
    error_message = none;
    attempts = 0;
    created_at = env.now;
    claimed_at = none;
    completed_at = none;
  }

  abbrev pub queue_as : Caller → CreateCommandRequest → SessionUser → Action (Reply HostCommand)
  queue_as caller body user = do
    command ← create env command_table (requested_row body)
    record_audit env (context_of user caller) command_created "command" command.id (
        obj (
          object (
            ("command_type", str (type_text body.command_type))
            ∷ ("host_id", str body.host_id)
            ∷ ("tenant_id", maybe_text body.tenant_id)
            ∷ [])))
    pure (send 201 command)

  -- POST /
  unfoldable pub post_command : Caller → CreateCommandRequest → Action (Reply HostCommand)
  unfolding require_user create record_audit
  post_command caller body = require_user env true caller (queue_as caller body)

  -- A fresh copy of a command.
  abbrev pub copy_of : HostCommand → String → HostCommand
  copy_of original id = record {
    id = id;
    host_id = original.host_id;
    tenant_id = original.tenant_id;
    command_type = original.command_type;
    status = queued;
    payload = some (get_or original.payload (obj end));
    result = none;
    error_message = none;
    attempts = 0;
    created_at = env.now;
    claimed_at = none;
    completed_at = none;
  }

  abbrev pub retry_found : SessionUser → Caller → Option HostCommand → Action (Reply HostCommand)
  retry_found user caller none = reject 404 "not_found"
  retry_found user caller (some original) = do
    retry ← create env command_table (copy_of original)
    record_audit env (context_of user caller) command_retried "command" retry.id
        (obj (object (("retried_from", str original.id) ∷ [])))
    pure (send 201 retry)

  abbrev pub retry_as : Caller → String → SessionUser → Action (Reply HostCommand)
  retry_as caller id user = do
    original ← find_first env command_table (λ c. c.id == id)
    retry_found user caller original

  -- POST /:id/retry
  unfoldable pub retry_command : Caller → String → Action (Reply HostCommand)
  unfolding require_user find_first create record_audit
  retry_command caller id = require_user env true caller (retry_as caller id)
