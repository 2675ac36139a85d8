-- ===== src/Agent/Poll/Settles.antt =====
-- A poll of the agent against the API, from the claim of a command to the report of its result.
use xoom_agent_control.Prelude.{
  ◌≡◌, refl, sym, ap, subst, ◌∙◌, String, Bool, true, false, ◌&&◌, ◌==◌, Option, none, some, List,
  present, ℕ, ◌+◌, get_or,
}
use xoom_agent_control.Prisma.{Documented}
use xoom_agent_control.Json.{Json, Fields, obj, end}
use xoom_agent_control.Enums.{is_queued, CommandStatus}
use xoom_agent_control.Rows.{Db, Host, Tenant, HostCommand}
use xoom_agent_control.Env.{Env}
use xoom_agent_control.Guards.{Caller, require_host}
use xoom_agent_control.Guards.Admission.{AdmittedHost, require_host-admits}
use xoom_agent_control.Action.{Result, Reply, continue, ok, send}
use xoom_agent_control.Requests.{
  CommandResultRequest, NextCommand, ResultStatus, running, succeeded, failed,
}
use xoom_agent_control.Hosts.Common.{is_waiting}
use xoom_agent_control.Hosts.Queue.{
  oldest_queued, next_for, claim, claim_command, report, next_command, post_result, take_result,
  recorded_status, completion,
}
use xoom_agent_control.Hosts.Queue.Fifo.{IsOldest, oldest_queued-IsOldest}
use xoom_agent_control.Hosts.Queue.Claims.{
  command_by_id, claim_command_lem, as_told, handed_out-as_told,
}
use xoom_agent_control.Hosts.Queue.Settled.{Settles, take_result_lem}
use xoom_agent_control.Hosts.Reconcile.Outcomes.{tenant_by_id, settled_status}
use xoom_agent_control.Agent.Firecracker.{AgentEnv, MicroVm}
use xoom_agent_control.Agent.Executor.{execute}
use xoom_agent_control.Agent.Poll.{executing, poll_and_run}

is_own :
    (host_id : String) (s : Db) (c : HostCommand) (found : Option HostCommand)
    → IsOldest host_id s.commands found
    → found ≡ some c
    → (c.host_id == host_id) ≡ true
is_own host_id s c none first e = cc
is_own host_id s c (some x) first e =
    let same : x ≡ c = cc in
    left (c.host_id == host_id) (is_queued c.status)
      (subst (λ y. is_waiting host_id y ≡ true) same first.passes)
  where
    left : (a b : Bool) → (a && b) ≡ true → a ≡ true
    left true b h = refl
    left false b h = cc

-- How a command and the time of its completion stand after a report.
abbrev pub shown_status : ResultStatus → CommandStatus
shown_status ResultStatus.running = CommandStatus.running
shown_status ResultStatus.succeeded = CommandStatus.succeeded
shown_status ResultStatus.failed = CommandStatus.failed

abbrev pub completed : ResultStatus → ℕ → Option ℕ
completed ResultStatus.running now = none
completed ResultStatus.succeeded now = some now
completed ResultStatus.failed now = some now

abbrev pub result_object : Option Fields → Json
result_object none = obj end
result_object (some members) = obj members

-- The row of a command that was claimed and reported on.
abbrev pub finished : ℕ → CommandResultRequest → HostCommand → HostCommand
finished now result c = record c {
  status = shown_status result.status;
  result = some (result_object result.result);
  error_message = result.error;
  attempts = c.attempts + 1;
  claimed_at = some now;
  completed_at = completed result.status now;
}

shown : (r : ResultStatus) → recorded_status r ≡ shown_status r
shown running = refl
shown succeeded = refl
shown failed = refl

timed : (r : ResultStatus) (now : ℕ) → completion r now ≡ completed r now
timed running now = refl
timed succeeded now = refl
timed failed now = refl

wrapped : (o : Option Fields) → obj (get_or o end) ≡ result_object o
wrapped none = refl
wrapped (some m) = refl

report-finished :
    (env : Env) (result : CommandResultRequest) (c : HostCommand)
    → report env result (report env executing (claim env c)) ≡ finished env.now result c
report-finished env result c =
    rw (shown result.status, timed result.status env.now, wrapped result.result) refl

from_polled :
    (a b : Option HostCommand) (s : Db)
    → ◌≡◌ {A = Result (Option HostCommand) × Db} (ok a, s) (ok b, s)
    → a ≡ b
from_polled a b s e = cc

module _ (env : Env) (d : Documented env.client) (caller : Caller) (host_id : String) (s : Db)
    (host : Host) (admitted : AdmittedHost env caller host_id s host) where
  -- The report of a status by the admitted host.
  posted :
      (body : CommandResultRequest) (u : Db) (x : HostCommand) (tenant_id : String) (t : Tenant)
      → u.hosts ≡ s.hosts
      → (x.host_id == host.id) ≡ true
      → command_by_id x.id u ≡ some x
      → present x.tenant_id ≡ some tenant_id
      → tenant_by_id tenant_id u ≡ some t
      → Settles env body u x tenant_id t (post_result env caller host_id x.id body)
  unfolding post_result
  posted body u x tenant_id t same own at of_tenant e =
      rw
        (require_host-admits env caller host_id (take_result env body caller x.id) s u host d
          admitted same)
        (take_result_lem env d body caller u x tenant_id t at of_tenant e host.id own)

  module _ (agent : AgentEnv) (c : HostCommand)
      (polled : oldest_queued env host.id s ≡ (ok (some c), s))
      (stored : command_by_id c.id s ≡ some c) (tenant_id : String)
      (of_tenant : present c.tenant_id ≡ some tenant_id) (t : Tenant)
      (known : tenant_by_id tenant_id s ≡ some t) where
    own : (c.host_id == host.id) ≡ true
    own =
        let (found, e, first) = oldest_queued-IsOldest env host.id s d in
        is_own host.id s c found first (from_polled found (some c) s (sym e ∙ polled))

    polled_lem :
        {s1 : Db} {r : Result (Reply (Option NextCommand))}
        → require_host env caller host_id (next_for env) s ≡ next_for env host.id s
        → claim_command env (some c) s ≡ (r, s1)
        → next_command env caller host_id s ≡ (r, s1)
    unfolding next_command
    polled_lem passes taken = passes ∙ ap (λ p. continue p (claim_command env)) polled ∙ taken

    ran :
        (vms : List MicroVm) {s1 s2 s3 : Db} {cmd : NextCommand}
        → next_command env caller host_id s ≡ (ok (send 200 (some cmd)), s1)
        → post_result env caller host_id cmd.command_id executing s1 ≡ (ok (send 200 tt), s2)
        → post_result env caller host_id cmd.command_id (execute agent cmd vms).0 s2
          ≡ (ok (send 200 tt), s3)
        → poll_and_run env agent caller host_id (s, vms) ≡ (s3, (execute agent cmd vms).1)
    unfolding poll_and_run
    ran vms polls told done = rw (polls, told, done) refl

    -- On a documented client, where an admitted agent polls and the oldest command that waits for its
    -- host is stored and of a stored tenant, the poll executes that command, as the host is told of
    -- it, on the machines of the host; its row is then claimed at the time of the poll with one
    -- attempt more, and holds the status, the result and the error of the execution, with the time
    -- of its completion where it ended; and the status of the tenant is what a report of running and
    -- one of that result make of it, in this order.
    pub poll_and_run_lem :
        (vms : List MicroVm)
        → let (result, vms') = execute agent (as_told c) vms in
          (u : Db) × (poll_and_run env agent caller host_id (s, vms) ≡ (u, vms'))
          × (command_by_id c.id u ≡ some (finished env.now result c))
          × ((t' : Tenant) × (tenant_by_id tenant_id u ≡ some t')
              × (t'.status
                  ≡ settled_status c.command_type result.status
                      (settled_status c.command_type running t.status)))
    poll_and_run_lem vms =
        let result = (execute agent (as_told c) vms).0 in
        let (rows, taken, row, m) = claim_command_lem env d c s stored in
        let s1 = record s { commands = rows } in
        let (s2, told, row2, (t2, known2, status2), same2) =
          posted executing s1 (claim env c) tenant_id t refl own row of_tenant known in
        let (s3, done, row3, (t3, known3, status3), same3) =
          posted result s2 (report env executing (claim env c)) tenant_id t2 same2 own row2
            of_tenant known2 in
        let polls =
          polled_lem
            (require_host-admits env caller host_id (next_for env) s s host d admitted refl)
            (taken ∙ ap (λ cmd. (ok (send 200 (some cmd)), s1)) (handed_out-as_told env c)) in
        (
          s3,
          ran vms polls told done,
          row3 ∙ ap some (report-finished env result c),
          (t3, known3, rw status2 at status3),
        )
