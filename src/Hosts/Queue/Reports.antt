-- ===== src/Hosts/Queue/Reports.antt =====
-- What a report does to a command.
use xoom_agent_control.Prelude.{◌≡◌, refl, String, ◌&&◌, ◌==◌, none, find}
use xoom_agent_control.Prisma.{Documented}
use xoom_agent_control.Rows.{Db, HostCommand}
use xoom_agent_control.Env.{Env, by_standard}
use xoom_agent_control.Guards.{Caller}
use xoom_agent_control.Action.{ok, refuse}
use xoom_agent_control.Requests.{CommandResultRequest}
use xoom_agent_control.Hosts.Queue.{take_result}

-- On a documented client, a host that reports on a command that is not its own, or that does
-- not exist, is answered with 404, and nothing changes.
pub take_result-none :
    (env : Env) (body : CommandResultRequest) (caller : Caller) (command_id host_id : String)
    (s : Db)
    → Documented env.client
    → find (λ (c : HostCommand). c.id == command_id && c.host_id == host_id) s.commands ≡ none
    → take_result env body caller command_id host_id s
      ≡ (ok (refuse 404 (record { error = "not_found"; message = none })), s)
take_result-none env body caller command_id host_id s d e =
    by_standard
      (λ v.
        take_result v body caller command_id host_id s
        ≡ (ok (refuse 404 (record { error = "not_found"; message = none })), s))
      env d (unfold take_result in rw e refl)
