-- ===== src/Tests/Polling.antt =====
-- A whole poll of a host agent at a concrete input.
use xoom_agent_control.Prelude.{◌≡◌, refl, some, [], ◌∷◌, find, present}
use xoom_agent_control.Prisma.Order.{Documented-local_client, sorted}
use xoom_agent_control.Rows.{Db, Tenant}
use xoom_agent_control.Auth.{verify_agent_key}
use xoom_agent_control.Action.{ok}
use xoom_agent_control.Guards.{bearer}
use xoom_agent_control.Guards.Admission.{AdmittedHost}
use xoom_agent_control.Requests.{running}
use xoom_agent_control.Hosts.Queue.{oldest_queued}
use xoom_agent_control.Hosts.Queue.Claims.{command_by_id, as_told}
use xoom_agent_control.Hosts.Reconcile.Outcomes.{tenant_by_id, settled_status}
use xoom_agent_control.Agent.Executor.{execute}
use xoom_agent_control.Agent.Poll.{poll_and_run}
use xoom_agent_control.Agent.Poll.Settles.{finished, poll_and_run_lem}
use xoom_agent_control.Tests.Fixtures.{env, agent, host, acme, acme_vm, command, db, caller}

admitted : AdmittedHost env caller "h1" db host
admitted = record {
  named = refl;
  token = "key";
  hash = "key";
  presented = unfold present bearer in refl;
  stored = unfold find in refl;
  is_approved = refl;
  has_key = unfold present in refl;
  verified = unfold verify_agent_key in refl;
}

first_queued : oldest_queued env "h1" db ≡ (ok (some command), db)
unfolding oldest_queued find sorted
first_queued = refl

poll_and_run_lem_example :
    let (result, vms') = execute agent (as_told command) (acme_vm ∷ []) in
    (u : Db) × (poll_and_run env agent caller "h1" (db, acme_vm ∷ []) ≡ (u, vms'))
    × (command_by_id "c1" u ≡ some (finished 1000 result command))
    × ((t' : Tenant) × (tenant_by_id "t1" u ≡ some t')
        × (t'.status
            ≡ settled_status command.command_type result.status
                (settled_status command.command_type running acme.status)))
poll_and_run_lem_example =
    poll_and_run_lem env Documented-local_client caller "h1" db host admitted agent command
      first_queued (unfold find in refl) "t1" (unfold present in refl) acme (unfold find in refl)
      (acme_vm ∷ [])
