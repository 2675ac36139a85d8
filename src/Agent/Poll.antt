-- ===== src/Agent/Poll.antt =====
-- `HostAgent` of host-agent/src/agent.ts against the API: a poll takes a command, reports that it
-- runs, executes it and reports the result. A request that the API refuses makes the client
-- throw, which ends the poll.
pub mod Settles
use xoom_agent_control.Prelude.{ℕ, if◌then◌else◌, String, Option, none, some, List, [], ◌∷◌}
use xoom_agent_control.Rows.{Db}
use xoom_agent_control.Env.{Env}
use xoom_agent_control.Guards.{Caller}
use xoom_agent_control.Action.{Result, Reply, send, refuse, respond}
use xoom_agent_control.Requests.{
  NextCommand, CommandResultRequest, running, RunningMicrovm, HeartbeatRequest,
}
use xoom_agent_control.Enums.{online}
use xoom_agent_control.Hosts.Registration.{heartbeat}
use xoom_agent_control.Hosts.Queue.{next_command, post_result}
use xoom_agent_control.Agent.Firecracker.{AgentEnv, MicroVm}
use xoom_agent_control.Agent.Executor.{execute}

-- The database of the control plane, and the machines of the host.
abbrev pub System : Type 0
System = Db × List MicroVm

-- `collectMetrics`, in percent
pub record Metrics : Type 0 where
  pub cpu_usage : ℕ
  pub ram_usage : ℕ
  pub disk_usage : ℕ

abbrev pub executing : CommandResultRequest
executing = record { status = running; message = some "Executing"; result = none; error = none }

module _ (env : Env) (agent : AgentEnv) (caller : Caller) (host_id : String) where
  abbrev pub report_executed : NextCommand → Reply Unit × Db → List MicroVm → System
  report_executed cmd (refuse code body, s) vms = (s, vms)
  report_executed cmd (send code ok, s) vms =
      let (result, vms') = execute agent cmd vms in
      ((post_result env caller host_id cmd.command_id result s).1, vms')

  abbrev replied : {A : Type 0} → Result (Reply A) × Db → Reply A × Db
  replied (r, s) = (respond r, s)

  abbrev pub run_command : Reply (Option NextCommand) × Db → List MicroVm → System
  run_command (refuse code body, s) vms = (s, vms)
  run_command (send code none, s) vms = (s, vms)
  run_command (send code (some cmd), s) vms =
      report_executed cmd (replied (post_result env caller host_id cmd.command_id executing s)) vms

  -- `pollAndRunCommands`
  unfoldable pub poll_and_run : System → System
  unfolding next_command post_result respond execute
  poll_and_run (s, vms) = run_command (replied (next_command env caller host_id s)) vms

  abbrev microvms : List MicroVm → List RunningMicrovm
  microvms [] = []
  microvms (v ∷ vms) = record { tenant_id = v.tenant_slug; status = "running" } ∷ microvms vms

  -- The body of a heartbeat: the agent always calls itself online.
  abbrev pub heartbeat_of : Metrics → String → List MicroVm → HeartbeatRequest
  heartbeat_of m version vms = record {
    status = online;
    cpu_usage = some m.cpu_usage;
    ram_usage = some m.ram_usage;
    disk_usage = some m.disk_usage;
    running_microvms = microvms vms;
    firecracker_status = some (if agent.mock_mode then "mock" else "ok");
    agent_status = some "ok";
    host_agent_version = some version;
  }

  -- `sendHeartbeat`, which ignores the answer and the errors
  unfoldable pub send_heartbeat : Metrics → String → System → System
  unfolding heartbeat
  send_heartbeat m version (s, vms) =
      ((heartbeat env caller host_id (heartbeat_of m version vms) s).1, vms)
