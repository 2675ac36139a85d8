-- ===== src/Agent/Executor/Machines.antt =====
-- What a command does to the machines of a host.
use xoom_agent_control.Prelude.{◌≡◌, refl, String, Option, none, List}
use xoom_agent_control.Enums.{CommandType}
use xoom_agent_control.Requests.{NextCommand, succeeded, start}
use xoom_agent_control.Tenants.Lifecycle.{command_payload}
use xoom_agent_control.Agent.Firecracker.{AgentEnv, MicroVm, lookup}
use xoom_agent_control.Agent.Firecracker.Registry.{lookup-stop_microvm}
use xoom_agent_control.Agent.Executor.{execute, slug_of}

-- A start command as `runAction` enqueues it.
abbrev pub start_command : String → String → Option String → NextCommand
start_command id slug tenant_id = record {
  command_id = id;
  command_type = CommandType.start_tenant;
  tenant_id = tenant_id;
  payload = command_payload start slug none;
}

-- A start command as the control plane enqueues it, with the slug alone, is reported as a
-- success, and no machine is started.
pub execute-start_command :
    (agent : AgentEnv) (id slug : String) (tenant_id : Option String) (vms : List MicroVm)
    → ((execute agent (start_command id slug tenant_id) vms).0.status ≡ succeeded)
      × ((execute agent (start_command id slug tenant_id) vms).1 ≡ vms)
unfolding execute
execute-start_command agent id slug tenant_id vms = (refl, refl)

-- A restart command is reported as a success and leaves no machine under the slug of its
-- tenant.
pub execute-restart_tenant :
    (agent : AgentEnv) (cmd : NextCommand) (vms : List MicroVm)
    → cmd.command_type ≡ CommandType.restart_tenant
    → ((execute agent cmd vms).0.status ≡ succeeded)
      × (lookup (slug_of cmd) (execute agent cmd vms).1 ≡ none)
unfolding execute
execute-restart_tenant agent cmd vms e =
    (rw e refl, rw e (lookup-stop_microvm agent (slug_of cmd) vms))
