-- ===== src/Tests/Machines.antt =====
-- The host agent at concrete inputs.
use xoom_agent_control.Prelude.{arith, ℕ, ◌+◌, ◌%◌, template, decimal}
use xoom_agent_control.Tenants.Create.Config.{create_payload, litellm_key_ref}
use xoom_agent_control.Agent.Payload.{safe_parse}
use xoom_agent_control.Agent.Payload.Accepted.{callback_url, logs_url, safe_parse-create_payload}
use xoom_agent_control.Tests.Fixtures.{fresh_tenant, small}
use xoom_agent_control.Prelude.{◌≡◌, refl, ◌≤◌, true, none, some, [], ◌∷◌}
use xoom_agent_control.Enums.{CommandType}
use xoom_agent_control.Requests.{succeeded, NextCommand}
use xoom_agent_control.Agent.Firecracker.{allocate_ip, lookup}
use xoom_agent_control.Agent.Firecracker.Registry.{number_of, allocate_ip_lem}
use xoom_agent_control.Agent.Executor.{execute, slug_of}
use xoom_agent_control.Agent.Executor.Machines.{
  start_command, execute-start_command, execute-restart_tenant,
}
use xoom_agent_control.Tests.Fixtures.{env, agent, acme_vm}

allocate_ip_lem_example :
    (a b : ℕ) × (allocate_ip "acme" ≡ template ("10.80." ∷ decimal a ∷ "." ∷ decimal b ∷ []))
    × (a ≡ 1 + number_of 0 "acme" % 250)
    × (b ≡ 10 + number_of 0 "acme" % 240)
    × (1 ≤ a)
    × (a ≤ 250)
    × (10 ≤ b)
    × (b ≤ 249)
allocate_ip_lem_example = allocate_ip_lem "acme"

execute-start_command_example :
    ((execute agent (start_command "c9" "acme" (some "t1")) []).0.status ≡ succeeded)
    × ((execute agent (start_command "c9" "acme" (some "t1")) []).1 ≡ [])
execute-start_command_example = execute-start_command agent "c9" "acme" (some "t1") []

abbrev restarting : NextCommand
restarting = record (start_command "c9" "acme" (some "t1")) {
  command_type = CommandType.restart_tenant;
}

execute-restart_tenant_example :
    ((execute agent restarting (acme_vm ∷ [])).0.status ≡ succeeded)
    × (lookup (slug_of restarting) (execute agent restarting (acme_vm ∷ [])).1 ≡ none)
execute-restart_tenant_example = execute-restart_tenant agent restarting (acme_vm ∷ []) refl

safe_parse-create_payload_example :
    safe_parse (λ url. true) (create_payload env fresh_tenant small "t9" "h1")
    ≡ some (record {
      tenant_slug = "zeta";
      tenant_name = some "Zeta";
      runtime = "swarmclaw";
      runtime_version = "1.0";
      resources = record { vcpu = 2; ram_mb = 4096; disk_gb = 40 };
      llm = some (record {
        provider = "litellm";
        base_url = "https://llm.example.com";
        virtual_key_secret_ref = litellm_key_ref "zeta";
        model_allowlist = some [];
      });
      memory =
          some (record { provider = "supermemory"; namespace = "zeta"; api_key_secret_ref = none });
      mcp = some ("github" ∷ []);
      webhook_callback_url = some (callback_url env fresh_tenant small "t9" "h1");
      log_forward_url = some (logs_url env fresh_tenant small "t9" "h1");
    })
safe_parse-create_payload_example =
    safe_parse-create_payload env fresh_tenant small "t9" "h1" (λ url. true) refl refl refl
      (omega arith) (omega arith) (omega arith)
