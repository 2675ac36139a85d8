-- ===== src/Agent/Executor.antt =====
-- host-agent/src/{executor,swarmclaw}.ts: what the agent does for each type of command.
pub mod Machines
pub mod Refinement
use xoom_agent_control.Prelude.{
  String, Option, none, some, List, [], ◌∷◌, template, decimal, get_or,
}
use xoom_agent_control.Json.{
  end, field, Fields, Json, null, str, num, obj, object, Fields, get, to_string,
}
use xoom_agent_control.Enums.{CommandType}
use xoom_agent_control.Requests.{NextCommand, CommandResultRequest, succeeded, failed}
use xoom_agent_control.Agent.Payload.{CreateTenantCommandPayload, safe_parse}
use xoom_agent_control.Agent.Firecracker.{
  AgentEnv, MicroVm, Outcome, done, thrown, create_microvm, stop_microvm, start_microvm,
  delete_microvm,
}

-- `SwarmClawConfig`, without its fields that are always empty.
pub record SwarmClawConfig : Type 0 where
  pub tenant_id : String
  pub tenant_name : String
  pub runtime_version : String
  pub mcp_servers : List String
  pub llm_gateway_url : Option String
  pub litellm_virtual_key_ref : Option String
  pub memory_namespace : Option String
  pub memory_provider : Option String
  pub webhook_callback_url : Option String
  pub log_forward_url : Option String

abbrev field_of : {A B : Type 0} → Option A → (A → B) → Option B
field_of none f = none
field_of (some a) f = some (f a)

unfoldable pub build_tenant_config : CreateTenantCommandPayload → Option String → SwarmClawConfig
build_tenant_config payload tenant_id = record {
  tenant_id = get_or tenant_id payload.tenant_slug;
  tenant_name = get_or payload.tenant_name payload.tenant_slug;
  runtime_version = payload.runtime_version;
  mcp_servers = get_or payload.mcp [];
  llm_gateway_url = field_of payload.llm (λ l. l.base_url);
  litellm_virtual_key_ref = field_of payload.llm (λ l. l.virtual_key_secret_ref);
  memory_namespace = field_of payload.memory (λ m. m.namespace);
  memory_provider = field_of payload.memory (λ m. m.provider);
  webhook_callback_url = payload.webhook_callback_url;
  log_forward_url = payload.log_forward_url;
}

-- Both modes answer with the URL of the tenant.
unfoldable pub install_and_start :
    CreateTenantCommandPayload → Option String → String × SwarmClawConfig
unfolding build_tenant_config template
install_and_start payload tenant_id = (
  template ("https://" ∷ payload.tenant_slug ∷ ".xoomagent.com" ∷ []),
  build_tenant_config payload tenant_id,
)

abbrev pub succeed : String → Fields → CommandResultRequest
succeed message result = record {
  status = succeeded;
  message = some message;
  result = some result;
  error = none;
}

abbrev pub fail : String → CommandResultRequest
fail message = record { status = failed; message = none; result = none; error = some message }

-- `payload(cmd)[key]`: the properties of a payload that is no object are missing.
abbrev pub payload_field : String → Json → Option Json
payload_field key (obj fields) = get key fields
payload_field key _ = none

abbrev text_of : Option Json → String
text_of none = ""
text_of (some null) = ""
text_of (some v) = to_string v

-- `String(payload.tenant_slug ?? "")`
unfoldable pub slug_of : NextCommand → String
unfolding get to_string
slug_of cmd = text_of (payload_field "tenant_slug" cmd.payload)

-- The member `key: value` of a result as JSON: a value that is `undefined` leaves it out.
abbrev pub optional_member : String → Option Json → Fields
optional_member key none = end
optional_member key (some v) = field key v end

module _ (agent : AgentEnv) where
  -- A command's result, and the machines that run after it.
  abbrev pub Executed : Type 0
  Executed = CommandResultRequest × List MicroVm

  abbrev pub created :
      CreateTenantCommandPayload → Option String → Outcome MicroVm × List MicroVm → Executed
  created payload tenant_id (thrown message, vms) = (fail message, vms)
  created payload tenant_id (done vm, vms) =
      let (runtime_url, config) = install_and_start payload tenant_id in
      (
        succeed "Tenant created successfully" (
            object (
              ("microvm_id", str vm.microvm_id)
              ∷ ("tenant_internal_ip", str vm.tenant_internal_ip)
              ∷ ("runtime_url", str runtime_url)
              ∷ [])),
        vms,
      )

  abbrev pub create_parsed :
      NextCommand → Option CreateTenantCommandPayload → List MicroVm → Executed
  create_parsed cmd none vms = (fail (agent.parse_error cmd.payload), vms)
  create_parsed cmd (some payload) vms =
      created payload cmd.tenant_id (create_microvm agent payload vms)

  abbrev pub started : Outcome MicroVm × List MicroVm → Executed
  started (thrown message, vms) = (fail message, vms)
  started (done vm, vms) =
      (succeed "Tenant started" (object (("microvm_id", str vm.microvm_id) ∷ [])), vms)

  abbrev pub start_parsed :
      NextCommand → Option CreateTenantCommandPayload → List MicroVm → Executed
  start_parsed cmd none vms =
      (succeed "Tenant start acknowledged" (object (("tenant_slug", str (slug_of cmd)) ∷ [])), vms)
  start_parsed cmd (some payload) vms = started (start_microvm agent (slug_of cmd) payload vms)

  abbrev pub deleted : NextCommand → Outcome Unit × List MicroVm → Executed
  deleted cmd (thrown message, vms) = (fail message, vms)
  deleted cmd (done _, vms) =
      (succeed "Tenant deleted" (object (("tenant_slug", str (slug_of cmd)) ∷ [])), vms)

  abbrev pub stopped : NextCommand → String → List MicroVm → Executed
  stopped cmd message vms = (
    succeed message (object (("tenant_slug", str (slug_of cmd)) ∷ [])),
    stop_microvm agent (slug_of cmd) vms,
  )

  abbrev pub artifact_path : NextCommand → String
  artifact_path cmd =
      template ("s3://xoom-backups/" ∷ slug_of cmd ∷ "/" ∷ decimal agent.now ∷ ".tar.zst" ∷ [])

  -- The `switch` of `execute`.
  abbrev pub execute_type : CommandType → NextCommand → List MicroVm → Executed
  execute_type CommandType.create_tenant cmd vms =
      create_parsed cmd (safe_parse agent.is_url cmd.payload) vms
  execute_type CommandType.start_tenant cmd vms =
      start_parsed cmd (safe_parse agent.is_url cmd.payload) vms
  execute_type CommandType.stop_tenant cmd vms = stopped cmd "Tenant stopped" vms
  execute_type CommandType.restart_tenant cmd vms = stopped cmd "Tenant restarting" vms
  execute_type CommandType.delete_tenant cmd vms =
      deleted cmd (delete_microvm agent (slug_of cmd) vms)
  execute_type CommandType.update_runtime cmd vms = (
    succeed "Runtime update applied"
        (optional_member "runtime_version" (payload_field "runtime_version" cmd.payload)),
    vms,
  )
  execute_type CommandType.backup_tenant cmd vms = (
    succeed "Backup completed"
        (object (("artifact_path", str (artifact_path cmd)) ∷ ("size_bytes", num 0) ∷ [])),
    vms,
  )
  execute_type CommandType.collect_logs cmd vms =
      (succeed "Logs collected" (object (("lines", num 0) ∷ [])), vms)
  execute_type CommandType.restore_tenant cmd vms = (succeed "Restore completed" (object []), vms)

  unfoldable pub execute : NextCommand → List MicroVm → Executed
  unfolding safe_parse create_microvm start_microvm stop_microvm delete_microvm slug_of
      install_and_start template
  execute cmd vms = execute_type cmd.command_type cmd vms
