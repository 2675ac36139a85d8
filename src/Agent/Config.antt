-- ===== src/Agent/Config.antt =====
-- host-agent/src/config.ts: the configuration of the agent, from the environment variables.
use xoom_agent_control.Prelude.{
  ℕ, String, Bool, true, not, ◌==◌, Option, none, some, [], ◌∷◌, template, get_or,
}

pub record AgentConfig : Type 0 where
  pub control_plane_url : String
  pub registration_token : String
  pub host_name : String
  pub location : Option String
  pub public_ip : Option String
  pub private_ip : Option String
  pub agent_version : String
  pub state_path : String
  pub heartbeat_interval_seconds : Option ℕ
  pub poll_interval_seconds : Option ℕ
  pub mock_mode : Bool
  pub tenants_dir : String
  pub kernel_image : String
  pub rootfs_base : String

abbrev pub agent_version : String
agent_version = "0.1.0"

-- What Node says of its machine: `os.hostname()`, `process.cwd()`, and `Number(text)`, with `none` for
-- what is no natural number.
pub record Machine : Type 0 where
  pub hostname : String
  pub cwd : String
  pub number : String → Option ℕ

abbrev is_set_to : String → Option String → Bool
is_set_to value none = not true
is_set_to value (some s) = s == value

abbrev seconds : Machine → Option String → ℕ → Option ℕ
seconds machine none d = some d
seconds machine (some s) d = machine.number s

-- `loadAgentConfig`, of the variables by their names
unfoldable pub load_agent_config : Machine → (String → Option String) → AgentConfig
unfolding template
load_agent_config machine env = record {
  control_plane_url = get_or (env "CONTROL_PLANE_URL") "http://localhost:4000";
  registration_token = get_or (env "HOST_REGISTRATION_TOKEN") "dev-host-registration-token";
  host_name = get_or (env "HOST_NAME") machine.hostname;
  location = env "HOST_LOCATION";
  public_ip = env "HOST_PUBLIC_IP";
  private_ip = env "HOST_PRIVATE_IP";
  agent_version = agent_version;
  state_path = get_or (env "AGENT_STATE_PATH") (template (machine.cwd ∷ "/.agent-state.json" ∷ []));
  heartbeat_interval_seconds = seconds machine (env "HEARTBEAT_INTERVAL_SECONDS") 30;
  poll_interval_seconds = seconds machine (env "POLL_INTERVAL_SECONDS") 5;
  mock_mode = not (is_set_to "false" (env "AGENT_MOCK_MODE"));
  tenants_dir = get_or (env "TENANTS_DIR") "/var/lib/xoomagent/tenants";
  kernel_image = get_or (env "FC_KERNEL_IMAGE") "/var/lib/xoomagent/images/vmlinux.bin";
  rootfs_base = get_or (env "FC_ROOTFS_BASE") "/var/lib/xoomagent/images/rootfs.ext4";
}
