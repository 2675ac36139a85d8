-- ===== src/Agent/Join.antt =====
-- host-agent/src/{state,agent,api-client}.ts: how an agent gets and keeps its credentials. The file
-- of the state is a value here: what `JSON.parse` read, or nothing.
use xoom_agent_control.Prelude.{
  String, Bool, true, false, not, Option, none, some, [], ◌∷◌, template, present, if◌then◌else◌,
}
use xoom_agent_control.Json.{bool, obj, object}
use xoom_agent_control.Rows.{Db}
use xoom_agent_control.Env.{Env}
use xoom_agent_control.Guards.{Caller}
use xoom_agent_control.Action.{Result, Reply, send, refuse, respond}
use xoom_agent_control.Requests.{RegisterHostRequest, HostResources}
use xoom_agent_control.Hosts.Registration.{Registered, register}
use xoom_agent_control.Agent.Config.{AgentConfig}

pub record AgentState : Type 0 where
  pub host_id : Option String
  pub agent_key : Option String
  pub approved : Option Bool

abbrev pub no_state : AgentState
no_state = record { host_id = none; agent_key = none; approved = none }

-- `loadState`: a file that is missing or does not parse is an empty state.
unfoldable pub load_state : Option AgentState → AgentState
load_state none = no_state
load_state (some state) = state

-- `collectCapacity`
abbrev pub HostCapacity : Type 0
HostCapacity = HostResources

-- The body that `ensureRegistered` sends.
abbrev pub registration_of : AgentConfig → HostCapacity → RegisterHostRequest
registration_of cfg cap = record {
  host_name = cfg.host_name;
  provider = "hetzner";
  location = cfg.location;
  public_ip = cfg.public_ip;
  private_ip = cfg.private_ip;
  host_agent_version = cfg.agent_version;
  firecracker_version = if cfg.mock_mode then some "mock" else none;
  capabilities = obj (
      object (
        ("kvm", bool (not cfg.mock_mode))
        ∷ ("firecracker", bool true)
        ∷ ("nftables", bool (not cfg.mock_mode))
        ∷ ("docker", bool false)
        ∷ []));
  resources = cap;
}

abbrev pub has_credentials : AgentState → Bool
has_credentials state = elim (present state.host_id) [
  | none ↦ false
  | some id ↦ elim (present state.agent_key) [ none ↦ false | some key ↦ true ]
]

-- `Authorization`, which `ControlPlaneClient.req` sends to the routes of the hosts.
abbrev pub authorization_of : Option String → Option String
authorization_of none = none
authorization_of (some key) = some (template ("Bearer " ∷ key ∷ []))

abbrev pub caller_of : AgentState → String → Caller
caller_of state ip = record { authorization = authorization_of (present state.agent_key); ip = ip }

module _ (env : Env) (cfg : AgentConfig) (cap : HostCapacity) (ip : String) where
  -- The state that is saved, in memory and in its file, or the exception: a refusal keeps the state.
  abbrev pub joined : AgentState → Reply Registered → AgentState
  joined state (send code r) = record {
    host_id = some r.host_id;
    agent_key = some r.agent_key;
    approved = some r.approved;
  }
  joined state (refuse code body) = state

  abbrev pub join_with : AgentState → Result (Reply Registered) × Db → AgentState × Db
  join_with state (r, s) = (joined state (respond r), s)

  -- `ensureRegistered`
  unfoldable pub ensure_registered : AgentState → Db → AgentState × Db
  unfolding present template register respond
  ensure_registered state s =
      if has_credentials state
      then (state, s)
      else join_with state (
          register env (some cfg.registration_token) (caller_of state ip) (registration_of cfg cap)
            s)
