-- ===== src/Hosts/Registration.antt =====
-- apps/api/src/modules/hosts/agent.routes.ts: registration, heartbeats and forwarded logs.
pub mod Status
use xoom_agent_control.Prelude.{
  ℕ, String, Bool, false, ◌==◌, Option, none, some, List, [], ◌∷◌, length, pos, get_or, present,
  if◌then◌else◌,
}
use xoom_agent_control.Json.{null, str, obj, object}
use xoom_agent_control.Enums.{HostStatus, online, is_withdrawn}
use xoom_agent_control.Rows.{Host, HostHeartbeat}
use xoom_agent_control.Env.{Env}
use xoom_agent_control.Auth.{hash_agent_key}
use xoom_agent_control.Guards.{Caller, require_host}
use xoom_agent_control.Action.{Action, Reply, send, pure, reject_with, ◌>>=◌, ◌>>◌}
use xoom_agent_control.Tables.{host_table, heartbeat_table, command_table}
use xoom_agent_control.Query.{find_first, count, create, update}
use xoom_agent_control.Audit.{host_registered, record_audit, record_tenant_event, no_metadata}
use xoom_agent_control.Requests.{
  RegisterHostRequest, HeartbeatRequest, HeartbeatResponse, ForwardLogsRequest, ForwardedEvent,
}
use xoom_agent_control.Hosts.Common.{from_ip, is_waiting}

pub record Registered : Type 0 where
  pub host_id : String
  pub agent_key : String
  pub approved : Bool
  pub heartbeat_interval_seconds : ℕ

-- `x ?? undefined` in a `data` clause.
abbrev kept : Option String → Option String → Option String
kept none current = current
kept (some s) current = some s

-- The capabilities and resources that the host reports; its whole capacity becomes available.
unfoldable pub registration : RegisterHostRequest → String → ℕ → Host → Host
registration body hash now h = record h {
  name = body.host_name;
  provider = body.provider;
  location = body.location;
  public_ip = body.public_ip;
  private_ip = body.private_ip;
  host_agent_version = some body.host_agent_version;
  firecracker_version = body.firecracker_version;
  capabilities = body.capabilities;
  total_cpu = some body.resources.total_cpu;
  total_ram_mb = some body.resources.total_ram_mb;
  total_disk_gb = some body.resources.total_disk_gb;
  available_cpu = some (pos body.resources.total_cpu);
  available_ram_mb = some (pos body.resources.total_ram_mb);
  available_disk_gb = some (pos body.resources.total_disk_gb);
  agent_key_hash = some hash;
  status = online;
  last_seen_at = some now;
}

-- A new row, before `registration` fills it in.
abbrev pub blank_host : String → Host
blank_host id = record {
  id = id;
  name = "";
  provider = "hetzner";
  location = none;
  public_ip = none;
  private_ip = none;
  status = HostStatus.offline;
  host_agent_version = none;
  firecracker_version = none;
  capabilities = null;
  total_cpu = none;
  total_ram_mb = none;
  total_disk_gb = none;
  available_cpu = none;
  available_ram_mb = none;
  available_disk_gb = none;
  agent_key_hash = none;
  approved = false;
  last_seen_at = none;
}

module _ (env : Env) where
  abbrev pub save_host : RegisterHostRequest → String → Option Host → Action Host
  save_host body hash (some existing) =
      update env host_table (λ h. h.id == existing.id) (registration body hash env.now)
  save_host body hash none =
      create env host_table (λ id. registration body hash env.now (blank_host id))

  abbrev pub register_host : Caller → RegisterHostRequest → Action (Reply Registered)
  register_host caller body = do
    existing ← find_first env host_table (λ h. h.name == body.host_name)
    host ← save_host body (hash_agent_key env env.random_token) existing
    record_audit env (from_ip caller) host_registered "host" host.id (
        obj (object (("host_name", str body.host_name) ∷ ("capabilities", body.capabilities) ∷ [])))
    pure (
        send 201 (record {
          host_id = host.id;
          agent_key = env.random_token;
          approved = host.approved;
          heartbeat_interval_seconds = env.config.heartbeat_interval_seconds;
        }))

  -- Whether the header `x-registration-token` is the shared token.
  abbrev pub has_token : Option String → Bool
  has_token none = false
  has_token (some token) = token == env.config.host_registration_token

  -- POST /register
  unfoldable pub register : Option String → Caller → RegisterHostRequest → Action (Reply Registered)
  unfolding find_first registration create update hash_agent_key record_audit
  register token caller body =
      if has_token token
      then register_host caller body
      else reject_with 401 "unauthorized" "Invalid registration token"

  abbrev pub beat : HeartbeatRequest → Host → Host
  beat body h = record h {
    status = body.status;
    last_seen_at = some env.now;
    host_agent_version = kept body.host_agent_version h.host_agent_version;
  }

  abbrev pub desired : HostStatus → Option HostStatus
  desired status = if is_withdrawn status then some status else none

  abbrev pub heartbeat_row : HeartbeatRequest → String → String → HostHeartbeat
  heartbeat_row body host_id id = record {
    id = id;
    host_id = host_id;
    cpu_usage = body.cpu_usage;
    ram_usage = body.ram_usage;
    disk_usage = body.disk_usage;
    running_microvms = length body.running_microvms;
    firecracker_status = body.firecracker_status;
    agent_status = body.agent_status;
  }

  -- The handler behind the guard.
  unfoldable pub take_heartbeat : HeartbeatRequest → String → Action (Reply HeartbeatResponse)
  unfolding create update count
  take_heartbeat body host_id = do
    create env heartbeat_table (heartbeat_row body host_id)
    host ← update env host_table (λ h. h.id == host_id) (beat body)
    waiting ← count env command_table (is_waiting host_id)
    pure (send 200 (record { desired_status = desired host.status; pending_commands = waiting }))

  -- POST /:host_id/heartbeat
  unfoldable pub heartbeat : Caller → String → HeartbeatRequest → Action (Reply HeartbeatResponse)
  unfolding require_host take_heartbeat
  heartbeat caller param body = require_host env caller param (take_heartbeat body)

  -- The loop over the forwarded events.
  unfoldable pub ingest : String → List ForwardedEvent → Action Unit
  unfolding record_tenant_event
  ingest tenant_id [] = pure tt
  ingest tenant_id (e ∷ events) = do
    record_tenant_event env tenant_id e.event_type e.severity e.message
        (get_or e.metadata no_metadata)
    ingest tenant_id events

  abbrev pub ingest_for : Option String → List ForwardedEvent → Action Unit
  ingest_for none events = pure tt
  ingest_for (some tenant_id) events = ingest tenant_id events

  abbrev pub take_logs : ForwardLogsRequest → String → Action (Reply ℕ)
  take_logs body host_id = do
    ingest_for (present body.tenant_id) body.events
    pure (send 200 (length body.events))

  -- POST /:host_id/logs
  unfoldable pub post_logs : Caller → String → ForwardLogsRequest → Action (Reply ℕ)
  unfolding require_host ingest present
  post_logs caller param body = require_host env caller param (take_logs body)
