-- ===== src/Tests/Fixtures.antt =====
-- A small deployment: an environment whose outside calls are concrete functions, one host, one
-- tenant and two commands.
use xoom_agent_control.Prelude.{
  ℕ, zero, suc, String, true, false, ◌==◌, none, some, [], ◌∷◌, pos, if◌then◌else◌, get_or, List,
  template,
}
use xoom_agent_control.Json.{null, obj, end}
use xoom_agent_control.Enums.{online, active, CommandType, queued, support_engineer}
use xoom_agent_control.Prisma.Order.{local_client}
use xoom_agent_control.Rows.{Db, empty_db, Host, Tenant, TenantResourceLimit, HostCommand}
use xoom_agent_control.Env.{Env, AppConfig, SessionUser, Claims}
use xoom_agent_control.Guards.{Caller}
use xoom_agent_control.Tenants.Create.Config.{Limits}
use xoom_agent_control.Requests.{
  LoginRequest, LlmConfigInput, CreateTenantRequest, HeartbeatRequest, RegisterHostRequest,
  CommandResultRequest, ResultStatus,
}
use xoom_agent_control.Scheduler.{RequiredResources}
use xoom_agent_control.Agent.Firecracker.{AgentEnv, MicroVm}

abbrev config : AppConfig
config = record {
  api_public_url = "https://api.example.com";
  jwt_secret = "jwt";
  jwt_expires_in = "12h";
  host_registration_token = "join";
  secrets_master_key = none;
  litellm_base_url = "https://llm.example.com";
  litellm_admin_key = none;
  heartbeat_interval_seconds = 15;
  offline_threshold_seconds = 90;
}

abbrev pub ann : SessionUser
ann = record { id = "u1"; email = "ann@example.com"; name = none; role = support_engineer }

-- What a token says of a user.
abbrev pub claiming : SessionUser → Claims
claiming u = record { sub = some u.id; email = some u.email; name = u.name; role = u.role }

-- Ids are runs of `x`, a hash is the text itself, and a seal is the text that it holds.
abbrev repeated : ℕ → String
repeated zero = ""
repeated (suc n) = String.◌∷◌ "x" (repeated n)

abbrev pub env : Env
env = record {
  client = local_client;
  config = config;
  cuid = repeated;
  now = 1000;
  contains = λ s part. s == part;
  text_le = λ a b. true;
  random_token = "token";
  bcrypt_hash = λ rounds s. s;
  bcrypt_compare = λ s hash. s == hash;
  jwt_sign = λ claims secret lifetime. get_or claims.sub "";
  jwt_verify = λ token secret. if token == "session" then some (claiming ann) else none;
  encrypt = λ key s. ("iv", "tag", s);
  decrypt = λ key iv tag enc. some enc;
  decode_base64 = λ s. [];
  dev_key = [];
  generate_key = λ spec. none;
  update_key = λ key update. true;
}

abbrev pub host : Host
host = record {
  id = "h1";
  name = "alpha";
  provider = "hetzner";
  location = none;
  public_ip = none;
  private_ip = none;
  status = online;
  host_agent_version = none;
  firecracker_version = none;
  capabilities = null;
  total_cpu = some 16;
  total_ram_mb = some 65536;
  total_disk_gb = some 500;
  available_cpu = some (pos 8);
  available_ram_mb = some (pos 32768);
  available_disk_gb = some (pos 400);
  agent_key_hash = some "key";
  approved = true;
  last_seen_at = some 900;
}

abbrev pub acme : Tenant
acme = record {
  id = "t1";
  name = "Acme";
  slug = "acme";
  status = active;
  assigned_host_id = some "h1";
  runtime_type = "swarmclaw";
  runtime_version = "1.0";
  domain = none;
}

abbrev pub acme_limits : TenantResourceLimit
acme_limits = record {
  tenant_id = "t1";
  vcpu = 2;
  ram_mb = 4096;
  disk_gb = 40;
  max_agents = 5;
  max_monthly_spend = 0;
  max_tokens_per_day = 0;
  max_mcp_tools = 10;
}

abbrev pub command : HostCommand
command = record {
  id = "c1";
  host_id = "h1";
  tenant_id = some "t1";
  command_type = CommandType.create_tenant;
  status = queued;
  payload = some (obj end);
  result = none;
  error_message = none;
  attempts = 0;
  created_at = 10;
  claimed_at = none;
  completed_at = none;
}

abbrev later : HostCommand
later = record command { id = "c2"; created_at = 20; command_type = CommandType.stop_tenant }

abbrev pub db : Db
db = record empty_db {
  hosts = host ∷ [];
  tenants = acme ∷ [];
  limits = acme_limits ∷ [];
  commands = later ∷ command ∷ [];
}

abbrev pub caller : Caller
caller = record { authorization = some "Bearer key"; ip = "192.0.2.1" }

abbrev pub browser : Caller
browser = record { authorization = some "Bearer session"; ip = "192.0.2.2" }

abbrev pub required : RequiredResources
required = record { vcpu = 2; ram_mb = 4096; disk_gb = 40 }

abbrev pub new_tenant : CreateTenantRequest
new_tenant = record {
  name = "Acme again";
  slug = "acme";
  runtime_type = "swarmclaw";
  runtime_version = "1.0";
  domain = none;
  assigned_host_id = none;
  auto_select_host = true;
  resource_limits = none;
  agent_template_id = none;
  mcp_servers = [];
  memory = none;
  llm = none;
}

abbrev pub pulse : HeartbeatRequest
pulse = record {
  status = online;
  cpu_usage = some 10;
  ram_usage = none;
  disk_usage = none;
  running_microvms = [];
  firecracker_status = none;
  agent_status = none;
  host_agent_version = some "0.2.0";
}

abbrev pub joining : RegisterHostRequest
joining = record {
  host_name = "alpha";
  provider = "hetzner";
  location = none;
  public_ip = none;
  private_ip = none;
  host_agent_version = "0.2.0";
  firecracker_version = none;
  capabilities = null;
  resources = record { total_cpu = 16; total_ram_mb = 65536; total_disk_gb = 500 };
}

abbrev pub done_report : CommandResultRequest
done_report = record {
  status = ResultStatus.succeeded;
  message = none;
  result = none;
  error = none;
}

-- Paths without dots or doubled slashes are joined by slashes.
abbrev joined : List String → String
joined [] = ""
joined (part ∷ []) = part
joined (part ∷ (next ∷ rest)) = template (part ∷ "/" ∷ joined (next ∷ rest) ∷ [])

abbrev pub agent : AgentEnv
agent = record {
  mock_mode = true;
  tenants_dir = "/var/lib/xoom";
  join_path = joined;
  is_url = λ s. true;
  parse_error = λ v. "invalid";
  boot_error = λ p. none;
  remove_error = λ s. none;
  now = 1000;
}

abbrev pub acme_vm : MicroVm
acme_vm = record {
  microvm_id = "fc-acme";
  tenant_slug = "acme";
  tenant_internal_ip = "10.80.1.10";
  socket_path = "/var/lib/xoom/acme/firecracker.sock";
}

abbrev pub credentials : LoginRequest
credentials = record { email = "ann@example.com"; password = "secret" }

abbrev pub staffed : Db
staffed = record db {
  users =
      record {
        id = "u1";
        email = "ann@example.com";
        name = none;
        password_hash = "secret";
        role = support_engineer;
        active = true;
        last_login_at = none;
      }
      ∷ [];
}

abbrev pub fresh_tenant : CreateTenantRequest
fresh_tenant = record new_tenant { name = "Zeta"; slug = "zeta"; mcp_servers = "github" ∷ [] }

-- The only host waits for its approval.
abbrev pub crowded : Db
crowded = record db { hosts = record host { approved = false } ∷ [] }

abbrev pub small : Limits
small = record {
  vcpu = 2;
  ram_mb = 4096;
  disk_gb = 40;
  max_agents = 5;
  max_monthly_spend = 0;
  max_tokens_per_day = 0;
  max_mcp_tools = 10;
}

abbrev pub budget : LlmConfigInput
budget = record {
  base_url = none;
  model_allowlist = none;
  max_monthly_spend = some 100;
  rate_limit_rpm = none;
  fallback_models = none;
}
