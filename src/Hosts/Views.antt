-- ===== src/Hosts/Views.antt =====
-- apps/api/src/modules/hosts/admin.routes.ts: the detail view of a host, and its heartbeats, which stand
-- in the order of their creation.
use mathlib.Core.List.{reverse}
use xoom_agent_control.Prelude.{String, Bool, false, ◌==◌, Option, none, some, List, take}
use xoom_agent_control.Rows.{Tenant, Host, HostHeartbeat, HostCommand}
use xoom_agent_control.Env.{Env}
use xoom_agent_control.Guards.{Caller, require_user}
use xoom_agent_control.Action.{Action, Reply, send, pure, reject, ◌>>=◌}
use xoom_agent_control.Tables.{tenant_table, host_table, heartbeat_table, command_table}
use xoom_agent_control.Query.{find_first, find_many, find_many_by}
use xoom_agent_control.Commands.{newer}

pub record HostDetail : Type 0 where
  pub host : Host
  pub tenants : List Tenant
  pub heartbeats : List HostHeartbeat
  pub commands : List HostCommand

abbrev pub is_on : String → Option String → Bool
is_on id none = false
is_on id (some host_id) = host_id == id

module _ (env : Env) where
  abbrev pub host_detail : Option Host → Action (Reply HostDetail)
  host_detail none = reject 404 "not_found"
  host_detail (some host) = do
    tenants ← find_many env tenant_table (λ t. is_on host.id t.assigned_host_id)
    heartbeats ← find_many env heartbeat_table (λ b. b.host_id == host.id)
    commands ← find_many_by env command_table newer (λ c. c.host_id == host.id)
    pure (
        send 200 (record {
          host = host;
          tenants = tenants;
          heartbeats = take 30 (reverse heartbeats);
          commands = take 20 commands;
        }))

  -- GET /:id
  unfoldable pub get_host : Caller → String → Action (Reply HostDetail)
  unfolding require_user find_first find_many find_many_by newer
  get_host caller id =
      require_user env false caller
        λ user. do host ← find_first env host_table (λ h. h.id == id); host_detail host

  -- GET /:id/logs
  unfoldable pub get_host_logs : Caller → String → Action (Reply (List HostHeartbeat))
  unfolding require_user find_many
  get_host_logs caller id = require_user env false caller λ user. do
    heartbeats ← find_many env heartbeat_table (λ b. b.host_id == id)
    pure (send 200 (take 100 (reverse heartbeats)))
