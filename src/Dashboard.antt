-- ===== src/Dashboard.antt =====
-- apps/api/src/modules/dashboard/routes.ts: the summary.
pub mod Consistency
use xoom_agent_control.Prelude.{
  ℕ, ◌+◌, ◌-◌, ◌*◌, String, Bool, true, false, not, ◌&&◌, Option, none, some, List, length, select,
  take, ltb, get_or, ℤ, pos, ◌-ℤ◌,
}
use xoom_agent_control.Enums.{
  TenantStatus, HostStatus, CommandStatus, is_online, is_queued, is_severe,
}
use xoom_agent_control.Rows.{Tenant, Host, HostCommand, TenantEvent}
use xoom_agent_control.Env.{Env}
use xoom_agent_control.Guards.{Caller, require_user}
use xoom_agent_control.Action.{Action, Reply, send, pure, ◌>>=◌, ◌>>◌}
use xoom_agent_control.Tables.{tenant_table, host_table, event_table, command_table, usage_table}
use xoom_agent_control.Query.{find_many, find_many_by, count, sum_of}
use xoom_agent_control.Tenants.Routes.{later}

abbrev pub is_deleted : TenantStatus → Bool
is_deleted TenantStatus.deleted = true
is_deleted _ = false

abbrev pub is_active : TenantStatus → Bool
is_active TenantStatus.active = true
is_active _ = false

abbrev pub is_suspended : TenantStatus → Bool
is_suspended TenantStatus.suspended = true
is_suspended _ = false

abbrev pub has_failed : TenantStatus → Bool
has_failed TenantStatus.failed = true
has_failed _ = false

abbrev pub command_failed : CommandStatus → Bool
command_failed CommandStatus.failed = true
command_failed _ = false

-- `h.lastSeenAt && h.lastSeenAt > offlineThreshold`, with the threshold before now
abbrev pub seen_since : ℕ → ℕ → Option ℕ → Bool
seen_since threshold now none = false
seen_since threshold now (some seen) = ltb now (seen + threshold)

-- A difference of two counts may be negative.
pub record Summary : Type 0 where
  pub total_tenants : ℕ
  pub active_tenants : ℕ
  pub suspended_tenants : ℕ
  pub failed_tenants : ℕ
  pub offline_tenants : ℤ
  pub total_hosts : ℕ
  pub online_hosts : ℕ
  pub offline_hosts : ℤ
  pub failed_commands : ℕ
  pub pending_commands : ℕ
  pub input_tokens : ℕ
  pub output_tokens : ℕ
  pub spend_usd : ℕ
  pub recent_errors : List TenantEvent

module _ (env : Env) where
  abbrev pub counts_as_online : Host → Bool
  counts_as_online h =
      is_online h.status
      && seen_since (env.config.offline_threshold_seconds * 1000) env.now h.last_seen_at

  -- The handler behind the guard; its queries change nothing, so their order does not matter.
  unfoldable pub summarise : Action (Reply Summary)
  unfolding count find_many find_many_by sum_of select ◌-ℤ◌
  summarise = do
    total_tenants ← count env tenant_table (λ t. not (is_deleted t.status))
    active ← count env tenant_table (λ t. is_active t.status)
    suspended ← count env tenant_table (λ t. is_suspended t.status)
    failed ← count env tenant_table (λ t. has_failed t.status)
    total_hosts ← count env host_table (λ h. true)
    hosts ← find_many env host_table (λ h. true)
    errors ← find_many_by env event_table later (λ e. is_severe e.severity)
    failed_commands ← count env command_table (λ c. command_failed c.status)
    pending_commands ← count env command_table (λ c. is_queued c.status)
    input_tokens ← sum_of env usage_table (λ m. m.input_tokens)
    output_tokens ← sum_of env usage_table (λ m. m.output_tokens)
    spend ← sum_of env usage_table (λ m. m.spend_usd)
    let online = length (select counts_as_online hosts)
    pure (
        send 200 (record {
          total_tenants = total_tenants;
          active_tenants = active;
          suspended_tenants = suspended;
          failed_tenants = failed;
          offline_tenants = pos total_tenants -ℤ pos active;
          total_hosts = total_hosts;
          online_hosts = online;
          offline_hosts = pos total_hosts -ℤ pos online;
          failed_commands = failed_commands;
          pending_commands = pending_commands;
          input_tokens = get_or input_tokens 0;
          output_tokens = get_or output_tokens 0;
          spend_usd = get_or spend 0;
          recent_errors = take 10 errors;
        }))

  -- GET /summary
  unfoldable pub summary : Caller → Action (Reply Summary)
  unfolding require_user summarise
  summary caller = require_user env false caller λ user. summarise
