-- ===== src/Server/Reads.antt =====
-- The routes that read.
use xoom_agent_control.Prelude.{
  ◌≡◌, refl, String, Bool, false, ◌==◌, Option, none, some, List, [], ◌∷◌, inl, inr, Bool-cases,
}
use xoom_agent_control.Rows.{
  Db, Tenant, Host, TenantMcpAccess, HostCommand, AgentTemplate, TenantRuntimeConfig,
}
use xoom_agent_control.Tables.{
  Table, tenant_table, host_table, limit_table, runtime_config_table, mcp_access_table,
  mcp_server_table, secret_table, event_table, command_table, backup_table, heartbeat_table,
}
use xoom_agent_control.Query.{find_first, find_first_by, find_many, find_many_by, count}
use xoom_agent_control.Requests.{ListQuery}
use xoom_agent_control.Env.{Env, SessionUser}
use xoom_agent_control.Guards.{Caller, require_user}
use xoom_agent_control.Guards.Admission.{require_user-Admitted}
use xoom_agent_control.Action.{Action, Reply, pure, ◌>>=◌}
use xoom_agent_control.Server.{
  Query, current_user, users, settings, tenants, tenant, health, hosts, host, host_logs, commands,
  one_command, templates, template, servers, gateway, access, secrets, llm, memory, events,
  audit_logs, usage, backups, dashboard, answer,
}
use xoom_agent_control.Tenants.Routes.{later, assigned_host, health_of}
use xoom_agent_control.Commands.{newer, found}
use xoom_agent_control.Templates.{template_found}
use xoom_agent_control.ProviderRoutes.{llm_found, memory_found}
use xoom_agent_control.Auth.{can_manage_users}
use xoom_agent_control.Hosts.Views.{host_detail}
use xoom_agent_control.Tenants.Views.{
  TenantItem, counted_page, page_rows, tenant_matches, page_of, host_of, include_both, include_all,
  include_servers, detail_of,
}
use xoom_agent_control.Query.Frame.{Keeps, pure-Keeps, bind-Keeps}

abbrev whole : Db → Db
whole s = s

reads :
    {A : Type 0} (env : Env) (caller : Caller) (handler : SessionUser → Action (Reply A)) (s : Db)
    → ((user : SessionUser) → (handler user s).1 ≡ s)
    → (require_user env false caller handler s).1 ≡ s
reads env caller handler s k = elim (require_user-Admitted env false caller handler s) [
  | inl (code, body, e) ↦ rw e refl
  | inr (user, a, e) ↦ rw e (k user)
]

module _ (env : Env) where
  -- Queries that follow one another.
  find_first-Reads :
      {Row : Type 0} (table : Table Row) (w : Row → Bool) → Keeps whole (find_first env table w)
  unfolding find_first
  find_first-Reads table w = record { keeps = λ s. refl }

  find_many-Reads :
      {Row : Type 0} (table : Table Row) (w : Row → Bool) → Keeps whole (find_many env table w)
  unfolding find_many
  find_many-Reads table w = record { keeps = λ s. refl }

  find_many_by-Reads :
      {Row : Type 0} (table : Table Row) (before : Row → Row → Bool) (w : Row → Bool)
      → Keeps whole (find_many_by env table before w)
  unfolding find_many_by
  find_many_by-Reads table before w = record { keeps = λ s. refl }

  find_first_by-Reads :
      {Row : Type 0} (table : Table Row) (before : Row → Row → Bool) (w : Row → Bool)
      → Keeps whole (find_first_by env table before w)
  unfolding find_first_by
  find_first_by-Reads table before w = record { keeps = λ s. refl }

  count-Reads :
      {Row : Type 0} (table : Table Row) (w : Row → Bool) → Keeps whole (count env table w)
  unfolding count
  count-Reads table w = record { keeps = λ s. refl }

  host_of-Reads : (id : Option String) → Keeps whole (host_of env id)
  host_of-Reads none = pure-Keeps whole
  host_of-Reads (some id) = find_first-Reads host_table (λ h. h.id == id)

  include_both-Reads : (t : Tenant) → Keeps whole (include_both env t)
  include_both-Reads t = bind-Keeps whole (host_of-Reads t.assigned_host_id) (λ host.
      bind-Keeps whole (find_first-Reads limit_table (λ l. l.tenant_id == t.id))
        (λ limits. pure-Keeps whole))

  include_all-Reads : (ts : List Tenant) → Keeps whole (include_all env ts)
  unfolding include_all
  include_all-Reads [] = pure-Keeps whole
  include_all-Reads (t ∷ ts) =
      bind-Keeps whole {m = include_both env t}
        {f = λ item. include_all env ts >>= λ items. pure (item ∷ items)} (include_both-Reads t)
        (λ item.
          bind-Keeps whole {m = include_all env ts} {f = λ items. pure (item ∷ items)}
            (include_all-Reads ts) (λ items. pure-Keeps whole))

  counted_page-Reads :
      (q : ListQuery) (items : List TenantItem) → Keeps whole (counted_page env q items)
  counted_page-Reads q items =
      bind-Keeps whole (count-Reads tenant_table (tenant_matches env q)) (λ n. pure-Keeps whole)

  page_of-Reads : (q : ListQuery) (s : Db) → (page_of env q s).1 ≡ s
  unfolding page_of
  page_of-Reads q s =
      (bind-Keeps whole {f = counted_page env q} (include_all-Reads (page_rows env q s))
          (counted_page-Reads q)).keeps
        s

  include_servers-Reads : (access : List TenantMcpAccess) → Keeps whole (include_servers env access)
  unfolding include_servers
  include_servers-Reads [] = pure-Keeps whole
  include_servers-Reads (a ∷ rest) =
      bind-Keeps whole
        {f = λ server. include_servers env rest >>= λ others. pure ((a, server) ∷ others)}
        (find_first-Reads mcp_server_table (λ m. m.id == a.mcp_server_id))
        (λ server.
          bind-Keeps whole {m = include_servers env rest}
            {f = λ others. pure ((a, server) ∷ others)} (include_servers-Reads rest)
            (λ others. pure-Keeps whole))

  detail_of-Reads : (t : Option Tenant) → Keeps whole (detail_of env t)
  detail_of-Reads none = pure-Keeps whole
  detail_of-Reads (some t) = bind-Keeps whole (host_of-Reads t.assigned_host_id) (λ host.
      bind-Keeps whole (find_first-Reads limit_table _) (λ limits.
        bind-Keeps whole (find_first-Reads runtime_config_table _) (λ config.
          bind-Keeps whole (find_many-Reads mcp_access_table _) (λ access.
            bind-Keeps whole (include_servers-Reads access) (λ joined.
              bind-Keeps whole (find_many-Reads secret_table _) (λ secrets.
                bind-Keeps whole (find_many_by-Reads event_table later _) (λ events.
                  bind-Keeps whole (find_many_by-Reads command_table newer _) (λ commands.
                    bind-Keeps whole (find_many-Reads backup_table _)
                      (λ backups. pure-Keeps whole)))))))))

  host_detail-Reads : (h : Option Host) → Keeps whole (host_detail env h)
  host_detail-Reads none = pure-Keeps whole
  host_detail-Reads (some h) = bind-Keeps whole (find_many-Reads tenant_table _) (λ tenants.
      bind-Keeps whole (find_many-Reads heartbeat_table _) (λ heartbeats.
        bind-Keeps whole (find_many_by-Reads command_table newer _) (λ commands. pure-Keeps whole)))

  assigned_host-Reads : (id : Option String) → Keeps whole (assigned_host env id)
  assigned_host-Reads none = pure-Keeps whole
  assigned_host-Reads (some id) = find_first-Reads host_table (λ h. h.id == id)

  health_of-Reads : (t : Option Tenant) → Keeps whole (health_of env t)
  health_of-Reads none = pure-Keeps whole
  health_of-Reads (some t) =
      bind-Keeps whole (assigned_host-Reads t.assigned_host_id)
        (λ host. bind-Keeps whole (find_first_by-Reads event_table later _) (λ e. pure-Keeps whole))

  found-Reads : (c : Option HostCommand) → Keeps whole (found env c)
  found-Reads none = pure-Keeps whole
  found-Reads (some c) = pure-Keeps whole

  template_found-Reads : (t : Option AgentTemplate) → Keeps whole (template_found env t)
  template_found-Reads none = pure-Keeps whole
  template_found-Reads (some t) = pure-Keeps whole

  llm_found-Reads : (c : Option TenantRuntimeConfig) → Keeps whole (llm_found env c)
  llm_found-Reads none = pure-Keeps whole
  llm_found-Reads (some c) = pure-Keeps whole

  memory_found-Reads : (c : Option TenantRuntimeConfig) → Keeps whole (memory_found env c)
  memory_found-Reads none = pure-Keeps whole
  memory_found-Reads (some c) = pure-Keeps whole

  -- No request to a route that reads changes the database, whoever sends it, whether it is answered
  -- or refused, and with any client.
  pub answer-Reads : (q : Query) (s : Db) → answer env q s ≡ s
  unfolding answer
  answer-Reads (events caller q) s = reads env caller _ s (λ user. refl)
  answer-Reads (audit_logs caller q) s = reads env caller _ s (λ user. refl)
  answer-Reads (usage caller q) s = reads env caller _ s (λ user. refl)
  answer-Reads (backups caller q) s = reads env caller _ s (λ user. refl)
  answer-Reads (dashboard caller) s = reads env caller _ s (λ user. refl)
  answer-Reads (current_user caller) s = reads env caller _ s (λ user. refl)
  answer-Reads (settings caller) s = reads env caller _ s (λ user. refl)
  answer-Reads (hosts caller) s = reads env caller _ s (λ user. refl)
  answer-Reads (host_logs caller id) s = reads env caller _ s (λ user. refl)
  answer-Reads (commands caller q) s = reads env caller _ s (λ user. refl)
  answer-Reads (templates caller) s = reads env caller _ s (λ user. refl)
  answer-Reads (servers caller) s = reads env caller _ s (λ user. refl)
  answer-Reads (gateway caller) s = reads env caller _ s (λ user. refl)
  answer-Reads (access caller tenant_id) s = reads env caller _ s (λ user. refl)
  answer-Reads (secrets caller tenant_id) s = reads env caller _ s (λ user. refl)
  answer-Reads (tenants caller q) s = reads env caller _ s (λ user. page_of-Reads q s)
  answer-Reads (tenant caller id) s = reads env caller _ s (λ user. (detail_of-Reads _).keeps s)
  answer-Reads (health caller id) s = reads env caller _ s (λ user. (health_of-Reads _).keeps s)
  answer-Reads (host caller id) s = reads env caller _ s (λ user. (host_detail-Reads _).keeps s)
  answer-Reads (users caller) s = reads env caller _ s (λ user.
      elim (Bool-cases (can_manage_users user.role)) [
        | inl may ↦ rw may refl
        | inr may_not ↦ rw may_not refl
      ])
  answer-Reads (one_command caller id) s = reads env caller _ s (λ user. (found-Reads _).keeps s)
  answer-Reads (template caller id) s =
      reads env caller _ s (λ user. (template_found-Reads _).keeps s)
  answer-Reads (llm caller tenant_id) s = reads env caller _ s (λ user. (llm_found-Reads _).keeps s)
  answer-Reads (memory caller tenant_id) s =
      reads env caller _ s (λ user. (memory_found-Reads _).keeps s)
