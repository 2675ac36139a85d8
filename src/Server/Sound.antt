-- ===== src/Server/Sound.antt =====
-- What the control plane keeps true of its hosts, tenants and commands, and the changes of a row that
-- keep it so.
use xoom_agent_control.Prelude.{
  ◌≡◌, refl, ℕ, ◌==◌, String, Bool, true, false, ◌||◌, Option, none, some, List, [], ◌∷◌, ◌++◌, map,
  find, modify_first, All,
}
use xoom_agent_control.Prisma.{Documented}
use xoom_agent_control.Enums.{TenantStatus, CommandStatus}
use xoom_agent_control.Rows.{Db, Host, Tenant, HostCommand}
use xoom_agent_control.Env.{Env}
use xoom_agent_control.Tables.{is_some, host_table, tenant_table, command_table}
use xoom_agent_control.Query.{create, update, update_linked}
use xoom_agent_control.Server.Keys.{
  Distinct, All-every, All-append, All-find-none, All-weaken, All-modify_first, map-modify_first,
  Distinct-append, eq_comm_false,
}
use xoom_agent_control.Server.Preserve.{
  Preserves, create-Preserves, create-at, update-Preserves, update_linked-Preserves,
}

-- A tenant that waits for a host has none, and one that is being set up has one.
abbrev pub is_placed : TenantStatus → Option String → Bool
is_placed TenantStatus.pending none = true
is_placed TenantStatus.pending (some id) = false
is_placed TenantStatus.provisioning none = false
is_placed TenantStatus.provisioning (some id) = true
is_placed _ host_id = true

-- A command that succeeded or failed has the time of its completion, and no other has one.
abbrev pub is_settled : CommandStatus → Option ℕ → Bool
is_settled CommandStatus.succeeded at = is_some at
is_settled CommandStatus.failed at = is_some at
is_settled _ none = true
is_settled _ (some at) = false

pub record HostsAreSound (hosts : List Host) : Type 0 where
  pub ids : Distinct (map (λ h. h.id) hosts)
  pub names : Distinct (map (λ h. h.name) hosts)

pub record TenantsAreSound (tenants : List Tenant) : Type 0 where
  pub ids : Distinct (map (λ t. t.id) tenants)
  pub slugs : Distinct (map (λ t. t.slug) tenants)
  pub placed : All (λ t. is_placed t.status t.assigned_host_id ≡ true) tenants

pub record CommandsAreSound (commands : List HostCommand) : Type 0 where
  pub ids : Distinct (map (λ c. c.id) commands)
  pub settled : All (λ c. is_settled c.status c.completed_at ≡ true) commands

abbrev pub IsSound : Db → Type 0
IsSound s = HostsAreSound s.hosts × TenantsAreSound s.tenants × CommandsAreSound s.commands

or_false : (a b : Bool) → (a || b) ≡ false → (a ≡ false) × (b ≡ false)
or_false true b e = cc
or_false false b e = (refl, e)

pub modified_hosts :
    (w : Host → Bool) (f : Host → Host) (hosts rows : List Host) (r : Host)
    → ((h : Host) → (f h).id ≡ h.id)
    → All (λ h. w h ≡ true → (f h).name ≡ h.name) hosts
    → modify_first w f hosts ≡ some (r, rows)
    → HostsAreSound hosts
    → HostsAreSound rows
modified_hosts w f hosts rows r id name e p = record {
  ids = rw (map-modify_first w f (λ h. h.id) hosts rows r (All-every (λ h k. id h) hosts) e) p.ids;
  names = rw (map-modify_first w f (λ h. h.name) hosts rows r name e) p.names;
}

added_host :
    (h : Host) (hosts : List Host)
    → find (host_table.conflict h) hosts ≡ none
    → find (λ g. g.name == h.name) hosts ≡ none
    → HostsAreSound hosts
    → HostsAreSound (hosts ++ h ∷ [])
added_host h hosts e k p = record {
  ids = Distinct-append (λ h. h.id) h hosts (All-find-none (host_table.conflict h) hosts e) p.ids;
  names =
      Distinct-append (λ h. h.name) h hosts
        (All-weaken hosts (λ g n. eq_comm_false g.name h.name n)
          (All-find-none (λ g. g.name == h.name) hosts k))
        p.names;
}

modified_tenants :
    (w : Tenant → Bool) (f : Tenant → Tenant) (tenants rows : List Tenant) (r : Tenant)
    → ((t : Tenant) → (f t).id ≡ t.id)
    → ((t : Tenant) → (f t).slug ≡ t.slug)
    → ((t : Tenant)
        → is_placed t.status t.assigned_host_id ≡ true
        → is_placed (f t).status (f t).assigned_host_id ≡ true)
    → modify_first w f tenants ≡ some (r, rows)
    → TenantsAreSound tenants
    → TenantsAreSound rows
modified_tenants w f tenants rows r id slug placed e p = record {
  ids =
      rw (map-modify_first w f (λ t. t.id) tenants rows r (All-every (λ t k. id t) tenants) e)
        p.ids;
  slugs =
      rw (map-modify_first w f (λ t. t.slug) tenants rows r (All-every (λ t k. slug t) tenants) e)
        p.slugs;
  placed =
      All-modify_first w f (λ t. is_placed t.status t.assigned_host_id ≡ true) tenants rows r
        (All-weaken tenants (λ t h k. placed t h) p.placed) e p.placed;
}

added_tenant :
    (t : Tenant) (tenants : List Tenant)
    → find (tenant_table.conflict t) tenants ≡ none
    → is_placed t.status t.assigned_host_id ≡ true
    → TenantsAreSound tenants
    → TenantsAreSound (tenants ++ t ∷ [])
added_tenant t tenants e k p =
    let apart =
      All-weaken tenants (λ u n. or_false (t.id == u.id) (t.slug == u.slug) n)
        (All-find-none (tenant_table.conflict t) tenants e) in
    record {
      ids = Distinct-append (λ t. t.id) t tenants (All-weaken tenants (λ u n. n.0) apart) p.ids;
      slugs =
          Distinct-append (λ t. t.slug) t tenants (All-weaken tenants (λ u n. n.1) apart) p.slugs;
      placed = All-append (λ u. is_placed u.status u.assigned_host_id ≡ true) tenants t p.placed k;
    }

pub modified_commands :
    (w : HostCommand → Bool) (f : HostCommand → HostCommand) (commands rows : List HostCommand)
    (r : HostCommand)
    → ((c : HostCommand) → (f c).id ≡ c.id)
    → All (λ c. w c ≡ true → is_settled (f c).status (f c).completed_at ≡ true) commands
    → modify_first w f commands ≡ some (r, rows)
    → CommandsAreSound commands
    → CommandsAreSound rows
modified_commands w f commands rows r id settled e p = record {
  ids =
      rw (map-modify_first w f (λ c. c.id) commands rows r (All-every (λ c k. id c) commands) e)
        p.ids;
  settled =
      All-modify_first w f (λ c. is_settled c.status c.completed_at ≡ true) commands rows r settled
        e p.settled;
}

added_command :
    (c : HostCommand) (commands : List HostCommand)
    → find (command_table.conflict c) commands ≡ none
    → is_settled c.status c.completed_at ≡ true
    → CommandsAreSound commands
    → CommandsAreSound (commands ++ c ∷ [])
added_command c commands e k p = record {
  ids =
      Distinct-append (λ c. c.id) c commands (All-find-none (command_table.conflict c) commands e)
        p.ids;
  settled = All-append (λ c. is_settled c.status c.completed_at ≡ true) commands c p.settled k;
}

module _ (env : Env) (d : Documented env.client) where
  -- Any change of a host that keeps its id and its name.
  pub update_host-Sound :
      (w : Host → Bool) (f : Host → Host)
      → ((h : Host) → (f h).id ≡ h.id)
      → ((h : Host) → (f h).name ≡ h.name)
      → Preserves IsSound (update env host_table w f)
  update_host-Sound w f id name = update-Preserves IsSound env d host_table w f λ s r rows e p.
      (modified_hosts w f s.hosts rows r id (All-every (λ h k. name h) s.hosts) e p.0, p.1, p.2)

  -- A new host, of a name that no host has.
  pub create_host-Sound :
      (make : String → Host) (s : Db)
      → find (λ g. g.name == (make (env.cuid s.next)).name) s.hosts ≡ none
      → IsSound s
      → IsSound (create env host_table make s).1
  create_host-Sound make s e p =
      create-at IsSound env d host_table (λ n s p. p) make s
        (λ free. (added_host (make (env.cuid s.next)) s.hosts free e p.0, p.1, p.2)) p

  module _ (w : Tenant → Bool) (f : Tenant → Tenant) (id : (t : Tenant) → (f t).id ≡ t.id)
      (slug : (t : Tenant) → (f t).slug ≡ t.slug)
      (placed : (t : Tenant)
        → is_placed t.status t.assigned_host_id ≡ true
        → is_placed (f t).status (f t).assigned_host_id ≡ true) where
    pub update_tenant-Sound : Preserves IsSound (update env tenant_table w f)
    update_tenant-Sound =
        update-Preserves IsSound env d tenant_table w f
          λ s r rows e p. (p.0, modified_tenants w f s.tenants rows r id slug placed e p.1, p.2)

    pub assign_tenant-Sound : Preserves IsSound (update_linked env tenant_table w f)
    assign_tenant-Sound =
        update_linked-Preserves IsSound env d tenant_table w f
          λ s r rows e p. (p.0, modified_tenants w f s.tenants rows r id slug placed e p.1, p.2)

  pub create_tenant_row-Sound :
      (make : String → Tenant)
      → ((id : String) → is_placed (make id).status (make id).assigned_host_id ≡ true)
      → Preserves IsSound (create env tenant_table make)
  create_tenant_row-Sound make k =
      create-Preserves IsSound env d tenant_table (λ n s p. p) make
        λ s id e p. (p.0, added_tenant (make id) s.tenants e (k id) p.1, p.2)

  pub update_command-Sound :
      (w : HostCommand → Bool) (f : HostCommand → HostCommand)
      → ((c : HostCommand) → (f c).id ≡ c.id)
      → ((c : HostCommand) → is_settled (f c).status (f c).completed_at ≡ true)
      → Preserves IsSound (update env command_table w f)
  update_command-Sound w f id settled =
      update-Preserves IsSound env d command_table w f λ s r rows e p. (
        p.0,
        p.1,
        modified_commands w f s.commands rows r id (All-every (λ c k. settled c) s.commands) e p.2,
      )

  pub create_command-Sound :
      (make : String → HostCommand)
      → ((id : String) → is_settled (make id).status (make id).completed_at ≡ true)
      → Preserves IsSound (create env command_table make)
  create_command-Sound make k =
      create-Preserves IsSound env d command_table (λ n s p. p) make
        λ s id e p. (p.0, p.1, added_command (make id) s.commands e (k id) p.2)
