-- ===== src/Tenants/Create/Unplaced.antt =====
-- A tenant for which there is no host.
use mathlib.Core.Bool.{true≢false}
use mathlib.Core.List.{Mem}
use xoom_agent_control.Prelude.{
  ◌≡◌, refl, sym, ap, subst, ◌∙◌, String, false, ◌==◌, Option, none, some, List, present,
  Bool-cases, inl, inr,
}
use xoom_agent_control.Prisma.{Documented}
use xoom_agent_control.Json.{Json}
use xoom_agent_control.Enums.{EventSeverity}
use xoom_agent_control.Rows.{Db, Tenant, Host, HostCommand}
use xoom_agent_control.Env.{Env}
use xoom_agent_control.Action.{ok, ◌>>=◌}
use xoom_agent_control.Tables.{tenant_table, limit_table}
use xoom_agent_control.Query.{find_first}
use xoom_agent_control.Query.Frame.{
  Keeps, pure-Keeps, bind-Keeps, atomic-Keeps, update-Keeps, create-Keeps, bind-view,
}
use xoom_agent_control.Audit.{record_tenant_event}
use xoom_agent_control.Audit.Frame.{event-Keeps}
use xoom_agent_control.Requests.{CreateTenantRequest}
use xoom_agent_control.Scheduler.{RequiredResources, select_host_for_tenant}
use xoom_agent_control.Scheduler.Choice.{
  can_take, IsBestChoice, select_host_for_tenant-IsBestChoice,
}
use xoom_agent_control.Tenants.Create.{create_tenant, admit_slug, place}
use xoom_agent_control.Tenants.Create.Config.{Limits, merge_limits, required_of}
use xoom_agent_control.Tenants.Create.Steps.{create_pending, choose_host, give_up}

-- What a tenant that is not placed leaves alone: the hosts, and the queue.
abbrev pub placement_of : Db → List Host × List HostCommand
placement_of s = (s.hosts, s.commands)

module _ (env : Env) where
  announced-Keeps :
      (id type : String) (severity : EventSeverity) (message : String) (metadata : Json)
      → Keeps placement_of (record_tenant_event env id type severity message metadata)
  announced-Keeps = event-Keeps placement_of env (λ rows s. refl) (λ n s. refl)

  create_pending-Keeps :
      (input : CreateTenantRequest) (limits : Limits)
      → Keeps placement_of (create_pending env input limits)
  create_pending-Keeps input limits =
      (bind-Keeps placement_of
        (atomic-Keeps placement_of (
          bind-Keeps placement_of
            (create-Keeps placement_of env tenant_table (λ rows s. refl) (λ n s. refl) _)
            (λ tenant.
              bind-Keeps placement_of
                (create-Keeps placement_of env limit_table (λ rows s. refl) (λ n s. refl) _)
                (λ _. pure-Keeps placement_of))))
        (λ tenant.
          bind-Keeps placement_of (announced-Keeps _ _ _ _ _) (λ _. pure-Keeps placement_of)))

  give_up-Keeps : (tenant : Tenant) → Keeps placement_of (give_up env tenant)
  give_up-Keeps tenant =
      (bind-Keeps placement_of (update-Keeps placement_of env tenant_table (λ rows s. refl) _ _)
        (λ _. bind-Keeps placement_of (announced-Keeps _ _ _ _ _) (λ _. pure-Keeps placement_of)))

  -- Without a host that can take the tenant, the scheduler has no answer.
  select_host_for_tenant-none :
      (req : RequiredResources) (s : Db)
      → Documented env.client
      → ((h : Host) → Mem h s.hosts → can_take req h ≡ false)
      → select_host_for_tenant env req s ≡ (ok none, s)
  select_host_for_tenant-none req s d full = go (select_host_for_tenant-IsBestChoice env req s d)
    where
      go :
          (id : Option String) × (select_host_for_tenant env req s ≡ (ok id, s))
            × IsBestChoice req s.hosts id
          → select_host_for_tenant env req s ≡ (ok none, s)
      go (none, e, best) = e
      go (some id, e, (h, i, first)) =
          absurd (true≢false (sym (first.passes) ∙ full h first.member))

  choose_host-none :
      (input : CreateTenantRequest) (req : RequiredResources) (s : Db)
      → Documented env.client
      → present input.assigned_host_id ≡ none
      → ((h : Host) → Mem h s.hosts → can_take req h ≡ false)
      → choose_host env input req s ≡ (ok none, s)
  unfolding choose_host
  choose_host-none input req s d free full = elim (Bool-cases input.auto_select_host) [
    | inl auto ↦ rw (auto, free) (select_host_for_tenant-none req s d full)
    | inr manual ↦ rw (manual, free)
  ]

  -- The tenant is pending, and no host is found for it.
  unplaced-view :
      (input : CreateTenantRequest) (limits : Limits) (s : Db)
      → Documented env.client
      → present input.assigned_host_id ≡ none
      → ((h : Host) → Mem h s.hosts → can_take (required_of limits) h ≡ false)
      → placement_of
          ((create_pending env input limits >>= λ tenant.
              choose_host env input (required_of limits) >>= λ host.
              place env input limits tenant (present host))
            s).1
        ≡ placement_of s
  unfolding present
  unplaced-view input limits s d free full =
      bind-view placement_of
        (λ tenant. choose_host env input (required_of limits) >>= λ host.
          place env input limits tenant (present host))
        s (create_pending-Keeps input limits)
        (λ tenant t e.
          rw
            (choose_host-none input (required_of limits) t d free
              (λ h m. full h (subst (Mem h) (ap (λ p. p.0) e) m)))
            ((give_up-Keeps tenant).keeps t ∙ e))

  module _ (input : CreateTenantRequest) (s : Db) (d : Documented env.client)
      (free : present input.assigned_host_id ≡ none)
      (full : (h : Host)
        → Mem h s.hosts
        → can_take (required_of (merge_limits input.resource_limits)) h ≡ false) where
    admit_slug-view :
        (existing : Option Tenant)
        → placement_of (admit_slug env input existing s).1 ≡ placement_of s
    admit_slug-view (some existing) = refl
    admit_slug-view none = unplaced-view input (merge_limits input.resource_limits) s d free full

    -- On a documented client, the creation of a tenant with no pinned host, while no host is
    -- online, approved and has room for it, leaves the hosts with their capacity and the queue
    -- of commands as they were, whether the slug is taken or not.
    pub create_tenant-unplaced : placement_of (create_tenant env input s).1 ≡ placement_of s
    unfolding create_tenant find_first
    create_tenant-unplaced =
        admit_slug-view (env.client.find_first (λ t. t.slug == input.slug) s.tenants)
