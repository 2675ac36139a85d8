-- ===== src/Tenants/Create/Dispatch.antt =====
-- What the dispatch of a new tenant to its host does.
use xoom_agent_control.Prelude.{
  ◌≡◌, refl, ap, ℕ, ℤ, pos, ◌-ℤ◌, Option, ◌∙◌, suc, String, true, ◌==◌, none, some, List, [], ◌∷◌,
  ◌++◌, find,
}
use xoom_agent_control.Prisma.{Documented}
use xoom_agent_control.Enums.{provisioning, queued, CommandType, EventSeverity}
use xoom_agent_control.Json.{Json}
use xoom_agent_control.Rows.{Db, Tenant, Host, HostCommand}
use xoom_agent_control.Env.{Env}
use xoom_agent_control.Action.{Result, ok, throw, pure, continue, caught, ◌>>◌}
use xoom_agent_control.Tables.{tenant_table, command_table, host_table, has_host, has_tenant}
use xoom_agent_control.Query.Laws.{create_lem, update-find, update_linked-find}
use xoom_agent_control.Query.Frame.{bind-Keeps, pure-Keeps}
use xoom_agent_control.Audit.{record_tenant_event}
use xoom_agent_control.Audit.Frame.{event-Keeps}
use xoom_agent_control.Requests.{CreateTenantRequest}
use xoom_agent_control.Scheduler.{decrement, reserved, reserve_capacity}
use xoom_agent_control.Tenants.Create.{dispatch, creation_row}
use xoom_agent_control.Tenants.Create.Config.{Limits, create_payload, required_of}

-- The tables that a dispatch works on.
abbrev tables_of : Db → List Tenant × List Host × List HostCommand
tables_of s = (s.tenants, s.hosts, s.commands)

-- The tenant with its host.
abbrev pub assigned : String → Tenant → Tenant
assigned host_id t = record t { assigned_host_id = some host_id; status = provisioning }

-- What is available after some of it is taken; what is unknown stays so.
abbrev pub minus : Option ℤ → ℕ → Option ℤ
minus none n = none
minus (some a) n = some (a -ℤ pos n)

decrement-minus : (n : ℕ) (a : Option ℤ) → decrement n a ≡ minus a n
decrement-minus n none = refl
decrement-minus n (some a) = refl

-- The host with its capacity less the limits of a tenant.
abbrev pub less : Limits → Host → Host
less limits h = record h {
  available_cpu = minus h.available_cpu limits.vcpu;
  available_ram_mb = minus h.available_ram_mb limits.ram_mb;
  available_disk_gb = minus h.available_disk_gb limits.disk_gb;
}

reserved-less : (limits : Limits) (h : Host) → reserved (required_of limits) h ≡ less limits h
unfolding reserved
reserved-less limits h =
    rw
      (
        decrement-minus limits.vcpu h.available_cpu,
        decrement-minus limits.ram_mb h.available_ram_mb,
        decrement-minus limits.disk_gb h.available_disk_gb,
      )
      refl

-- A command for a host that waits, to create a tenant.
abbrev pub to_create : String → ℕ → String → String → Json → HostCommand
to_create id now host_id tenant_id payload = record {
  id = id;
  host_id = host_id;
  tenant_id = some tenant_id;
  command_type = CommandType.create_tenant;
  status = queued;
  payload = some payload;
  result = none;
  error_message = none;
  attempts = 0;
  created_at = now;
  claimed_at = none;
  completed_at = none;
}

-- An event comes with no answer and no exception.
caught-answer :
    {A B : Type 0} (b : B) (r : Result A × Db) → (continue (caught r) (λ _. pure b)).0 ≡ ok b
caught-answer b (ok a, s) = refl
caught-answer b (throw e, s) = refl

module _ (env : Env) where
  event-answer :
      {B : Type 0} (id type : String) (severity : EventSeverity) (message : String)
      (metadata : Json) (b : B) (s : Db)
      → ((record_tenant_event env id type severity message metadata >> pure b) s).0 ≡ ok b
  unfolding record_tenant_event
  event-answer id type severity message metadata b s = caught-answer b _

  event-tables :
      {B : Type 0} (id type : String) (severity : EventSeverity) (message : String)
      (metadata : Json) (b : B) (s : Db)
      → tables_of ((record_tenant_event env id type severity message metadata >> pure b) s).1
        ≡ tables_of s
  event-tables id type severity message metadata b s =
      (bind-Keeps tables_of
          (event-Keeps tables_of env (λ rows s. refl) (λ n s. refl) id type severity message
            metadata)
          (λ _. pure-Keeps tables_of)).keeps
        s

  -- On a documented client, the dispatch of a stored tenant to a stored host, with an unused id
  -- for the command, answers with that command and the status provisioning; it assigns the host
  -- to the tenant, which becomes provisioning, takes the resources of the tenant off the
  -- available capacity of the host, in all three columns, and queues one waiting command, to
  -- create the tenant on that host with the payload of the request, behind all others.
  pub dispatch_lem :
      (input : CreateTenantRequest) (limits : Limits) (s : Db) (t : Tenant) (h : Host)
      → Documented env.client
      → find (λ x. x.id == t.id) s.tenants ≡ some t
      → find (λ x. x.id == h.id) s.hosts ≡ some h
      → find (λ (c : HostCommand). env.cuid s.next == c.id) s.commands ≡ none
      → let (answer, u) = dispatch env input limits t h.id s in
        (answer
          ≡ ok (record {
            tenant_id = t.id;
            command_id = some (env.cuid s.next);
            status = provisioning;
          }))
        × (find (λ x. x.id == t.id) u.tenants ≡ some (assigned h.id t))
        × (find (λ x. x.id == h.id) u.hosts ≡ some (less limits h))
        × (u.commands
            ≡ s.commands
              ++ to_create
                  (env.cuid s.next)
                  env.now
                  h.id
                  t.id
                  (create_payload env input limits t.id h.id)
                ∷ [])
  unfolding reserve_capacity reserved
  dispatch_lem input limits s t h d stored hosted fresh =
      let row = creation_row env input limits t h.id in
      let can_link : tenant_table.linked s (assigned h.id t) ≡ true =
        unfold has_host in rw hosted refl in
      let (tenants, a, a') =
        update_linked-find env d tenant_table (λ x. x.id == t.id) (assigned h.id) s t (λ r. refl)
          stored can_link in
      let s1 = record s { tenants = tenants } in
      let (hosts, b, b', _) =
        update-find env d host_table (λ x. x.id == h.id) (reserved (required_of limits)) s1 h
          (λ r. refl) hosted in
      let s2 = record s1 { hosts = hosts } in
      let linked : command_table.linked s2 (row (env.cuid s.next)) ≡ true =
        unfold has_host in unfold has_tenant in rw (b', a') refl in
      let c = create_lem env d command_table row s2 linked fresh in
      rw (a, b, c)
        (let s3 = record s2 {
          commands = s.commands ++ row (env.cuid s.next) ∷ [];
          next = suc s.next;
        } in
          let kept = event-tables t.id _ _ _ _ _ s3 in
          (
            event-answer _ _ _ _ _ _ _,
            ap (λ v. find (λ x. x.id == t.id) v.0) kept ∙ a',
            ap (λ v. find (λ x. x.id == h.id) v.1) kept ∙ b' ∙ ap some (reserved-less limits h),
            ap (λ v. v.2) kept,
          ))
