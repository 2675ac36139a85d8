-- ===== src/Tenants/Lifecycle/Deletion.antt =====
-- What the deletion of a tenant does to its host.
use xoom_agent_control.Prelude.{
  ◌≡◌, refl, ap, ℕ, ℤ, pos, ◌+ℤ◌, ◌∙◌, suc, String, true, ◌==◌, Option, none, some, [], ◌∷◌, ◌++◌,
  find,
}
use xoom_agent_control.Prisma.{Documented}
use xoom_agent_control.Enums.{TenantStatus}
use xoom_agent_control.Rows.{Db, Tenant, Host, HostCommand, TenantResourceLimit}
use xoom_agent_control.Env.{Env}
use xoom_agent_control.Tables.{tenant_table, command_table, host_table, has_host, has_tenant}
use xoom_agent_control.Query.{find_first}
use xoom_agent_control.Query.Laws.{create_lem, update-find}
use xoom_agent_control.Query.Frame.{bind-Keeps, pure-Keeps}
use xoom_agent_control.Audit.Frame.{event-Keeps}
use xoom_agent_control.Requests.{delete}
use xoom_agent_control.Scheduler.{increment, released, release_capacity}
use xoom_agent_control.Tenants.Lifecycle.{run_action, act, command_row, resources_of, status_of}
use xoom_agent_control.Tenants.Lifecycle.Effects.{hosts_of}

-- What is available after some of it is given back; what is unknown stays so.
abbrev pub plus : Option ℤ → ℕ → Option ℤ
plus none n = none
plus (some a) n = some (a +ℤ pos n)

increment-plus : (n : ℕ) (a : Option ℤ) → increment n a ≡ plus a n
increment-plus n none = refl
increment-plus n (some a) = refl

-- The host with its capacity and the limits of a tenant.
abbrev pub more : TenantResourceLimit → Host → Host
more l h = record h {
  available_cpu = plus h.available_cpu l.vcpu;
  available_ram_mb = plus h.available_ram_mb l.ram_mb;
  available_disk_gb = plus h.available_disk_gb l.disk_gb;
}

released-more : (l : TenantResourceLimit) (h : Host) → released (resources_of l) h ≡ more l h
unfolding released
released-more l h =
    rw
      (
        increment-plus l.vcpu h.available_cpu,
        increment-plus l.ram_mb h.available_ram_mb,
        increment-plus l.disk_gb h.available_disk_gb,
      )
      refl

module _ (env : Env) (d : Documented env.client) (version : Option String) (s : Db) (t : Tenant)
    (l : TenantResourceLimit) (h : Host) where
  act-delete :
      t.assigned_host_id ≡ some h.id
      → find (λ x. x.id == t.id) s.tenants ≡ some t
      → find (λ x. x.id == h.id) s.hosts ≡ some h
      → find (λ (c : HostCommand). env.cuid s.next == c.id) s.commands ≡ none
      → find (λ x. x.id == h.id) (act env delete version (some l) (some t) s).1.hosts
        ≡ some (released (resources_of l) h)
  unfolding status_of release_capacity released
  act-delete assigned stored hosted fresh =
      let row = command_row env delete t version h.id in
      let linked : command_table.linked s (row (env.cuid s.next)) ≡ true =
        unfold has_host in unfold has_tenant in rw (hosted, stored) refl in
      let a = create_lem env d command_table row s linked fresh in
      let s1 = record s {
        commands = s.commands ++ row (env.cuid s.next) ∷ [];
        next = suc s.next;
      } in
      let (rows, b, _, _) =
        update-find env d tenant_table (λ x. x.id == t.id)
          (λ x. record x { status = TenantStatus.deleted }) s1 t (λ r. refl) stored in
      let s2 = record s1 { tenants = rows } in
      let (hosts, b', c', _) =
        update-find env d host_table (λ x. x.id == h.id) (released (resources_of l)) s2 h
          (λ r. refl) hosted in
      let s3 = record s2 { hosts = hosts } in
      rw (assigned, a, b, b')
        (ap (find (λ x. x.id == h.id)) (
            (bind-Keeps hosts_of (event-Keeps hosts_of env (λ rows s. refl) (λ n s. refl) _ _ _ _ _)
                (λ _. pure-Keeps hosts_of)).keeps
              s3)
          ∙ c')

  -- On a documented client, a deletion of a stored tenant that has limits and an assigned,
  -- stored host, with an unused id for the command, adds the limits of the tenant to the
  -- available capacity of that host, in all three columns, whatever the status of the tenant: so a tenant that is
  -- deleted already gives its capacity back again.
  pub run_action-delete :
      t.assigned_host_id ≡ some h.id
      → find (λ x. x.id == t.id) s.tenants ≡ some t
      → find (λ l. l.tenant_id == t.id) s.limits ≡ some l
      → find (λ x. x.id == h.id) s.hosts ≡ some h
      → find (λ (c : HostCommand). env.cuid s.next == c.id) s.commands ≡ none
      → find (λ x. x.id == h.id) (run_action env t.id delete version s).1.hosts ≡ some (more l h)
  unfolding run_action find_first
  run_action-delete assigned stored limited hosted fresh =
      rw
        (
          d.find_first_lem Tenant (λ x. x.id == t.id) s.tenants,
          stored,
          d.find_first_lem TenantResourceLimit (λ l. l.tenant_id == t.id) s.limits,
          limited,
        )
        (act-delete assigned stored hosted fresh ∙ ap some (released-more l h))
