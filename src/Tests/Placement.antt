-- ===== src/Tests/Placement.antt =====
-- The scheduler and the life of a tenant at concrete inputs.
use xoom_agent_control.Prelude.{◌++◌}
use xoom_agent_control.Enums.{provisioning}
use xoom_agent_control.Tenants.Create.{dispatch}
use xoom_agent_control.Tenants.Create.Dispatch.{less, to_create, assigned, dispatch_lem}
use xoom_agent_control.Tests.Fixtures.{small}
use mathlib.Core.List.{Mem}
use xoom_agent_control.Prisma.Order.{All-Mem}
use xoom_agent_control.Prelude.{not, true, arith}
use xoom_agent_control.Prelude.{present}
use xoom_agent_control.Requests.{delete}
use xoom_agent_control.Scheduler.Choice.{can_take}
use xoom_agent_control.Tenants.Create.Unplaced.{placement_of, create_tenant-unplaced}
use xoom_agent_control.Tenants.Create.Config.{create_payload, merge_limits, required_of}
use xoom_agent_control.Tenants.Lifecycle.Deletion.{more, run_action-delete}
use xoom_agent_control.Tests.Fixtures.{fresh_tenant, crowded}
use xoom_agent_control.Prelude.{◌≡◌, refl, String, false, ◌==◌, Option, none, some, [], ◌∷◌, find}
use xoom_agent_control.Prisma.Order.{Documented-local_client}
use xoom_agent_control.Rows.{Host}
use xoom_agent_control.Action.{ok, ◌>>◌}
use xoom_agent_control.Requests.{stop, suspend}
use xoom_agent_control.Scheduler.{select_host_for_tenant, reserve_capacity, release_capacity}
use xoom_agent_control.Scheduler.Choice.{IsBestChoice, select_host_for_tenant-IsBestChoice}
use xoom_agent_control.Scheduler.Capacity.{release_capacity-reserve_capacity}
use xoom_agent_control.Tenants.Create.{create_tenant}
use xoom_agent_control.Tenants.Lifecycle.{run_action}
use xoom_agent_control.Tenants.Lifecycle.Effects.{hosts-run_action}
use xoom_agent_control.Tenants.Lifecycle.Twins.{apart_from_events, run_action-stop_suspend}
use xoom_agent_control.Tests.Fixtures.{env, host, acme, acme_limits, db, required}

select_host_for_tenant-IsBestChoice_example :
    (id : Option String) × (select_host_for_tenant env required db ≡ (ok id, db))
    × IsBestChoice required db.hosts id
select_host_for_tenant-IsBestChoice_example =
    select_host_for_tenant-IsBestChoice env required db Documented-local_client

release_capacity-reserve_capacity_example :
    ((reserve_capacity env "h1" required >> release_capacity env "h1" required) db).1 ≡ db
release_capacity-reserve_capacity_example =
    release_capacity-reserve_capacity env "h1" required db Documented-local_client

hosts-run_action_example : (run_action env "t1" stop none db).1.hosts ≡ db.hosts
hosts-run_action_example = hosts-run_action env "t1" stop none db refl

run_action-stop_suspend_example :
    apart_from_events (run_action env "t1" stop none db).1
    ≡ apart_from_events (run_action env "t1" suspend none db).1
run_action-stop_suspend_example = run_action-stop_suspend env "t1" none db

crowded-full :
    (h : Host)
    → Mem h crowded.hosts
    → can_take (required_of (merge_limits fresh_tenant.resource_limits)) h ≡ false
crowded-full h m =
    let required = required_of (merge_limits fresh_tenant.resource_limits) in
    let none_fits : not (can_take required h) ≡ true =
      All-Mem (λ x. not (can_take required x)) crowded.hosts h (refl, tt) m in
    ground arith

create_tenant-unplaced_example :
    placement_of (create_tenant env fresh_tenant crowded).1 ≡ placement_of crowded
create_tenant-unplaced_example =
    create_tenant-unplaced env fresh_tenant crowded Documented-local_client (unfold present in refl)
      crowded-full

run_action-delete_example :
    find (λ x. x.id == "h1") (run_action env "t1" delete none db).1.hosts
    ≡ some (more acme_limits host)
run_action-delete_example =
    run_action-delete env Documented-local_client none db acme acme_limits host refl
      (unfold find in refl) (unfold find in refl) (unfold find in refl) (unfold find in refl)

dispatch_lem_example :
    let (answer, u) = dispatch env fresh_tenant small acme "h1" db in
    (answer
      ≡ ok (record { tenant_id = "t1"; command_id = some (env.cuid 0); status = provisioning }))
    × (find (λ x. x.id == "t1") u.tenants ≡ some (assigned "h1" acme))
    × (find (λ x. x.id == "h1") u.hosts ≡ some (less small host))
    × (u.commands
        ≡ db.commands
          ++ to_create (env.cuid 0) 1000 "h1" "t1" (create_payload env fresh_tenant small "t1" "h1")
            ∷ [])
dispatch_lem_example =
    dispatch_lem env fresh_tenant small db acme host Documented-local_client (unfold find in refl)
      (unfold find in refl) (unfold find in refl)
