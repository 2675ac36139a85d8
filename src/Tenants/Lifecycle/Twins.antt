-- ===== src/Tenants/Lifecycle/Twins.antt =====
-- Stopping a tenant and suspending it.
use xoom_agent_control.Prelude.{◌≡◌, refl, sym, ◌∙◌, String, ◌==◌, Option, none, some, []}
use xoom_agent_control.Json.{Json}
use xoom_agent_control.Enums.{EventSeverity}
use xoom_agent_control.Rows.{Db, Tenant, TenantResourceLimit}
use xoom_agent_control.Env.{Env}
use xoom_agent_control.Action.{pure, ◌>>◌}
use xoom_agent_control.Query.{find_first}
use xoom_agent_control.Audit.Frame.{event-Keeps}
use xoom_agent_control.Query.Frame.{Keeps, pure-Keeps, bind-Keeps, bind-agree}
use xoom_agent_control.Audit.{record_tenant_event}
use xoom_agent_control.Requests.{stop, suspend}
use xoom_agent_control.Tenants.Lifecycle.{
  run_action, act, enqueue, set_status, status_of, command_of,
}

-- The database without the timeline of events, and without the count of ids.
abbrev pub apart_from_events : Db → Db
apart_from_events s = record s { events = []; next = 0 }

module _ (env : Env) where
  announce-Keeps :
      (id type : String) (severity : EventSeverity) (message : String) (metadata : Json)
      (command_id : Option String)
      → Keeps apart_from_events
          (record_tenant_event env id type severity message metadata >> pure command_id)
  announce-Keeps id type severity message metadata command_id =
      bind-Keeps apart_from_events
        (event-Keeps apart_from_events env (λ rows s. refl) (λ n s. refl) id type severity message
          metadata)
        (λ _. pure-Keeps apart_from_events)

  act-agree :
      (version : Option String) (limits : Option TenantResourceLimit) (tenant : Option Tenant)
      (s : Db)
      → apart_from_events (act env stop version limits tenant s).1
        ≡ apart_from_events (act env suspend version limits tenant s).1
  unfolding status_of command_of
  act-agree version limits none s = refl
  act-agree version limits (some tenant) s =
      bind-agree apart_from_events (enqueue env stop tenant version tenant.assigned_host_id) _ _
        (λ id. bind-agree apart_from_events (set_status env (status_of stop) tenant.id) _ _ (λ _ t.
          (announce-Keeps _ _ _ _ _ id).keeps t ∙ sym ((announce-Keeps _ _ _ _ _ id).keeps t)))
        s

  -- Stopping a tenant and suspending it leave the same database but for the events and the
  -- count of ids, with any client: the same status, the same command, the same hosts.
  pub run_action-stop_suspend :
      (tenant_id : String) (version : Option String) (s : Db)
      → apart_from_events (run_action env tenant_id stop version s).1
        ≡ apart_from_events (run_action env tenant_id suspend version s).1
  unfolding run_action find_first
  run_action-stop_suspend tenant_id version s =
      act-agree version (env.client.find_first (λ l. l.tenant_id == tenant_id) s.limits) _ s
