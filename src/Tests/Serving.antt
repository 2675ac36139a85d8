-- ===== src/Tests/Serving.antt =====
-- Sequences of requests, and the views of the operators, at concrete inputs.
use xoom_agent_control.Prelude.{◌≡◌, refl, ◌+◌, ◌≤◌, none, some, [], ◌∷◌, select, length}
use xoom_agent_control.Prisma.Order.{Documented-local_client}
use xoom_agent_control.Enums.{CommandType}
use xoom_agent_control.Rows.{empty_db}
use xoom_agent_control.Action.{ok, send}
use xoom_agent_control.Requests.{ListQuery, NextCommand}
use xoom_agent_control.Hosts.Queue.Claims.{waiting}
use xoom_agent_control.Server.{registration, serve, served, here, next, dashboard, answer}
use xoom_agent_control.Server.Sound.{IsSound}
use xoom_agent_control.Server.Invariant.{Reachable-IsSound}
use xoom_agent_control.Server.Drain.{polls, waiting-polls}
use xoom_agent_control.Server.Reads.{answer-Reads}
use xoom_agent_control.Dashboard.{Summary, summarise}
use xoom_agent_control.Dashboard.Consistency.{shown_online, summarise_lem}
use xoom_agent_control.Agent.Executor.Machines.{start_command}
use xoom_agent_control.Agent.Executor.Refinement.{machine_map, run, run_effects, machine_map-run}
use xoom_agent_control.Tests.Fixtures.{env, agent, acme_vm, db, caller, browser, joining}

Reachable-IsSound_example : IsSound (serve env (registration (some "join") caller joining) empty_db)
Reachable-IsSound_example = Reachable-IsSound (
    next here
      (served env Documented-local_client (registration (some "join") caller joining) empty_db))

db-IsSound : IsSound db
db-IsSound = (
  record { ids = (tt, tt); names = (tt, tt) },
  record { ids = (tt, tt); slugs = (tt, tt); placed = (refl, tt) },
  record { ids = ((refl, tt), (tt, tt)); settled = (refl, (refl, tt)) },
)

waiting-polls_example : waiting "h1" (polls env "h1" (waiting "h1" db) db) ≡ 0
waiting-polls_example = waiting-polls env Documented-local_client "h1" db db-IsSound

answer-Reads_example : answer env (dashboard browser) db ≡ db
answer-Reads_example = answer-Reads env (dashboard browser) db

abbrev first_page : ListQuery
first_page = record { status = none; q = none; limit = 20; offset = 0 }

summarise_lem_example :
    (r : Summary) × (summarise env db ≡ (ok (send 200 r), db))
    × (r.active_tenants + r.suspended_tenants + r.failed_tenants ≤ r.total_tenants)
    × (r.online_hosts ≤ r.total_hosts)
    × (r.online_hosts ≤ length (select (shown_online env) db.hosts))
    × (length r.recent_errors ≤ 10)
summarise_lem_example = summarise_lem env db Documented-local_client

abbrev stopping : NextCommand
stopping = record (start_command "c8" "acme" (some "t1")) { command_type = CommandType.stop_tenant }

machine_map-run_example :
    machine_map (run agent (stopping ∷ start_command "c9" "acme" (some "t1") ∷ []) (acme_vm ∷ []))
    ≡ run_effects agent
        (stopping ∷ start_command "c9" "acme" (some "t1") ∷ [])
        (machine_map (acme_vm ∷ []))
machine_map-run_example =
    machine_map-run agent (stopping ∷ start_command "c9" "acme" (some "t1") ∷ []) (acme_vm ∷ [])
