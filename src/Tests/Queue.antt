-- ===== src/Tests/Queue.antt =====
-- The queue of the host agents, reports, heartbeats and registration at concrete inputs.
use xoom_agent_control.Prelude.{◌≡◌, refl, true, Option, none, some, find, select, length, pos}
use xoom_agent_control.Prisma.Order.{Documented-local_client}
use xoom_agent_control.Enums.{claimed, CommandType, online, suspended}
use xoom_agent_control.Rows.{Db, Host, Tenant, HostCommand}
use xoom_agent_control.Action.{send, ok}
use xoom_agent_control.Requests.{succeeded}
use xoom_agent_control.Hosts.Common.{is_waiting}
use xoom_agent_control.Hosts.Queue.{oldest_queued, claim_command}
use xoom_agent_control.Hosts.Queue.Fifo.{IsOldest, oldest_queued-IsOldest}
use xoom_agent_control.Hosts.Queue.Claims.{as_told, command_by_id, claim_command-claim_command}
use xoom_agent_control.Hosts.Reconcile.{reconcile_tenant}
use xoom_agent_control.Hosts.Reconcile.Outcomes.{
  tenant_by_id, status-reconcile_tenant, backups-reconcile_tenant,
}
use xoom_agent_control.Hosts.Registration.{take_heartbeat, save_host}
use xoom_agent_control.Hosts.Registration.Status.{
  after_beat, host_by_id, take_heartbeat_lem, save_host-existing,
}
use xoom_agent_control.Tests.Fixtures.{env, host, acme, command, db, pulse, joining}

claim_command-claim_command_example :
    (t : Db) × (claim_command env (some command) db ≡ (ok (send 200 (some (as_told command))), t))
    × (u : Db) × (claim_command env (some command) t ≡ (ok (send 200 (some (as_told command))), u))
    × (command_by_id "c1" u
        ≡ some (record command { status = claimed; claimed_at = some 1000; attempts = 2 }))
claim_command-claim_command_example =
    claim_command-claim_command env command db Documented-local_client (unfold find in refl)

oldest_queued-IsOldest_example :
    (c : Option HostCommand) × (oldest_queued env "h1" db ≡ (ok c, db))
    × IsOldest "h1" db.commands c
oldest_queued-IsOldest_example = oldest_queued-IsOldest env "h1" db Documented-local_client

status-reconcile_tenant_example :
    (t' : Tenant) × (tenant_by_id "t1"
        (reconcile_tenant env "t1" CommandType.stop_tenant succeeded none db).1
      ≡ some t')
    × (t'.status ≡ suspended)
status-reconcile_tenant_example =
    status-reconcile_tenant env Documented-local_client "t1" none db acme (unfold find in refl)
      CommandType.stop_tenant succeeded

take_heartbeat_lem_example :
    (t : Db) × (take_heartbeat env pulse "h1" db ≡ (
      ok (
          send 200 (record {
            desired_status = none;
            pending_commands = length (select (is_waiting "h1") db.commands);
          })),
      t,
    ))
    × (host_by_id "h1" t ≡ some (after_beat 1000 pulse host))
take_heartbeat_lem_example =
    take_heartbeat_lem env pulse db host Documented-local_client (unfold find in refl)
      (unfold find in refl)

save_host-existing_example :
    (h' : Host) × (host_by_id "h1" (save_host env joining "hash" (some host) db).1 ≡ some h')
    × (h'.available_cpu ≡ some (pos 16))
    × (h'.available_ram_mb ≡ some (pos 65536))
    × (h'.available_disk_gb ≡ some (pos 500))
    × (h'.status ≡ online)
    × (h'.approved ≡ true)
save_host-existing_example =
    save_host-existing env joining "hash" db host Documented-local_client (unfold find in refl)

backups-reconcile_tenant_example :
    (reconcile_tenant env "t1" CommandType.backup_tenant succeeded none db).1.backups ≡ db.backups
backups-reconcile_tenant_example =
    backups-reconcile_tenant env "t1" CommandType.backup_tenant succeeded none db
