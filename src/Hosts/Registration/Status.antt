-- ===== src/Hosts/Registration/Status.antt =====
-- What a heartbeat and a registration make of the status of a host, and of its capacity.
use xoom_agent_control.Prelude.{
  ◌≡◌, refl, ap, ◌∙◌, ℕ, suc, Option-cases, inl, inr, String, true, ◌==◌, Option, none, some, [],
  ◌∷◌, ◌++◌, find, select, length, pos,
}
use xoom_agent_control.Prisma.{Documented}
use xoom_agent_control.Enums.{HostStatus, online, offline, draining, maintenance}
use xoom_agent_control.Rows.{Db, Host}
use xoom_agent_control.Env.{Env}
use xoom_agent_control.Action.{ok, send}
use xoom_agent_control.Tables.{heartbeat_table, host_table, has_host}
use xoom_agent_control.Query.{count}
use xoom_agent_control.Query.Laws.{create_lem, update-find}
use xoom_agent_control.Requests.{HeartbeatRequest, RegisterHostRequest}
use xoom_agent_control.Hosts.Common.{is_waiting}
use xoom_agent_control.Hosts.Registration.{
  take_heartbeat, beat, heartbeat_row, desired, registration, save_host,
}

abbrev pub host_by_id : String → Db → Option Host
host_by_id id s = find (λ h. h.id == id) s.hosts

-- The status that an operator wants back: only that of a host that is drained or in maintenance.
abbrev pub wanted : HostStatus → Option HostStatus
wanted online = none
wanted offline = none
wanted draining = some draining
wanted maintenance = some maintenance

desired-wanted : (env : Env) (status : HostStatus) → desired env status ≡ wanted status
desired-wanted env online = refl
desired-wanted env offline = refl
desired-wanted env draining = refl
desired-wanted env maintenance = refl

-- The host after a heartbeat.
abbrev pub after_beat : ℕ → HeartbeatRequest → Host → Host
after_beat now body h = record h {
  status = body.status;
  last_seen_at = some now;
  host_agent_version = elim body.host_agent_version [
    | none ↦ h.host_agent_version
    | some v ↦ some v
  ];
}

beat-after_beat :
    (env : Env) (body : HeartbeatRequest) (h : Host) → beat env body h ≡ after_beat env.now body h
beat-after_beat env body h = elim (Option-cases body.host_agent_version) [
  | inl e ↦ rw e refl
  | inr (v, e) ↦ rw e refl
]

-- On a documented client, a heartbeat of a stored host, whose row gets an unused id, gives the
-- host the status that it sends, whatever status an operator gave it before, its time and the
-- version of the agent if it sends one; it answers with the sent status as the desired one where
-- that is draining or maintenance, and with no desired status otherwise, and with the number of
-- the commands that wait.
pub take_heartbeat_lem :
    (env : Env) (body : HeartbeatRequest) (s : Db) (h : Host)
    → Documented env.client
    → host_by_id h.id s ≡ some h
    → find (heartbeat_table.conflict (heartbeat_row env body h.id (env.cuid s.next))) s.heartbeats
      ≡ none
    → (t : Db) × (take_heartbeat env body h.id s ≡ (
      ok (
          send 200 (record {
            desired_status = wanted body.status;
            pending_commands = length (select (is_waiting h.id) s.commands);
          })),
      t,
    ))
      × (host_by_id h.id t ≡ some (after_beat env.now body h))
unfolding take_heartbeat count
take_heartbeat_lem env body s h d stored fresh =
    let row = heartbeat_row env body h.id (env.cuid s.next) in
    let s1 = record s { heartbeats = s.heartbeats ++ row ∷ []; next = suc s.next } in
    let linked : heartbeat_table.linked s row ≡ true = unfold has_host in rw stored refl in
    let a = create_lem env d heartbeat_table (heartbeat_row env body h.id) s linked fresh in
    let (rows, b, c, m) =
      update-find env d host_table (λ x. x.id == h.id) (beat env body) s1 h (λ r. refl) stored in
    (
      record s1 { hosts = rows },
      rw (a, b, d.count_lem _ (is_waiting h.id) s.commands, desired-wanted env body.status) refl,
      c ∙ ap some (beat-after_beat env body h),
    )

-- On a documented client, a registration of a host that is stored makes all of its capacity
-- available again, whatever its tenants hold, and makes it online; its approval stays.
pub save_host-existing :
    (env : Env) (body : RegisterHostRequest) (hash : String) (s : Db) (h : Host)
    → Documented env.client
    → host_by_id h.id s ≡ some h
    → (h' : Host) × (host_by_id h.id (save_host env body hash (some h) s).1 ≡ some h')
      × (h'.available_cpu ≡ some (pos body.resources.total_cpu))
      × (h'.available_ram_mb ≡ some (pos body.resources.total_ram_mb))
      × (h'.available_disk_gb ≡ some (pos body.resources.total_disk_gb))
      × (h'.status ≡ online)
      × (h'.approved ≡ h.approved)
unfolding registration
save_host-existing env body hash s h d stored =
    let (rows, a, b, m) =
      update-find env d host_table (λ x. x.id == h.id) (registration body hash env.now) s h
        (λ r. refl) stored in
    (registration body hash env.now h, rw a b, refl, refl, refl, refl, refl)
