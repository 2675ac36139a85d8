-- ===== src/Server/HostRoutes.antt =====
-- The routes of the hosts keep the hosts, tenants and commands sound.
use xoom_agent_control.Prelude.{
  ◌≡◌, refl, String, Bool, true, ◌==◌, Option, none, some, List, [], ◌∷◌, find, present, not, ◌∙◌,
  sym, ap, eq_iff,
}
use xoom_agent_control.Prisma.{Documented}
use xoom_agent_control.Rows.{Db, Host}
use xoom_agent_control.Env.{Env, SessionUser}
use xoom_agent_control.Auth.{can_perform_destructive, hash_agent_key}
use xoom_agent_control.Guards.{Caller}
use xoom_agent_control.Action.{reject, reject_with, send}
use xoom_agent_control.Tables.{Table, command_table, heartbeat_table, host_table}
use xoom_agent_control.Query.{find_first, count}
use xoom_agent_control.Requests.{
  RegisterHostRequest, HeartbeatRequest, ForwardLogsRequest, ForwardedEvent, MaintenanceStatus,
}
use xoom_agent_control.Hosts.Registration.{
  blank_host, has_token, desired, beat, heartbeat_row, register, register_host, save_host,
  registration, take_heartbeat, blank_host, has_token, desired, beat, heartbeat, ingest, ingest_for,
  post_logs, take_logs,
}
use xoom_agent_control.Hosts.Common.{is_waiting}
use xoom_agent_control.Hosts.Admin.{
  approve_as, mark_approved, maintain_as, approve_host, set_maintenance,
}
use xoom_agent_control.Server.Keys.{find-Distinct, find-passes, All-weaken}
use xoom_agent_control.Server.Preserve.{
  Preserves, pure-Preserves, bind-Preserves, if-Preserves, require_user-Preserves,
  require_host-Preserves, update-at, bind-at,
}
use xoom_agent_control.Server.Sound.{IsSound, modified_hosts, update_host-Sound, create_host-Sound}
use xoom_agent_control.Server.Aside.{create-Sound, event-Sound, audit-Sound}

module _ (env : Env) (d : Documented env.client) where
  mark_approved-Sound :
      (caller : Caller) (id : String) (approved : Bool) (user : SessionUser)
      → Preserves IsSound (mark_approved env caller id approved user)
  mark_approved-Sound caller id approved user =
      bind-Preserves IsSound (update_host-Sound env d _ _ (λ h. refl) (λ h. refl))
        (λ host. bind-Preserves IsSound (audit-Sound env d _ _ _ _ _) (λ _. pure-Preserves IsSound))

  pub approve_host-Sound :
      (caller : Caller) (id : String) (approved : Bool)
      → Preserves IsSound (approve_host env caller id approved)
  unfolding approve_host
  approve_host-Sound caller id approved =
      require_user-Preserves IsSound env true caller (approve_as env caller id approved) λ user.
        if-Preserves IsSound (not (can_perform_destructive user.role)) {m = reject 403 "forbidden"}
          {n = mark_approved env caller id approved user} (pure-Preserves IsSound)
          (mark_approved-Sound caller id approved user)

  maintain_as-Sound :
      (caller : Caller) (id : String) (status : MaintenanceStatus) (user : SessionUser)
      → Preserves IsSound (maintain_as env caller id status user)
  maintain_as-Sound caller id status user =
      bind-Preserves IsSound (update_host-Sound env d _ _ (λ h. refl) (λ h. refl))
        (λ host. bind-Preserves IsSound (audit-Sound env d _ _ _ _ _) (λ _. pure-Preserves IsSound))

  pub set_maintenance-Sound :
      (caller : Caller) (id : String) (status : MaintenanceStatus)
      → Preserves IsSound (set_maintenance env caller id status)
  unfolding set_maintenance
  set_maintenance-Sound caller id status =
      require_user-Preserves IsSound env true caller (maintain_as env caller id status)
        (maintain_as-Sound caller id status)

  count-Sound :
      {Row : Type 0} (table : Table Row) (w : Row → Bool) → Preserves IsSound (count env table w)
  unfolding count
  count-Sound table w = record { preserves = λ s p. p }

  take_heartbeat-Sound :
      (body : HeartbeatRequest) (id : String) → Preserves IsSound (take_heartbeat env body id)
  unfolding take_heartbeat
  take_heartbeat-Sound body id =
      bind-Preserves IsSound
        (create-Sound env d heartbeat_table (λ rows s p. p) (heartbeat_row env body id)
          (λ rows n s p. p))
        (λ _.
          bind-Preserves IsSound
            (update_host-Sound env d (λ h. h.id == id) (beat env body) (λ h. refl) (λ h. refl))
            (λ host. bind-Preserves IsSound (count-Sound command_table (is_waiting id)) (λ n.
              pure-Preserves IsSound
                {a = send 200
                  (record { desired_status = desired env host.status; pending_commands = n })})))

  pub heartbeat-Sound :
      (caller : Caller) (host_id : String) (body : HeartbeatRequest)
      → Preserves IsSound (heartbeat env caller host_id body)
  unfolding heartbeat
  heartbeat-Sound caller host_id body =
      require_host-Preserves IsSound env d caller host_id (take_heartbeat env body)
        (take_heartbeat-Sound body)

  ingest-Sound :
      (tenant_id : String) (events : List ForwardedEvent)
      → Preserves IsSound (ingest env tenant_id events)
  unfolding ingest
  ingest-Sound tenant_id [] = pure-Preserves IsSound
  ingest-Sound tenant_id (e ∷ events) =
      bind-Preserves IsSound (event-Sound env d _ _ _ _ _) (λ _. ingest-Sound tenant_id events)

  ingest_for-Sound :
      (tenant_id : Option String) (events : List ForwardedEvent)
      → Preserves IsSound (ingest_for env tenant_id events)
  ingest_for-Sound none events = pure-Preserves IsSound
  ingest_for-Sound (some id) events = ingest-Sound id events

  take_logs-Sound :
      (body : ForwardLogsRequest) (id : String) → Preserves IsSound (take_logs env body id)
  take_logs-Sound body id =
      bind-Preserves IsSound (ingest_for-Sound (present body.tenant_id) body.events)
        (λ _. pure-Preserves IsSound)

  pub post_logs-Sound :
      (caller : Caller) (host_id : String) (body : ForwardLogsRequest)
      → Preserves IsSound (post_logs env caller host_id body)
  unfolding post_logs
  post_logs-Sound caller host_id body =
      require_host-Preserves IsSound env d caller host_id (take_logs env body)
        (take_logs-Sound body)

  -- A registration keeps the name of the host that it finds, and else adds a host of a new name.
  save_host-Sound :
      (body : RegisterHostRequest) (hash : String) (found : Option Host) (s : Db)
      → find (λ h. h.name == body.host_name) s.hosts ≡ found
      → IsSound s
      → IsSound (save_host env body hash found s).1
  unfolding registration
  save_host-Sound body hash none s e p =
      create_host-Sound env d (λ id. registration body hash env.now (blank_host id)) s e p
  save_host-Sound body hash (some existing) s e p =
      let same =
        (eq_iff existing.name body.host_name).0
          (find-passes (λ h. h.name == body.host_name) s.hosts existing e) in
      update-at IsSound env d host_table (λ h. h.id == existing.id) (registration body hash env.now)
        s
        (λ r rows m. (
          modified_hosts (λ h. h.id == existing.id) (registration body hash env.now) s.hosts rows r
              (λ h. refl)
              (All-weaken s.hosts (λ h k i. sym same ∙ sym (ap (λ g. g.name) (k i)))
                (find-Distinct (λ h. h.id) (λ h. h.name == body.host_name) s.hosts existing e
                  p.0.ids))
              m p.0,
          p.1,
          p.2,
        ))
        p

  register_host-Sound :
      (caller : Caller) (body : RegisterHostRequest)
      → Preserves IsSound (register_host env caller body)
  unfolding find_first
  register_host-Sound caller body = record {
    preserves = λ s p.
        bind-at IsSound
          (save_host env body (hash_agent_key env env.random_token)
            (env.client.find_first (λ h. h.name == body.host_name) s.hosts))
          _ s
          (save_host-Sound body (hash_agent_key env env.random_token) _ s
            (sym (d.find_first_lem Host (λ h. h.name == body.host_name) s.hosts)) p)
          (λ host.
            bind-Preserves IsSound (audit-Sound env d _ _ _ _ _) (λ _. pure-Preserves IsSound));
  }

  pub register-Sound :
      (token : Option String) (caller : Caller) (body : RegisterHostRequest)
      → Preserves IsSound (register env token caller body)
  unfolding register
  register-Sound token caller body =
      if-Preserves IsSound (has_token env token) {m = register_host env caller body}
        {n = reject_with 401 "unauthorized" "Invalid registration token"}
        (register_host-Sound caller body) (pure-Preserves IsSound)
