-- ===== src/Hosts/Queue/Settled.antt =====
-- What a report on a command of a tenant leaves behind.
use xoom_agent_control.Prelude.{
  ◌≡◌, refl, ap, ◌∙◌, String, Bool, true, false, ◌&&◌, ◌==◌, Option, some, List, [], ◌∷◌, find,
  present, template, arith, Bool-cases, inl, inr,
}
use xoom_agent_control.Prisma.{Documented}
use xoom_agent_control.Json.{Json, Fields, obj, object, str}
use xoom_agent_control.Enums.{TenantStatus, active, suspended, deleted, CommandType, EventSeverity}
use xoom_agent_control.Rows.{Db, Host, Tenant, HostCommand}
use xoom_agent_control.Env.{Env}
use xoom_agent_control.Guards.{Caller}
use xoom_agent_control.Action.{Action, Result, Reply, ok, throw, send, caught}
use xoom_agent_control.Tables.{tenant_table, command_table}
use xoom_agent_control.Query.Laws.{update-find}
use xoom_agent_control.Audit.{
  AuditContext, AuditAction, record_audit, record_tenant_event, tenant_event, audit_row,
  command_executed,
}
use xoom_agent_control.Audit.Frame.{event-Keeps, audit-Keeps}
use xoom_agent_control.Query.{create, update_many}
use xoom_agent_control.Tables.{event_table, audit_table}
use xoom_agent_control.Requests.{CommandResultRequest, ResultStatus, running, succeeded}
use xoom_agent_control.Hosts.Reconcile.{
  reconcile_tenant, settle, outcome, result_text, complete_backups, is_backup,
}
use xoom_agent_control.Hosts.Reconcile.Outcomes.{
  tenant_by_id, settled_status, status-reconcile_tenant, id-outcome,
}
use xoom_agent_control.Hosts.Common.{from_ip}
use xoom_agent_control.Hosts.Queue.{
  report, report_found, take_result, severity_of, type_text, status_text, text,
}
use xoom_agent_control.Hosts.Queue.Claims.{command_by_id}

-- The tables that a poll is about.
abbrev pub core : Db → List Host × List Tenant × List HostCommand
core s = (s.hosts, s.tenants, s.commands)

find-both :
    {A : Type 0} (p q : A → Bool) (xs : List A) (x : A)
    → find p xs ≡ some x
    → q x ≡ true
    → find (λ y. p y && q y) xs ≡ some x
unfolding find
find-both p q [] x e h = cc
find-both p q (y ∷ xs) x e h = elim (Bool-cases (p y)) [
  | inl hit ↦ let same : y ≡ x = ground arith in rw (hit, same, h) refl
  | inr miss ↦ rw miss (find-both p q xs x (rw miss at e) h)
]

caught_lem : {A : Type 0} (r : Result A × Db) → caught r ≡ (ok tt, (caught r).1)
caught_lem (ok a, t) = refl
caught_lem (throw e, t) = refl

module _ (env : Env) where
  -- Events and audit entries never throw, and leave those tables alone.
  event_lem :
      (id type : String) (severity : EventSeverity) (message : String) (metadata : Json) (s : Db)
      → (t : Db) × (record_tenant_event env id type severity message metadata s ≡ (ok tt, t))
        × (core t ≡ core s)
  unfolding record_tenant_event
  event_lem id type severity message metadata s = (
    (record_tenant_event env id type severity message metadata s).1,
    caught_lem (create env event_table (tenant_event env id type severity message metadata) s),
    (event-Keeps core env (λ rows s. refl) (λ n s. refl) id type severity message metadata).keeps s,
  )

  pub audit_lem :
      (ctx : AuditContext) (action : AuditAction) (type id : String) (metadata : Json) (s : Db)
      → (t : Db) × (record_audit env ctx action type id metadata s ≡ (ok tt, t)) × (core t ≡ core s)
  unfolding record_audit
  audit_lem ctx action type id metadata s = (
    (record_audit env ctx action type id metadata s).1,
    caught_lem (create env audit_table (audit_row env ctx action type id metadata) s),
    (audit-Keeps core env (λ rows s. refl) (λ n s. refl) ctx action type id metadata).keeps s,
  )

  complete_backups_lem :
      (complete : Bool) (tenant_id : String) (result : Option Fields) (s : Db)
      → (t : Db) × (complete_backups env complete tenant_id result s ≡ (ok tt, t))
        × (core t ≡ core s)
  unfolding update_many
  complete_backups_lem true tenant_id result s = (_, refl, refl)
  complete_backups_lem false tenant_id result s = (s, refl, refl)

module _ (env : Env) (d : Documented env.client) (tenant_id : String) (result : Option Fields)
    (s : Db) (t : Tenant) (e : tenant_by_id tenant_id s ≡ some t) where
  settle_lem :
      (type : CommandType) (success : Bool) (status : TenantStatus)
      → (u : Db) × (settle env tenant_id type success result (some status) s ≡ (ok tt, u))
        × (u.hosts ≡ s.hosts)
        × (u.commands ≡ s.commands)
  settle_lem type success status =
      let url = result_text "runtime_url" result in
      let (rows, a, b, c) =
        update-find env d tenant_table (λ t. t.id == tenant_id) (outcome success status url) s t
          (λ r. rw (id-outcome success status url r)) e in
      let (u, k, same) =
        complete_backups_lem env (is_backup type && success) tenant_id result
          (record s { tenants = rows }) in
      (u, rw a k, ap (λ v. v.0) same, ap (λ v. v.2) same)

  -- A report on a stored tenant never throws, and leaves the hosts and the commands.
  reconcile_lem :
      (type : CommandType) (status : ResultStatus)
      → (u : Db) × (reconcile_tenant env tenant_id type status result s ≡ (ok tt, u))
        × (u.hosts ≡ s.hosts)
        × (u.commands ≡ s.commands)
  unfolding reconcile_tenant
  reconcile_lem CommandType.create_tenant succeeded =
      settle_lem CommandType.create_tenant true active
  reconcile_lem CommandType.create_tenant running =
      settle_lem CommandType.create_tenant false TenantStatus.failed
  reconcile_lem CommandType.create_tenant ResultStatus.failed =
      settle_lem CommandType.create_tenant false TenantStatus.failed
  reconcile_lem CommandType.start_tenant succeeded = settle_lem CommandType.start_tenant true active
  reconcile_lem CommandType.restart_tenant succeeded =
      settle_lem CommandType.restart_tenant true active
  reconcile_lem CommandType.stop_tenant succeeded =
      settle_lem CommandType.stop_tenant true suspended
  reconcile_lem CommandType.delete_tenant succeeded =
      settle_lem CommandType.delete_tenant true deleted
  reconcile_lem _ _ = (s, refl, refl, refl)

-- What is known after a report on a command: that it was accepted, the row of the command, the status
-- of the tenant, and that the hosts are as they were.
abbrev pub Settles :
    Env → CommandResultRequest → Db → HostCommand → String → Tenant → Action (Reply Unit) → Type 0
Settles env body s c tenant_id t action =
    (u : Db) × (action s ≡ (ok (send 200 tt), u))
    × (command_by_id c.id u ≡ some (report env body c))
    × ((t' : Tenant) × (tenant_by_id tenant_id u ≡ some t')
        × (t'.status ≡ settled_status c.command_type body.status t.status))
    × (u.hosts ≡ s.hosts)

module _ (env : Env) (d : Documented env.client) (body : CommandResultRequest) (caller : Caller)
    (s : Db) (c : HostCommand) (tenant_id : String) (t : Tenant)
    (stored : command_by_id c.id s ≡ some c) (of_tenant : present c.tenant_id ≡ some tenant_id)
    (e : tenant_by_id tenant_id s ≡ some t) where
  report_found_lem : Settles env body s c tenant_id t (report_found env caller body (some c))
  report_found_lem =
      let (rows, a, b, m) =
        update-find env d command_table (λ x. x.id == c.id) (report env body) s c (λ r. refl)
          stored in
      let s1 = record s { commands = rows } in
      let (s2, settled, hosts, commands) =
        reconcile_lem env d tenant_id body.result s1 t e c.command_type body.status in
      let (t', found, status) =
        status-reconcile_tenant env d tenant_id body.result s1 t e c.command_type body.status in
      let (s3, told, same3) =
        event_lem env tenant_id "command.result" (severity_of body.status)
          (template (type_text c.command_type ∷ " -> " ∷ status_text body.status ∷ []))
          (obj (
            object (
              ("command_id", str c.id)
              ∷ ("message", text body.message)
              ∷ ("error", text body.error)
              ∷ [])))
          s2 in
      let (s4, noted, same4) =
        audit_lem env (from_ip caller) command_executed "command" c.id
          (obj (
            object (
              ("status", str (status_text body.status))
              ∷ ("type", str (type_text c.command_type))
              ∷ [])))
          s3 in
      let same = same4 ∙ same3 in
      (
        s4,
        rw (a, of_tenant, settled, told, noted) refl,
        ap (λ v. find (λ x. x.id == c.id) v.2) same ∙ ap (find (λ x. x.id == c.id)) commands ∙ b,
        (t', ap (λ v. find (λ x. x.id == tenant_id) v.1) same ∙ rw settled at found, status),
        ap (λ v. v.0) same ∙ hosts,
      )

  pub take_result_lem :
      (host_id : String)
      → (c.host_id == host_id) ≡ true
      → Settles env body s c tenant_id t (take_result env body caller c.id host_id)
  unfolding take_result
  take_result_lem host_id own =
      rw
        (
          d.find_first_lem HostCommand (λ x. x.id == c.id && x.host_id == host_id) s.commands,
          find-both (λ x. x.id == c.id) (λ x. x.host_id == host_id) s.commands c stored own,
        )
        report_found_lem
