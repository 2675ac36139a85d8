-- ===== src/Server/Aside.antt =====
-- Queries of the tables that hold no host, tenant or command.
use xoom_agent_control.Prelude.{
  ℕ, String, Bool, Option, none, some, List, leb, Bool-cases, inl, inr,
}
use xoom_agent_control.Json.{Json}
use xoom_agent_control.Prisma.{Documented}
use xoom_agent_control.Enums.{EventSeverity}
use xoom_agent_control.Rows.{Db}
use xoom_agent_control.Env.{Env}
use xoom_agent_control.Tables.{Table, event_table, audit_table}
use xoom_agent_control.Query.{
  create, update, update_many, update_unique, updated_unique, delete, deleted,
}
use xoom_agent_control.Audit.{
  AuditContext, AuditAction, tenant_event, record_tenant_event, audit_row, record_audit,
}
use xoom_agent_control.Server.Preserve.{
  Preserves, create-Preserves, update-Preserves, try_quietly-Preserves,
}
use xoom_agent_control.Server.Sound.{IsSound}

module _ (env : Env) (d : Documented env.client) where
  module _ {Row : Type 0} (table : Table Row)
      (outside : (rows : List Row) (s : Db) → IsSound s → IsSound (table.set_rows rows s)) where
    pub create-Sound :
        (make : String → Row)
        → ((rows : List Row) (n : ℕ) (s : Db)
            → IsSound s
            → IsSound (table.set_rows rows (record s { next = n })))
        → Preserves IsSound (create env table make)
    create-Sound make k =
        create-Preserves IsSound env d table (λ n s p. p) make (λ s id e p. k _ _ s p)

    pub update-Sound : (w : Row → Bool) (f : Row → Row) → Preserves IsSound (update env table w f)
    update-Sound w f = update-Preserves IsSound env d table w f (λ s r rows e p. outside rows s p)

    pub update_many-Sound :
        (w : Row → Bool) (f : Row → Row) → Preserves IsSound (update_many env table w f)
    unfolding update_many
    update_many-Sound w f = record { preserves = λ s p. outside _ s p }

    updated_unique-Sound :
        (found : Option (Row × List Row)) (s : Db)
        → IsSound s
        → IsSound (updated_unique env table found s).1
    updated_unique-Sound none s p = p
    updated_unique-Sound (some (r, rows)) s p =
        elim (Bool-cases (leb (env.client.count (table.conflict r) rows) 1)) [
          | inl e ↦ rw e (outside rows s p)
          | inr e ↦ rw e p
        ]

    pub update_unique-Sound :
        (w : Row → Bool) (f : Row → Row) → Preserves IsSound (update_unique env table w f)
    unfolding update_unique
    update_unique-Sound w f = record {
      preserves = λ s p. updated_unique-Sound (env.client.modify w f (table.rows s)) s p;
    }

    deleted-Sound :
        (left : Option (List Row)) (s : Db) → IsSound s → IsSound (deleted env table left s).1
    deleted-Sound none s p = p
    deleted-Sound (some rows) s p = outside rows s p

    pub delete-Sound : (w : Row → Bool) → Preserves IsSound (delete env table w)
    unfolding delete
    delete-Sound w = record {
      preserves = λ s p. deleted-Sound (env.client.remove w (table.rows s)) s p;
    }

  pub event-Sound :
      (id type : String) (severity : EventSeverity) (message : String) (metadata : Json)
      → Preserves IsSound (record_tenant_event env id type severity message metadata)
  unfolding record_tenant_event
  event-Sound id type severity message metadata = try_quietly-Preserves IsSound (
      create-Sound event_table (λ rows s p. p) (tenant_event env id type severity message metadata)
        (λ rows n s p. p))

  pub audit-Sound :
      (ctx : AuditContext) (action : AuditAction) (type id : String) (metadata : Json)
      → Preserves IsSound (record_audit env ctx action type id metadata)
  unfolding record_audit
  audit-Sound ctx action type id metadata = try_quietly-Preserves IsSound (
      create-Sound audit_table (λ rows s p. p) (audit_row env ctx action type id metadata)
        (λ rows n s p. p))
