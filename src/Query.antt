-- ===== src/Query.antt =====
-- `db.<table>.<operation>`: the queries of the database client as actions.
pub mod Frame
pub mod Laws
use xoom_agent_control.Prelude.{
  ℕ, leb, String, Bool, not, ◌&&◌, Option, none, some, List, suc, if◌then◌else◌,
}
use xoom_agent_control.Env.{Env}
use xoom_agent_control.Tables.{Table, is_some}
use xoom_agent_control.Action.{Action, pure, fail}

module _ (env : Env) {Row : Type 0} (table : Table Row) where
  unfoldable pub find_first : (Row → Bool) → Action (Option Row)
  find_first w s = pure (env.client.find_first w (table.rows s)) s

  -- with `orderBy`
  unfoldable pub find_first_by : (Row → Row → Bool) → (Row → Bool) → Action (Option Row)
  find_first_by before w s =
      pure (env.client.find_first w (env.client.order_by Row before (table.rows s))) s

  unfoldable pub find_many_by : (Row → Row → Bool) → (Row → Bool) → Action (List Row)
  find_many_by before w s =
      pure (env.client.find_many w (env.client.order_by Row before (table.rows s))) s

  unfoldable pub find_many : (Row → Bool) → Action (List Row)
  find_many w s = pure (env.client.find_many w (table.rows s)) s

  unfoldable pub count : (Row → Bool) → Action ℕ
  count w s = pure (env.client.count w (table.rows s)) s

  unfoldable pub sum_of : (Row → ℕ) → Action (Option ℕ)
  sum_of f s = pure (env.client.sum f (table.rows s)) s

  -- A row that breaks a constraint is refused (P2002, P2003). The new id is used up either way.
  unfoldable pub create : (String → Row) → Action Row
  create make s =
      let r = make (env.cuid s.next) in
      let counted = record s { next = suc s.next } in
      if table.linked s r && not (is_some (env.client.find_first (table.conflict r) (table.rows s)))
      then pure r (table.set_rows (env.client.insert r (table.rows s)) counted)
      else fail none "Constraint failed" counted

  abbrev pub updated : Option (Row × List Row) → Action Row
  updated none s = fail none "Record not found" s
  updated (some (r, rows)) s = pure r (table.set_rows rows s)

  -- P2025 if no row fits. For updates that touch no unique column and none that refers to another
  -- table.
  unfoldable pub update : (Row → Bool) → (Row → Row) → Action Row
  update w f s = updated (env.client.modify w f (table.rows s)) s

  abbrev pub updated_linked : Option (Row × List Row) → Action Row
  updated_linked none s = fail none "Record not found" s
  updated_linked (some (r, rows)) s =
      if table.linked s r then pure r (table.set_rows rows s) else fail none "Constraint failed" s

  -- An update of a unique column: no other row may exclude the new one.
  abbrev pub updated_unique : Option (Row × List Row) → Action Row
  updated_unique none s = fail none "Record not found" s
  updated_unique (some (r, rows)) s =
      if leb (env.client.count (table.conflict r) rows) 1
      then pure r (table.set_rows rows s)
      else fail none "Constraint failed" s

  unfoldable pub update_unique : (Row → Bool) → (Row → Row) → Action Row
  update_unique w f s = updated_unique (env.client.modify w f (table.rows s)) s

  -- An update of a column that refers to another table.
  unfoldable pub update_linked : (Row → Bool) → (Row → Row) → Action Row
  update_linked w f s = updated_linked (env.client.modify w f (table.rows s)) s

  unfoldable pub update_many : (Row → Bool) → (Row → Row) → Action Unit
  update_many w f s = pure tt (table.set_rows (env.client.modify_many w f (table.rows s)) s)

  abbrev pub deleted : Option (List Row) → Action Unit
  deleted none s = fail none "Record not found" s
  deleted (some rows) s = pure tt (table.set_rows rows s)

  unfoldable pub delete : (Row → Bool) → Action Unit
  delete w s = deleted (env.client.remove w (table.rows s)) s
