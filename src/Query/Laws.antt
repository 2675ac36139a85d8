-- ===== src/Query/Laws.antt =====
-- What the queries do on a documented client.
use xoom_agent_control.Prelude.{
  ◌≡◌, suc, ◌++◌, [], ◌∷◌, String, Bool, true, none, some, List, find, modify_first,
  modify_first-find, modify_first-find-none,
}
use xoom_agent_control.Prisma.{Documented}
use xoom_agent_control.Rows.{Db}
use xoom_agent_control.Env.{Env}
use xoom_agent_control.Tables.{Table}
use xoom_agent_control.Action.{ok, throw}
use xoom_agent_control.Query.{find_first, update, create, update_linked}

module _ (env : Env) (d : Documented env.client) {Row : Type 0} (table : Table Row) where
  pub find_first_lem :
      (w : Row → Bool) (s : Db) → find_first env table w s ≡ (ok (find w (table.rows s)), s)
  unfolding find_first
  find_first_lem w s = rw (d.find_first_lem Row w (table.rows s))

  -- An update changes the row that its condition finds.
  pub update-find :
      (w : Row → Bool) (f : Row → Row) (s : Db) (x : Row)
      → ((r : Row) → w (f r) ≡ w r)
      → find w (table.rows s) ≡ some x
      → (rows : List Row) × (update env table w f s ≡ (ok (f x), table.set_rows rows s))
        × (find w rows ≡ some (f x))
        × (modify_first w f (table.rows s) ≡ some (f x, rows))
  unfolding update
  update-find w f s x keeps e =
      let (rows, a, b) = modify_first-find w f keeps (table.rows s) x e in
      (rows, rw (d.modify_lem Row w f (table.rows s), a), b, a)

  -- The same where the new row refers to another table.
  pub update_linked-find :
      (w : Row → Bool) (f : Row → Row) (s : Db) (x : Row)
      → ((r : Row) → w (f r) ≡ w r)
      → find w (table.rows s) ≡ some x
      → table.linked s (f x) ≡ true
      → (rows : List Row) × (update_linked env table w f s ≡ (ok (f x), table.set_rows rows s))
        × (find w rows ≡ some (f x))
  unfolding update_linked
  update_linked-find w f s x keeps e l =
      let (rows, a, b) = modify_first-find w f keeps (table.rows s) x e in
      (rows, rw (d.modify_lem Row w f (table.rows s), a, l), b)

  -- An update that finds no row throws, and changes nothing.
  pub update-find-none :
      (w : Row → Bool) (f : Row → Row) (s : Db)
      → ((r : Row) → w (f r) ≡ w r)
      → find w (table.rows s) ≡ none
      → update env table w f s
        ≡ (throw (record { status_code = none; message = "Record not found" }), s)
  unfolding update
  update-find-none w f s keeps e =
      rw (d.modify_lem Row w f (table.rows s), modify_first-find-none w f keeps (table.rows s) e)

  -- A row that breaks no constraint is added at the end, and the next id is counted on.
  pub create_lem :
      (make : String → Row) (s : Db)
      → table.linked s (make (env.cuid s.next)) ≡ true
      → find (table.conflict (make (env.cuid s.next))) (table.rows s) ≡ none
      → create env table make s ≡ (
        ok (make (env.cuid s.next)),
        table.set_rows
            (table.rows s ++ make (env.cuid s.next) ∷ [])
            (record s { next = suc s.next }),
      )
  unfolding create
  create_lem make s l c = rw (
    d.find_first_lem Row (table.conflict (make (env.cuid s.next))) (table.rows s),
    l,
    c,
    d.insert_lem Row (make (env.cuid s.next)) (table.rows s),
  )
