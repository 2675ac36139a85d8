-- ===== src/Server/Preserve.antt =====
-- Actions that preserve a property of the database, whether they succeed or throw.
use xoom_agent_control.Prelude.{
  ◌≡◌, refl, ℕ, suc, String, Bool, Option, none, some, List, [], ◌∷◌, ◌++◌, find, modify_first,
  if◌then◌else◌, Bool-cases, Option-cases, inl, inr,
}
use xoom_agent_control.Prisma.{Documented}
use xoom_agent_control.Rows.{Db}
use xoom_agent_control.Env.{Env, SessionUser}
use xoom_agent_control.Tables.{Table}
use xoom_agent_control.Action.{
  Action, Result, Reply, ok, throw, continue, pure, fail, try_quietly, caught, atomic, undone,
  ◌>>=◌,
}
use xoom_agent_control.Query.{create, update, updated, update_linked, updated_linked, find_first}
use xoom_agent_control.Guards.{Caller, require_user, require_host}
use xoom_agent_control.Guards.Admission.{require_user-Admitted, require_host-AdmittedHost}

module _ (P : Db → Type 0) where
  pub record Preserves {A : Type 0} (action : Action A) : Type 0 where
    pub preserves : (s : Db) → P s → P (action s).1

  pub pure-Preserves : {A : Type 0} {a : A} → Preserves (pure a)
  pure-Preserves = record { preserves = λ s p. p }

  pub fail-Preserves :
      {A : Type 0} {code : Option ℕ} {message : String} → Preserves (fail {A = A} code message)
  fail-Preserves = record { preserves = λ s p. p }

  pub if-Preserves :
      {A : Type 0} (b : Bool) {m n : Action A}
      → Preserves m
      → Preserves n
      → Preserves (if b then m else n)
  if-Preserves b {m} {n} k l = elim (Bool-cases b) [ inl e ↦ rw e k | inr e ↦ rw e l ]

  continue-at :
      {A B : Type 0} (f : A → Action B) (r : Result A × Db)
      → P r.1
      → ((a : A) → Preserves (f a))
      → P (continue r f).1
  continue-at f (ok a, s) p k = (k a).preserves s p
  continue-at f (throw e, s) p k = p

  -- What follows an action that is known to keep the property in one state.
  pub bind-at :
      {A B : Type 0} (m : Action A) (f : A → Action B) (s : Db)
      → P (m s).1
      → ((a : A) → Preserves (f a))
      → P ((m >>= f) s).1
  bind-at m f s p k = continue-at f (m s) p k

  pub bind-Preserves :
      {A B : Type 0} {m : Action A} {f : A → Action B}
      → Preserves m
      → ((a : A) → Preserves (f a))
      → Preserves (m >>= f)
  bind-Preserves {A} {B} {m} {f} k l = record {
    preserves = λ s p. bind-at m f s (k.preserves s p) l;
  }

  undone-Preserves : {A : Type 0} (s : Db) (r : Result A × Db) → P s → P r.1 → P (undone s r).1
  undone-Preserves s (ok a, t) p q = q
  undone-Preserves s (throw e, t) p q = p

  pub atomic-Preserves : {A : Type 0} {m : Action A} → Preserves m → Preserves (atomic m)
  atomic-Preserves {A} {m} k = record {
    preserves = λ s p. undone-Preserves s (m s) p (k.preserves s p);
  }

  caught-Preserves : {A : Type 0} (r : Result A × Db) → P r.1 → P (caught r).1
  caught-Preserves (ok a, s) p = p
  caught-Preserves (throw e, s) p = p

  pub try_quietly-Preserves : {A : Type 0} {m : Action A} → Preserves m → Preserves (try_quietly m)
  try_quietly-Preserves {A} {m} k = record {
    preserves = λ s p. caught-Preserves (m s) (k.preserves s p);
  }

  pub require_user-Preserves :
      {A : Type 0} (env : Env) (write : Bool) (caller : Caller)
      (handler : SessionUser → Action (Reply A))
      → ((user : SessionUser) → Preserves (handler user))
      → Preserves (require_user env write caller handler)
  require_user-Preserves env write caller handler k = record {
    preserves = λ s p. elim (require_user-Admitted env write caller handler s) [
      | inl (code, body, e) ↦ rw e p
      | inr (user, a, e) ↦ rw e ((k user).preserves s p)
    ];
  }

  module _ (env : Env) (d : Documented env.client) where
    pub require_host-Preserves :
        {A : Type 0} (caller : Caller) (host_id : String) (handler : String → Action (Reply A))
        → ((id : String) → Preserves (handler id))
        → Preserves (require_host env caller host_id handler)
    require_host-Preserves caller host_id handler k = record {
      preserves = λ s p. elim (require_host-AdmittedHost env caller host_id handler s d) [
        | inl (code, body, e) ↦ rw e p
        | inr (host, a, e) ↦ rw e ((k host.id).preserves s p)
      ];
    }

    module _ {Row : Type 0} (table : Table Row) where
      pub find_first-Preserves : (w : Row → Bool) → Preserves (find_first env table w)
      unfolding find_first
      find_first-Preserves w = record { preserves = λ s p. p }

      updated-Preserves :
          (found : Option (Row × List Row)) (s : Db)
          → ((r : Row) (rows : List Row) → found ≡ some (r, rows) → P (table.set_rows rows s))
          → P s
          → P (updated env table found s).1
      updated-Preserves none s k p = p
      updated-Preserves (some (r, rows)) s k p = k r rows refl

      pub update-at :
          (w : Row → Bool) (f : Row → Row) (s : Db)
          → ((r : Row) (rows : List Row)
              → modify_first w f (table.rows s) ≡ some (r, rows)
              → P (table.set_rows rows s))
          → P s
          → P (update env table w f s).1
      unfolding update
      update-at w f s k p =
          rw (d.modify_lem Row w f (table.rows s))
            (updated-Preserves (modify_first w f (table.rows s)) s k p)

      pub update-Preserves :
          (w : Row → Bool) (f : Row → Row)
          → ((s : Db) (r : Row) (rows : List Row)
              → modify_first w f (table.rows s) ≡ some (r, rows)
              → P s
              → P (table.set_rows rows s))
          → Preserves (update env table w f)
      update-Preserves w f k = record {
        preserves = λ s p. update-at w f s (λ r rows e. k s r rows e p) p;
      }

      updated_linked-Preserves :
          (found : Option (Row × List Row)) (s : Db)
          → ((r : Row) (rows : List Row) → found ≡ some (r, rows) → P (table.set_rows rows s))
          → P s
          → P (updated_linked env table found s).1
      updated_linked-Preserves none s k p = p
      updated_linked-Preserves (some (r, rows)) s k p = elim (Bool-cases (table.linked s r)) [
        | inl e ↦ rw e (k r rows refl)
        | inr e ↦ rw e p
      ]

      pub update_linked-Preserves :
          (w : Row → Bool) (f : Row → Row)
          → ((s : Db) (r : Row) (rows : List Row)
              → modify_first w f (table.rows s) ≡ some (r, rows)
              → P s
              → P (table.set_rows rows s))
          → Preserves (update_linked env table w f)
      unfolding update_linked
      update_linked-Preserves w f k = record {
        preserves = λ s p. rw (d.modify_lem Row w f (table.rows s)) (
            updated_linked-Preserves (modify_first w f (table.rows s)) s
              (λ r rows e. k s r rows e p) p);
      }

      module _ (counts : (n : ℕ) (s : Db) → P s → P (record s { next = n })) where
        pub create-at :
            (make : String → Row) (s : Db)
            → (find (table.conflict (make (env.cuid s.next))) (table.rows s) ≡ none
                → P (
                    table.set_rows
                      (table.rows s ++ make (env.cuid s.next) ∷ [])
                      (record s { next = suc s.next })))
            → P s
            → P (create env table make s).1
        unfolding create
        create-at make s k p =
            let r = make (env.cuid s.next) in
            rw
              (
                d.find_first_lem Row (table.conflict r) (table.rows s),
                d.insert_lem Row r (table.rows s),
              )
              (elim (Bool-cases (table.linked s r)) [
                | inr loose ↦ rw loose (counts (suc s.next) s p)
                | inl bound ↦ elim (Option-cases (find (table.conflict r) (table.rows s))) [
                  | inl free ↦ rw (bound, free) (k free)
                  | inr (other, taken) ↦ rw (bound, taken) (counts (suc s.next) s p)
                ]
              ])

        pub create-Preserves :
            (make : String → Row)
            → ((s : Db) (id : String)
                → find (table.conflict (make id)) (table.rows s) ≡ none
                → P s
                → P (
                    table.set_rows (table.rows s ++ make id ∷ []) (record s { next = suc s.next })))
            → Preserves (create env table make)
        create-Preserves make k = record {
          preserves = λ s p. create-at make s (λ free. k s (env.cuid s.next) free p) p;
        }
