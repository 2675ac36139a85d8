-- ===== src/Query/Frame.antt =====
-- What an action leaves alone: a view of the database, such as one table, that it keeps whether it
-- succeeds or throws.
use xoom_agent_control.Prelude.{
  ◌≡◌, refl, ◌∙◌, String, Bool, not, ◌&&◌, Option, none, some, List, Bool-cases, inl, inr, ℕ, suc,
}
use xoom_agent_control.Rows.{Db}
use xoom_agent_control.Env.{Env}
use xoom_agent_control.Tables.{Table, is_some}
use xoom_agent_control.Action.{
  Action, Result, ok, throw, continue, pure, fail, try_quietly, caught, atomic, undone, ◌>>=◌,
}
use xoom_agent_control.Query.{create, update, updated, find_first}

module _ {V : Type 0} (view : Db → V) where
  pub record Keeps {A : Type 0} (action : Action A) : Type 0 where
    pub keeps : (s : Db) → view (action s).1 ≡ view s

  pub pure-Keeps : {A : Type 0} {a : A} → Keeps (pure a)
  pure-Keeps = record { keeps = λ s. refl }

  pub fail-Keeps :
      {A : Type 0} {code : Option ℕ} {message : String} → Keeps (fail {A = A} code message)
  fail-Keeps = record { keeps = λ s. refl }

  continue-Keeps :
      {A B : Type 0} (f : A → Action B)
      → ((a : A) → Keeps (f a))
      → (r : Result A × Db) → view (continue r f).1 ≡ view r.1
  continue-Keeps f k (ok a, s) = (k a).keeps s
  continue-Keeps f k (throw e, s) = refl

  pub bind-Keeps :
      {A B : Type 0} {m : Action A} {f : A → Action B}
      → Keeps m
      → ((a : A) → Keeps (f a))
      → Keeps (m >>= f)
  bind-Keeps {A} {B} {m} {f} k l = record { keeps = λ s. continue-Keeps f l (m s) ∙ k.keeps s }

  -- What follows an action that keeps the view may use that the view is as it was.
  continue-view :
      {A B : Type 0} (f : A → Action B) (s : Db) (r : Result A × Db)
      → view r.1 ≡ view s
      → ((a : A) (t : Db) → view t ≡ view s → view (f a t).1 ≡ view s)
      → view (continue r f).1 ≡ view s
  continue-view f s (ok a, t) e k = k a t e
  continue-view f s (throw x, t) e k = e

  pub bind-view :
      {A B : Type 0} {m : Action A} (f : A → Action B) (s : Db)
      → Keeps m
      → ((a : A) (t : Db) → view t ≡ view s → view (f a t).1 ≡ view s)
      → view ((m >>= f) s).1 ≡ view s
  bind-view {A} {B} {m} f s k l = continue-view f s (m s) (k.keeps s) l

  -- Two continuations that agree on the view give two actions that do.
  continue-agree :
      {A B : Type 0} (f g : A → Action B)
      → ((a : A) (s : Db) → view (f a s).1 ≡ view (g a s).1)
      → (r : Result A × Db) → view (continue r f).1 ≡ view (continue r g).1
  continue-agree f g k (ok a, s) = k a s
  continue-agree f g k (throw e, s) = refl

  pub bind-agree :
      {A B : Type 0} (m : Action A) (f g : A → Action B)
      → ((a : A) (s : Db) → view (f a s).1 ≡ view (g a s).1)
      → (s : Db) → view ((m >>= f) s).1 ≡ view ((m >>= g) s).1
  bind-agree m f g k s = continue-agree f g k (m s)

  undone-Keeps :
      {A : Type 0} (s : Db) (r : Result A × Db) → view r.1 ≡ view s → view (undone s r).1 ≡ view s
  undone-Keeps s (ok a, t) e = e
  undone-Keeps s (throw x, t) e = refl

  pub atomic-Keeps : {A : Type 0} {m : Action A} → Keeps m → Keeps (atomic m)
  atomic-Keeps {A} {m} k = record { keeps = λ s. undone-Keeps s (m s) (k.keeps s) }

  caught-Keeps : {A : Type 0} (r : Result A × Db) → view (caught r).1 ≡ view r.1
  caught-Keeps (ok a, s) = refl
  caught-Keeps (throw e, s) = refl

  pub try_quietly-Keeps : {A : Type 0} {m : Action A} → Keeps m → Keeps (try_quietly m)
  try_quietly-Keeps {A} {m} k = record { keeps = λ s. caught-Keeps (m s) ∙ k.keeps s }

  -- A query of a table that is outside the view.
  module _ (env : Env) {Row : Type 0} (table : Table Row)
      (outside : (rows : List Row) (s : Db) → view (table.set_rows rows s) ≡ view s) where
    pub find_first-Keeps : (w : Row → Bool) → Keeps (find_first env table w)
    unfolding find_first
    find_first-Keeps w = record { keeps = λ s. refl }

    updated-Keeps : (r : Option (Row × List Row)) (s : Db) → view (updated env table r s).1 ≡ view s
    updated-Keeps none s = refl
    updated-Keeps (some (r, rows)) s = outside rows s

    pub update-Keeps : (w : Row → Bool) (f : Row → Row) → Keeps (update env table w f)
    unfolding update
    update-Keeps w f = record {
      keeps = λ s. updated-Keeps (env.client.modify w f (table.rows s)) s;
    }

    module _ (counts : (n : ℕ) (s : Db) → view (record s { next = n }) ≡ view s) where
      view-create : (make : String → Row) (s : Db) → view (create env table make s).1 ≡ view s
      unfolding create
      view-create make s =
          let r = make (env.cuid s.next) in
          let counted = counts (suc s.next) s in
          elim (Bool-cases (
            table.linked s r
            && not (is_some (env.client.find_first (table.conflict r) (table.rows s))))) [
              | inl b ↦ rw b (outside _ _ ∙ counted)
              | inr b ↦ rw b counted
            ]

      pub create-Keeps : (make : String → Row) → Keeps (create env table make)
      create-Keeps make = record { keeps = view-create make }
