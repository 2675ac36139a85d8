-- ===== src/Prisma/Order.antt =====
-- What a query with `orderBy` finds, and a way to order that is as documented.
use mathlib.Core.Bool.{Bool-set}
use mathlib.Core.Logic.Or
use mathlib.Core.List.{Mem, Perm, mem-cons, not-mem-nil}
use mathlib.Core.List.Perm
use xoom_agent_control.Prelude.{
  ◌≡◌, refl, inl, inr, Bool, true, false, none, some, List, [], ◌∷◌, All, find, if◌then◌else◌,
  arith, Bool-cases,
}
use xoom_agent_control.Prisma.{Client, Documented, reference, OrderBy, Ordered, IsPreorder, Sorts}

module _ {Row : Type 0} where
  -- `r` passes the test, and no row that passes has to stand before it.
  pub record First (before : Row → Row → Bool) (test : Row → Bool) (rows : List Row) (r : Row)
      : Type 0 where
    pub member : Mem r rows
    pub passes : test r ≡ true
    pub least : (s : Row) → Mem s rows → test s ≡ true → before r s ≡ true

  pub All-Mem :
      (test : Row → Bool) (rows : List Row) (s : Row)
      → All (λ x. test x ≡ true) rows
      → Mem s rows
      → test s ≡ true
  All-Mem test [] s h m = absurd (not-mem-nil m)
  All-Mem test (r ∷ rows) s h m =
      Or.elim (Bool-set _ _) (mem-cons.0 m) (λ e. rw e h.0) (All-Mem test rows s h.1)

  pub find-none :
      (test : Row → Bool) (rows : List Row)
      → find test rows ≡ none
      → (s : Row) → Mem s rows
      → test s ≡ false
  unfolding find
  find-none test [] h s m = absurd (not-mem-nil m)
  find-none test (r ∷ rows) h s m = elim (Bool-cases (test r)) [
    | inl here ↦ cc (rw here at h)
    | inr there ↦
        Or.elim (Bool-set _ _) (mem-cons.0 m) (λ e. rw e there)
          (find-none test rows (rw there at h) s)
  ]

  before_self : (before : Row → Row → Bool) → IsPreorder before → (r : Row) → before r r ≡ true
  before_self before p r = elim (p.total r r) [ inl h ↦ h | inr h ↦ h ]

  First-cons :
      {before : Row → Row → Bool} {test : Row → Bool} {rows : List Row} {r : Row} (x : Row)
      → test x ≡ false
      → First before test rows r
      → First before test (x ∷ rows) r
  First-cons {before} x fails f = record {
    member = mem-cons.1 (Or.inr f.member);
    passes = f.passes;
    least =
        λ s m t. Or.elim (Bool-set _ _) (mem-cons.0 m) (λ e. cc (rw e at t)) (λ k. f.least s k t);
  }

  find-Ordered :
      (before : Row → Row → Bool) (test : Row → Bool) (rows : List Row)
      → IsPreorder before
      → Ordered before rows
      → (r : Row) → find test rows ≡ some r
      → First before test rows r
  unfolding find
  find-Ordered before test [] p o r h = cc
  find-Ordered before test (x ∷ rows) p o r h = elim (Bool-cases (test x)) [
    | inl here ↦
        let same : x ≡ r = ground arith in
        rw (← same) (record {
          member = mem-cons.1 (Or.inl refl);
          passes = here;
          least = λ s m t.
              Or.elim (Bool-set _ _) (mem-cons.0 m) (λ e. rw e (before_self before p x))
                (All-Mem (before x) rows s o.0);
        })
    | inr there ↦ First-cons x there (find-Ordered before test rows p o.1 r (rw there at h))
  ]

  -- What `findFirst` with an `orderBy` returns.
  pub find-order_by :
      {order_by : OrderBy} (sorts : Sorts order_by) (before : Row → Row → Bool) (test : Row → Bool)
      (rows : List Row)
      → IsPreorder before
      → (r : Row) → find test (order_by Row before rows) ≡ some r
      → First before test rows r
  find-order_by {order_by} sorts before test rows p r h =
      let f =
        find-Ordered before test (order_by Row before rows) p (sorts.ordered Row before p rows) r
          h in
      record {
        member = (Perm.mem_iff (sorts.perm Row before rows)).0 f.member;
        passes = f.passes;
        least = λ s m t. f.least s ((Perm.mem_iff (sorts.perm Row before rows)).1 m) t;
      }

  pub find-order_by_none :
      {order_by : OrderBy} (sorts : Sorts order_by) (before : Row → Row → Bool) (test : Row → Bool)
      (rows : List Row)
      → find test (order_by Row before rows) ≡ none
      → (s : Row) → Mem s rows
      → test s ≡ false
  find-order_by_none {order_by} sorts before test rows h s m =
      find-none test (order_by Row before rows) h s
        ((Perm.mem_iff (sorts.perm Row before rows)).1 m)

  -- Insertion sort.
  unfoldable pub put : (Row → Row → Bool) → Row → List Row → List Row
  put before r [] = r ∷ []
  put before r (x ∷ rows) =
      let rest = put before r rows in if before r x then r ∷ x ∷ rows else x ∷ rest

  unfoldable pub insertion_sort : (Row → Row → Bool) → List Row → List Row
  unfolding put
  insertion_sort before [] = []
  insertion_sort before (x ∷ rows) = put before x (insertion_sort before rows)

  put-perm :
      (before : Row → Row → Bool) (r : Row) (rows : List Row) → Perm (put before r rows) (r ∷ rows)
  unfolding put
  put-perm before r [] = Perm.refl _
  put-perm before r (x ∷ rows) = elim (Bool-cases (before r x)) [
    | inl h ↦ rw h (Perm.refl _)
    | inr h ↦ rw h (Perm.trans (Perm.cons x (put-perm before r rows)) (Perm.swap r x rows))
  ]

  insertion_sort-perm :
      (before : Row → Row → Bool) (rows : List Row) → Perm (insertion_sort before rows) rows
  unfolding insertion_sort
  insertion_sort-perm before [] = Perm.refl _
  insertion_sort-perm before (x ∷ rows) =
      Perm.trans (put-perm before x (insertion_sort before rows))
        (Perm.cons x (insertion_sort-perm before rows))

  All-put :
      (before : Row → Row → Bool) (test : Row → Bool) (r : Row) (rows : List Row)
      → test r ≡ true
      → All (λ s. test s ≡ true) rows
      → All (λ s. test s ≡ true) (put before r rows)
  unfolding put
  All-put before test r [] h k = (h, tt)
  All-put before test r (x ∷ rows) h k = ground (arith, All-put before test r rows h k.1)

  All-trans :
      (before : Row → Row → Bool)
      → IsPreorder before
      → (r x : Row) (rows : List Row) → before r x ≡ true
      → All (λ s. before x s ≡ true) rows
      → All (λ s. before r s ≡ true) rows
  All-trans before p r x [] h k = tt
  All-trans before p r x (y ∷ rows) h k = (p.trans r x y h k.0, All-trans before p r x rows h k.1)

  put-Ordered :
      (before : Row → Row → Bool)
      → IsPreorder before
      → (r : Row) (rows : List Row) → Ordered before rows
      → Ordered before (put before r rows)
  unfolding put
  put-Ordered before p r [] o = (tt, tt)
  put-Ordered before p r (x ∷ rows) o = elim (Bool-cases (before r x)) [
    | inl h ↦ rw h ((h, All-trans before p r x rows h o.0), o)
    | inr h ↦ rw h (
      All-put before (before x) r rows (ground (arith, p.total r x)) o.0,
      put-Ordered before p r rows o.1,
    )
  ]

  insertion_sort-Ordered :
      (before : Row → Row → Bool)
      → IsPreorder before
      → (rows : List Row) → Ordered before (insertion_sort before rows)
  unfolding insertion_sort
  insertion_sort-Ordered before p [] = tt
  insertion_sort-Ordered before p (x ∷ rows) =
      put-Ordered before p x (insertion_sort before rows) (insertion_sort-Ordered before p rows)

unfoldable pub sorted : OrderBy
unfolding insertion_sort
sorted Row before rows = insertion_sort before rows

-- A client as documented exists.
pub sorted-Sorts : Sorts sorted
unfolding sorted
sorted-Sorts = record {
  perm = λ Row before rows. insertion_sort-perm before rows;
  ordered = λ Row before p rows. insertion_sort-Ordered before p rows;
}

abbrev pub local_client : Client
local_client = reference sorted

pub Documented-local_client : Documented local_client
Documented-local_client = record {
  find_first_lem = λ Row w rows. refl;
  find_many_lem = λ Row w rows. refl;
  count_lem = λ Row w rows. refl;
  sum_lem = λ Row f rows. refl;
  insert_lem = λ Row r rows. refl;
  modify_lem = λ Row w f rows. refl;
  modify_many_lem = λ Row w f rows. refl;
  remove_lem = λ Row w rows. refl;
  sorts = sorted-Sorts;
}
