-- ===== src/Prisma.antt =====
-- The database client that the API calls (`@prisma/client`, packages/db/src/index.ts) is not part
-- of this repository. `Client` has its operations on the rows of one table, `Documented` what the
-- code relies on, and `reference` is a client that behaves so.
pub mod Order
use mathlib.Core.List.{Perm}
use xoom_agent_control.Prelude.{
  ◌+◌, none, some, get_or, ℕ, ◌≡◌, ◌⊎◌, Bool, true, Option, List, [], ◌∷◌, ◌++◌, length, find,
  select, map_where, modify_first, drop_first, All,
}

-- Rows put in an order, by a test that says whether a row may stand before another.
abbrev pub OrderBy : Type 1
OrderBy = (Row : Type 0) → (Row → Row → Bool) → List Row → List Row

-- `_sum` of an aggregate: null where there is no row.
unfoldable pub total : {Row : Type 0} → (Row → ℕ) → List Row → Option ℕ
total f [] = none
total f (r ∷ rows) = let rest = total f rows in some (f r + get_or rest 0)

-- A table is the list of its rows in the order of their creation. A `where` clause is a test on
-- rows, a `data` clause a function on a row, and `none` stands for the error P2025, "record not
-- found".
pub record Client : Type 1 where
  pub find_first : {Row : Type 0} → (Row → Bool) → List Row → Option Row
  pub find_many : {Row : Type 0} → (Row → Bool) → List Row → List Row
  pub count : {Row : Type 0} → (Row → Bool) → List Row → ℕ
  pub sum : {Row : Type 0} → (Row → ℕ) → List Row → Option ℕ
  pub insert : {Row : Type 0} → Row → List Row → List Row
  pub modify : {Row : Type 0} → (Row → Bool) → (Row → Row) → List Row → Option (Row × List Row)
  pub modify_many : {Row : Type 0} → (Row → Bool) → (Row → Row) → List Row → List Row
  pub remove : {Row : Type 0} → (Row → Bool) → List Row → Option (List Row)
  pub order_by : OrderBy

-- Each row may stand before all that follow.
abbrev pub Ordered : {Row : Type 0} → (Row → Row → Bool) → List Row → Type 0
Ordered before [] = Unit
Ordered before (r ∷ rs) = All (λ s. before r s ≡ true) rs × Ordered before rs

pub record IsPreorder {Row : Type 0} (before : Row → Row → Bool) : Type 0 where
  pub total : (a b : Row) → (before a b ≡ true) ⊎ (before b a ≡ true)
  pub trans : (a b c : Row) → before a b ≡ true → before b c ≡ true → before a c ≡ true

-- What an `orderBy` promises: the same rows, in order.
pub record Sorts (order_by : OrderBy) : Type 1 where
  pub perm :
      (Row : Type 0) (before : Row → Row → Bool) (rows : List Row)
      → Perm (order_by Row before rows) rows
  pub ordered :
      (Row : Type 0) (before : Row → Row → Bool)
      → IsPreorder before
      → (rows : List Row) → Ordered before (order_by Row before rows)

-- The documented behaviour that the code relies on.
pub record Documented (p : Client) : Type 1 where
  pub find_first_lem :
      (Row : Type 0) (w : Row → Bool) (rows : List Row) → p.find_first w rows ≡ find w rows
  pub find_many_lem :
      (Row : Type 0) (w : Row → Bool) (rows : List Row) → p.find_many w rows ≡ select w rows
  pub count_lem :
      (Row : Type 0) (w : Row → Bool) (rows : List Row) → p.count w rows ≡ length (select w rows)
  pub sum_lem : (Row : Type 0) (f : Row → ℕ) (rows : List Row) → p.sum f rows ≡ total f rows
  pub insert_lem : (Row : Type 0) (r : Row) (rows : List Row) → p.insert r rows ≡ rows ++ r ∷ []
  pub modify_lem :
      (Row : Type 0) (w : Row → Bool) (f : Row → Row) (rows : List Row)
      → p.modify w f rows ≡ modify_first w f rows
  pub modify_many_lem :
      (Row : Type 0) (w : Row → Bool) (f : Row → Row) (rows : List Row)
      → p.modify_many w f rows ≡ map_where w f rows
  pub remove_lem :
      (Row : Type 0) (w : Row → Bool) (rows : List Row) → p.remove w rows ≡ drop_first w rows
  pub sorts : Sorts p.order_by

-- The client that behaves as documented, for a given way to order rows.
abbrev pub reference : OrderBy → Client
reference order = record {
  find_first = find;
  find_many = select;
  count = λ w rows. length (select w rows);
  sum = total;
  insert = λ r rows. rows ++ r ∷ [];
  modify = modify_first;
  modify_many = map_where;
  remove = drop_first;
  order_by = order;
}

-- A documented client is the reference client of its order.
pub Documented-reference : (p : Client) → Documented p → p ≡ reference p.order_by
Documented-reference p d = λ i. record {
  find_first = λ {Row} w rows. d.find_first_lem Row w rows i;
  find_many = λ {Row} w rows. d.find_many_lem Row w rows i;
  count = λ {Row} w rows. d.count_lem Row w rows i;
  sum = λ {Row} f rows. d.sum_lem Row f rows i;
  insert = λ {Row} r rows. d.insert_lem Row r rows i;
  modify = λ {Row} w f rows. d.modify_lem Row w f rows i;
  modify_many = λ {Row} w f rows. d.modify_many_lem Row w f rows i;
  remove = λ {Row} w rows. d.remove_lem Row w rows i;
  order_by = p.order_by;
}
