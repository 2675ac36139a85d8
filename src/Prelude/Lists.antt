-- ===== src/Prelude/Lists.antt =====
-- Lists counted and searched with native numbers and Boolean tests.
use Prim.Native.Nat.{ℕ, zero, suc}
use mathlib.Core.Bool.{Bool, true, ◌&&◌}
use mathlib.Core.List.{List, [], ◌∷◌}
use mathlib.Core.Option.{Option, none, some}
use xoom_agent_control.Prelude.Tests.{if◌then◌else◌}

module _ {ℓ} {A : Type ℓ} where
  abbrev pub length : List A → ℕ
  length [] = 0
  length (x ∷ xs) = suc (length xs)

  abbrev pub take : ℕ → List A → List A
  take zero xs = []
  take (suc n) [] = []
  take (suc n) (x ∷ xs) = x ∷ take n xs

  abbrev pub drop : ℕ → List A → List A
  drop zero xs = xs
  drop (suc n) [] = []
  drop (suc n) (x ∷ xs) = drop n xs

  -- The first item that passes a test.
  unfoldable pub find : (A → Bool) → List A → Option A
  find test [] = none
  find test (x ∷ xs) = if test x then some x else find test xs

  -- The items that pass a test, in order.
  unfoldable pub select : (A → Bool) → List A → List A
  select test [] = []
  select test (x ∷ xs) = let rest = select test xs in if test x then x ∷ rest else rest

  -- Every item that passes a test is changed, the others stay.
  unfoldable pub map_where : (A → Bool) → (A → A) → List A → List A
  map_where test f [] = []
  map_where test f (x ∷ xs) = (if test x then f x else x) ∷ map_where test f xs

  -- The first item that passes a test is changed; the changed item comes back with the list.
  unfoldable pub modify_first : (A → Bool) → (A → A) → List A → Option (A × List A)
  modify_first test f [] = none
  modify_first test f (x ∷ xs) =
      if test x
      then some (f x, f x ∷ xs)
      else elim (modify_first test f xs) [ none ↦ none | some (y, ys) ↦ some (y, x ∷ ys) ]

  -- The first item that passes a test is dropped.
  unfoldable pub drop_first : (A → Bool) → List A → Option (List A)
  drop_first test [] = none
  drop_first test (x ∷ xs) =
      if test x
      then some xs
      else elim (drop_first test xs) [ none ↦ none | some ys ↦ some (x ∷ ys) ]

  unfoldable pub all : (A → Bool) → List A → Bool
  all test [] = true
  all test (x ∷ xs) = test x && all test xs

module _ {ℓ κ} {A : Type ℓ} (P : A → Type κ) where
  abbrev pub All : List A → Type κ
  All [] = Unit
  All (x ∷ xs) = P x × All xs
