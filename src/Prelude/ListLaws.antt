-- ===== src/Prelude/ListLaws.antt =====
-- How a changed row is found again.
use mathlib.Core.Path.{◌≡◌, refl}
use mathlib.Core.Bool.{Bool}
use mathlib.Core.Logic.{inl, inr}
use mathlib.Core.Option.{none, some}
use mathlib.Core.List.{List, [], ◌∷◌}
use native.Mathlib.Omega.{arith}
use xoom_agent_control.Prelude.Tests.{Bool-cases}
use xoom_agent_control.Prelude.Lists.{find, modify_first}

module _ {ℓ} {A : Type ℓ} (w : A → Bool) (f : A → A) (keeps : (x : A) → w (f x) ≡ w x) where
  -- The item that is found first is the one that is changed, and is found first again.
  pub modify_first-find :
      (xs : List A) (x : A)
      → find w xs ≡ some x
      → (ys : List A) × (modify_first w f xs ≡ some (f x, ys)) × (find w ys ≡ some (f x))
  unfolding find modify_first
  modify_first-find [] x e = cc
  modify_first-find (y ∷ xs) x e = elim (Bool-cases (w y)) [
    | inl hit ↦ (f y ∷ xs, ground arith, ground (arith, keeps y))
    | inr miss ↦
        let (ys, a, b) = modify_first-find xs x (rw miss at e) in
        (y ∷ ys, ground arith, ground arith)
  ]

  -- No item passes the test, so none is changed.
  pub modify_first-find-none : (xs : List A) → find w xs ≡ none → modify_first w f xs ≡ none
  unfolding find modify_first
  modify_first-find-none [] e = refl
  modify_first-find-none (y ∷ xs) e = ground (arith, modify_first-find-none xs)
