-- ===== src/Server/Members.antt =====
-- Rows told apart by a key, by membership.
use mathlib.Core.Bool.{Bool-set, true≢false}
use mathlib.Core.Logic.Or
use mathlib.Core.List.{Mem, mem-cons, not-mem-nil}
use xoom_agent_control.Prelude.{
  ◌≡◌, refl, sym, ◌∙◌, String, Bool, true, false, not, ◌==◌, some, find, select, length, arith,
  Bool-cases, inl, inr, List, [], ◌∷◌, map, All,
}
use xoom_agent_control.Prisma.Order.{All-Mem}
use xoom_agent_control.Server.Keys.{Distinct, All-unmap, All-weaken, eq_comm_false}

from_not : (b : Bool) → not b ≡ true → b ≡ false
from_not true e = cc
from_not false e = refl

module _ {A : Type 0} where
  pub All-every_member : (Q : A → Type 0) (xs : List A) → ((x : A) → Mem x xs → Q x) → All Q xs
  All-every_member Q [] q = tt
  All-every_member Q (x ∷ xs) q =
      (q x (mem-cons.1 (Or.inl refl)), All-every_member Q xs (λ y m. q y (mem-cons.1 (Or.inr m))))

  pub find-Mem : (test : A → Bool) (xs : List A) (e : A) → find test xs ≡ some e → Mem e xs
  unfolding find
  find-Mem test [] e h = cc
  find-Mem test (x ∷ xs) e h = elim (Bool-cases (test x)) [
    | inl hit ↦ let same : e ≡ x = ground arith in mem-cons.1 (Or.inl same)
    | inr miss ↦ mem-cons.1 (Or.inr (find-Mem test xs e (rw miss at h)))
  ]

  pub length-select-none :
      (test : A → Bool) (xs : List A)
      → ((x : A) → Mem x xs → test x ≡ false)
      → length (select test xs) ≡ 0
  unfolding select
  length-select-none test [] h = refl
  length-select-none test (x ∷ xs) h =
      rw (h x (mem-cons.1 (Or.inl refl)))
        (length-select-none test xs (λ y m. h y (mem-cons.1 (Or.inr m))))

  module _ (key : A → String) where
    absent :
        (x y : A) (xs : List A)
        → All (λ k. (key x == k) ≡ false) (map key xs)
        → Mem y xs
        → (key x == key y) ≡ false
    absent x y xs d m =
        let h =
          All-Mem (λ z. not (key x == key z)) xs y
            (All-weaken xs (λ z e. rw e refl) (All-unmap (λ k. (key x == k) ≡ false) key xs d)) m in
        from_not (key x == key y) h

    -- Two rows with the same key pass the same tests.
    pub same_key :
        (test : A → Bool) (c y : A) (xs : List A)
        → Distinct (map key xs)
        → Mem c xs
        → Mem y xs
        → (key y == key c) ≡ true
        → test c ≡ true
        → test y ≡ true
    same_key test c y [] d mc my e t = absurd (not-mem-nil mc)
    same_key test c y (x ∷ xs) d mc my e t =
        Or.elim (Bool-set _ _) (mem-cons.0 mc)
          (λ c_is.
            Or.elim (Bool-set _ _) (mem-cons.0 my) (λ y_is. rw (y_is ∙ sym c_is) t)
              (λ below. absurd (
                true≢false
                  (sym (rw c_is at e) ∙ eq_comm_false (key x) (key y) (absent x y xs d.0 below)))))
          (λ above.
            Or.elim (Bool-set _ _) (mem-cons.0 my)
              (λ y_is. absurd (true≢false (sym (rw y_is at e) ∙ absent x c xs d.0 above)))
              (λ below. same_key test c y xs d.1 above below e t))
