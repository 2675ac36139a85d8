-- ===== src/Server/Keys.antt =====
-- Columns without repetition, and how they fare when a row is added or changed.
use mathlib.Core.Bool.{true≢false}
use xoom_agent_control.Prelude.{
  ◌≡◌, refl, sym, ap, subst, ◌∙◌, String, Bool, true, false, ◌==◌, none, some, List, [], ◌∷◌, ◌++◌,
  map, find, modify_first, All, eq_iff, arith, Bool-cases, Option-cases, inl, inr,
}

-- No text stands twice.
abbrev pub Distinct : List String → Type 0
Distinct [] = Unit
Distinct (x ∷ xs) = All (λ y. (x == y) ≡ false) xs × Distinct xs

pub eq_comm_false : (a b : String) → (a == b) ≡ false → (b == a) ≡ false
eq_comm_false a b e = elim (Bool-cases (b == a)) [
  | inl h ↦ absurd (true≢false (sym ((eq_iff a b).1 (sym ((eq_iff b a).0 h))) ∙ e))
  | inr h ↦ h
]

module _ {A : Type 0} where
  pub All-every : {Q : A → Type 0} → ((x : A) → Q x) → (xs : List A) → All Q xs
  All-every q [] = tt
  All-every q (x ∷ xs) = (q x, All-every q xs)

  pub All-append : (Q : A → Type 0) (xs : List A) (r : A) → All Q xs → Q r → All Q (xs ++ r ∷ [])
  All-append Q [] r h q = (q, tt)
  All-append Q (x ∷ xs) r h q = (h.0, All-append Q xs r h.1 q)

  pub All-find-none :
      (test : A → Bool) (xs : List A) → find test xs ≡ none → All (λ x. test x ≡ false) xs
  unfolding find
  All-find-none test [] e = tt
  All-find-none test (x ∷ xs) e = elim (Bool-cases (test x)) [
    | inl hit ↦ cc (rw hit at e)
    | inr miss ↦ (miss, All-find-none test xs (rw miss at e))
  ]

  pub All-weaken : {Q R : A → Type 0} (xs : List A) → ((x : A) → Q x → R x) → All Q xs → All R xs
  All-weaken [] k h = tt
  All-weaken (x ∷ xs) k h = (k x h.0, All-weaken xs k h.1)

  -- What a change of the first row that fits makes of the rows.
  module _ (w : A → Bool) (f : A → A) where
    pub All-modify_first :
        (Q : A → Type 0) (xs ys : List A) (r : A)
        → All (λ x. w x ≡ true → Q (f x)) xs
        → modify_first w f xs ≡ some (r, ys)
        → All Q xs
        → All Q ys
    unfolding modify_first
    All-modify_first Q [] ys r q e h = cc
    All-modify_first Q (x ∷ xs) ys r q e h = elim (Bool-cases (w x)) [
      | inl hit ↦ let list : ys ≡ f x ∷ xs = ground arith in rw list (q.0 hit, h.1)
      | inr miss ↦ elim (Option-cases (modify_first w f xs)) [
        | inl n ↦ cc (rw (miss, n) at e)
        | inr ((z, zs), m) ↦
            let list : ys ≡ x ∷ zs = ground arith in
            rw list (h.0, All-modify_first Q xs zs z q.1 m h.1)
      ]
    ]

    pub map-modify_first :
        {K : Type 0} (key : A → K) (xs ys : List A) (r : A)
        → All (λ x. w x ≡ true → key (f x) ≡ key x) xs
        → modify_first w f xs ≡ some (r, ys)
        → map key ys ≡ map key xs
    unfolding modify_first
    map-modify_first key [] ys r k e = cc
    map-modify_first key (x ∷ xs) ys r k e = elim (Bool-cases (w x)) [
      | inl hit ↦
          let list : ys ≡ f x ∷ xs = ground arith in rw list (ap (λ a. a ∷ map key xs) (k.0 hit))
      | inr miss ↦ elim (Option-cases (modify_first w f xs)) [
        | inl n ↦ cc (rw (miss, n) at e)
        | inr ((z, zs), m) ↦
            let list : ys ≡ x ∷ zs = ground arith in
            rw list (ap (λ l. key x ∷ l) (map-modify_first key xs zs z k.1 m))
      ]
    ]

  module _ (Q : String → Type 0) (key : A → String) where
    All-map : (xs : List A) → All (λ x. Q (key x)) xs → All Q (map key xs)
    All-map [] h = tt
    All-map (x ∷ xs) h = (h.0, All-map xs h.1)

    pub All-unmap : (xs : List A) → All Q (map key xs) → All (λ x. Q (key x)) xs
    All-unmap [] h = tt
    All-unmap (x ∷ xs) h = (h.0, All-unmap xs h.1)

  pub Distinct-append :
      (key : A → String) (r : A) (xs : List A)
      → All (λ x. (key r == key x) ≡ false) xs
      → Distinct (map key xs)
      → Distinct (map key (xs ++ r ∷ []))
  Distinct-append key r [] h d = (tt, tt)
  Distinct-append key r (x ∷ xs) h d = (
    All-map (λ k. (key x == k) ≡ false) key (xs ++ r ∷ [])
        (All-append (λ y. (key x == key y) ≡ false) xs r
          (All-unmap (λ k. (key x == k) ≡ false) key xs d.0) (eq_comm_false (key r) (key x) h.0)),
    Distinct-append key r xs h.1 d.1,
  )

  All-find :
      (Q : A → Type 0) (test : A → Bool) (xs : List A) (e : A)
      → find test xs ≡ some e
      → All Q xs
      → Q e
  unfolding find
  All-find Q test [] e h k = cc
  All-find Q test (x ∷ xs) e h k = elim (Bool-cases (test x)) [
    | inl hit ↦ let same : e ≡ x = ground arith in rw same k.0
    | inr miss ↦ All-find Q test xs e (rw miss at h) k.1
  ]

  pub find-passes : (test : A → Bool) (xs : List A) (e : A) → find test xs ≡ some e → test e ≡ true
  unfolding find
  find-passes test [] e h = cc
  find-passes test (x ∷ xs) e h = elim (Bool-cases (test x)) [
    | inl hit ↦ let same : e ≡ x = ground arith in rw same hit
    | inr miss ↦ find-passes test xs e (rw miss at h)
  ]

  alone :
      (key : A → String) (x : A) (xs : List A)
      → All (λ y. (key x == key y) ≡ false) xs
      → All (λ y. (key y == key x) ≡ true → y ≡ x) (x ∷ xs)
  alone key x xs d = (
    λ k. refl,
    All-weaken xs (λ y n k. absurd (true≢false (sym k ∙ eq_comm_false (key x) (key y) n))) d,
  )

  -- The row that a test finds first is the only one with its key.
  pub find-Distinct :
      (key : A → String) (test : A → Bool) (xs : List A) (e : A)
      → find test xs ≡ some e
      → Distinct (map key xs)
      → All (λ x. (key x == key e) ≡ true → x ≡ e) xs
  unfolding find
  find-Distinct key test [] e h d = tt
  find-Distinct key test (x ∷ xs) e h d =
      let others = All-unmap (λ k. (key x == k) ≡ false) key xs d.0 in
      elim (Bool-cases (test x)) [
        | inl hit ↦
            let same : x ≡ e = ground arith in
            subst (λ z. All (λ y. (key y == key z) ≡ true → y ≡ z) (x ∷ xs)) same
              (alone key x xs others)
        | inr miss ↦
            let below = rw miss at h in
            let n : (key x == key e) ≡ false =
              All-find (λ y. (key x == key y) ≡ false) test xs e below others in
            (λ k. absurd (true≢false (sym k ∙ n)), find-Distinct key test xs e below d.1)
      ]
