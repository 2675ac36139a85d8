-- ===== src/Console/Ui/Age.antt =====
-- How far the age that is shown is from the true one.
use xoom_agent_control.Prelude.{ℕ, ◌+◌, ◌*◌, ◌≤◌, ltb, arith, Bool-cases, inl, inr}
use xoom_agent_control.Console.Ui.{TimeUnit, seconds, minutes, hours, days, age}

-- A unit in seconds.
abbrev pub size : TimeUnit → ℕ
size seconds = 1
size minutes = 60
size hours = 3600
size days = 86400

-- The age that is shown is at most half of its unit away from the true one.
pub age_lem :
    (s : ℕ)
    → ((age s).0 * size (age s).1 * 2 ≤ s * 2 + size (age s).1)
      × (s * 2 ≤ (age s).0 * size (age s).1 * 2 + size (age s).1)
unfolding age
age_lem s = elim (Bool-cases (ltb s 60)) [
  | inl a ↦ rw a (omega arith, omega arith)
  | inr a ↦ elim (Bool-cases (ltb s 3600)) [
    | inl b ↦ rw (a, b) (omega arith, omega arith)
    | inr b ↦ elim (Bool-cases (ltb s 86400)) [
      | inl c ↦ rw (a, b, c) (omega arith, omega arith)
      | inr c ↦ rw (a, b, c) (omega arith, omega arith)
    ]
  ]
]
