-- ===== src/Console/Fetch/Order.antt =====
-- Which answers a page shows.
use xoom_agent_control.Prelude.{
  ◌≡◌, refl, ap, ◌∙◌, ℕ, suc, String, Bool, true, false, not, some, List, [], ◌∷◌, ◌++◌, all, arith,
  Bool-cases, not-true, &&-true, inl, inr,
}
use xoom_agent_control.Console.Fetch.{
  Fetched, Event, ran, resolved, rejected, settled, unmounted, same, is_live, step, run,
}

step-error :
    {A : Type 0} (e : Event A) (f : Fetched A) (m : String)
    → f.error ≡ some m
    → (m' : String) × ((step e f).error ≡ some m')
unfolding step
step-error (ran true) f m h = (m, h)
step-error (ran false) f m h = (m, h)
step-error (resolved k d) f m h = elim (Bool-cases (is_live f.live k)) [
  | inl e ↦ (m, rw e h)
  | inr e ↦ (m, rw e h)
]
step-error (rejected k x) f m h = elim (Bool-cases (is_live f.live k)) [
  | inl e ↦ (x, rw e refl)
  | inr e ↦ (m, rw e h)
]
step-error (settled k) f m h = elim (Bool-cases (is_live f.live k)) [
  | inl e ↦ (m, rw e h)
  | inr e ↦ (m, rw e h)
]
step-error unmounted f m h = (m, h)

-- A page that shows an error shows one ever after, whatever its later requests give.
pub run-error :
    {A : Type 0} (events : List (Event A)) (f : Fetched A) (m : String)
    → f.error ≡ some m
    → (m' : String) × ((run events f).error ≡ some m')
unfolding run
run-error [] f m h = (m, h)
run-error (e ∷ es) f m h = let (m', k) = step-error e f m h in run-error es (step e f) m' k

-- A callback of a request other than this one.
unfoldable pub is_late : {A : Type 0} → ℕ → Event A → Bool
is_late k (resolved j d) = not (same k j)
is_late k (rejected j x) = not (same k j)
is_late k (settled j) = not (same k j)
is_late k _ = false

run-append :
    {A : Type 0} (es ds : List (Event A)) (f : Fetched A) → run (es ++ ds) f ≡ run ds (run es f)
unfolding run
run-append [] ds f = refl
run-append (e ∷ es) ds f = run-append es ds (step e f)

not_live :
    {A : Type 0} (k j : ℕ) (f : Fetched A)
    → not (same k j) ≡ true
    → f.live ≡ some k
    → is_live f.live j ≡ false
unfolding is_live
not_live k j f h l = rw (l, not-true (same k j) h) refl

step-is_late :
    {A : Type 0} (k : ℕ) (e : Event A) (f : Fetched A)
    → is_late k e ≡ true
    → f.live ≡ some k
    → step e f ≡ f
unfolding step is_late
step-is_late k (resolved j d) f h l = rw (not_live k j f h l) refl
step-is_late k (rejected j x) f h l = rw (not_live k j f h l) refl
step-is_late k (settled j) f h l = rw (not_live k j f h l) refl
step-is_late k (ran b) f h l = cc
step-is_late k unmounted f h l = cc

run-is_late :
    {A : Type 0} (k : ℕ) (es : List (Event A)) (f : Fetched A)
    → all (is_late k) es ≡ true
    → f.live ≡ some k
    → run es f ≡ f
unfolding run all
run-is_late k [] f h l = refl
run-is_late k (e ∷ es) f h l =
    let (first, others) = &&-true _ _ h in
    let still = step-is_late k e f first l in ap (run es) still ∙ run-is_late k es f others l

same_refl : (k : ℕ) → same k k ≡ true
same_refl k = ground arith

module _ {A : Type 0} (f : Fetched A) (d : A) (before between after : List (Event A))
    (b : all (is_late f.runs) before ≡ true) (m : all (is_late f.runs) between ≡ true)
    (a : all (is_late f.runs) after ≡ true) where
  -- After a request has started and before the next one starts, its own answer is what the page shows,
  -- and it no longer loads, whatever callbacks of other requests come before, between and after; an
  -- error from before stays.
  pub run-resolved :
      run (ran true ∷ (before ++ resolved f.runs d ∷ (between ++ settled f.runs ∷ after))) f
      ≡ record f { data_of = some d; loading = false; live = some f.runs; runs = suc f.runs }
  unfolding run step is_live
  run-resolved =
      let f1 = record f { loading = true; live = some f.runs; runs = suc f.runs } in
      let f2 = record f1 { data_of = some d } in
      let f3 = record f2 { loading = false } in
      let late1 = run-is_late f.runs before f1 b refl in
      let late2 = run-is_late f.runs between f2 m refl in
      let late3 = run-is_late f.runs after f3 a refl in
      let shown : step (resolved f.runs d) f1 ≡ f2 = rw (same_refl f.runs) refl in
      let ended : step (settled f.runs) f2 ≡ f3 = rw (same_refl f.runs) refl in
      run-append before (resolved f.runs d ∷ (between ++ settled f.runs ∷ after)) f1
      ∙ ap (run (resolved f.runs d ∷ (between ++ settled f.runs ∷ after))) late1
      ∙ ap (run (between ++ settled f.runs ∷ after)) shown
      ∙ run-append between (settled f.runs ∷ after) f2
      ∙ ap (run (settled f.runs ∷ after)) late2
      ∙ ap (run after) ended
      ∙ late3
