-- ===== src/Console/Slug/Accepted.antt =====
-- Which suggestions the API accepts.
use Prim.Native.Char.{Char, code}
use xoom_agent_control.Prelude.{
  ◌≡◌, refl, ℕ, suc, String, Bool, true, false, not, ◌&&◌, ◌||◌, leb, if◌then◌else◌, arith,
  Bool-cases, &&-true, inl, inr,
}
use xoom_agent_control.Console.Slug.{
  is_alnum, is_dash, dash_runs, drop_dash, drop_last_dash, suggest, ends_as_slug, is_slug,
}

-- How many characters a text has.
unfoldable pub count : String → ℕ
count String.[] = 0
count (String.◌∷◌ c s) = suc (count s)

-- Only characters of a slug, and no dash after a dash; the flag says whether one comes before.
clean : Bool → String → Bool
clean dash String.[] = true
clean dash (String.◌∷◌ c s) =
    (is_alnum (code c) || is_dash (code c) && not dash) && clean (is_dash (code c)) s

alnum-dash : (c : ℕ) → is_alnum c ≡ true → is_dash c ≡ false
unfolding is_alnum is_dash
alnum-dash c h = ground arith

allowed : (a b c : Bool) → (a || b && not c) ≡ true → ((a || b) && true) ≡ true
allowed true b c h = refl
allowed false true c h = refl
allowed false false c h = cc

first_alnum : (a b : Bool) → (a || b && false) ≡ true → a ≡ true
first_alnum true b h = refl
first_alnum false true h = cc
first_alnum false false h = cc

dashed :
    (rest : String) (run : Bool)
    → clean true rest ≡ true
    → clean run (if run then rest else String.◌∷◌ "-" rest) ≡ true
unfolding clean is_alnum is_dash
dashed rest true h = h
dashed rest false h = h

dash_runs-clean : (run : Bool) (s : String) → clean run (dash_runs run s) ≡ true
unfolding dash_runs clean
dash_runs-clean run String.[] = refl
dash_runs-clean run (String.◌∷◌ c s) = elim (Bool-cases (is_alnum (code c))) [
  | inl hit ↦ rw (hit, hit, alnum-dash (code c) hit) (dash_runs-clean false s)
  | inr miss ↦ rw miss (dashed _ run (dash_runs-clean true s))
]

drop_dash-clean : (s : String) → clean false s ≡ true → clean true (drop_dash s) ≡ true
unfolding clean drop_dash
drop_dash-clean String.[] h = refl
drop_dash-clean (String.◌∷◌ c s) h = elim (Bool-cases (is_dash (code c))) [
  | inl hit ↦ ground arith
  | inr miss ↦ ground arith
]

-- What stays after the last dash is dropped ends as a slug.
ends_as_slug-drop_last_dash :
    (dash : Bool) (c d : Char) (s : String)
    → clean dash (String.◌∷◌ c (String.◌∷◌ d s)) ≡ true
    → ends_as_slug (drop_last_dash (String.◌∷◌ c (String.◌∷◌ d s))) ≡ true
unfolding clean drop_last_dash ends_as_slug
ends_as_slug-drop_last_dash dash c d String.[] h = elim (Bool-cases (is_dash (code d))) [
  | inl hit ↦ rw hit (let k = rw hit at h in ground arith)
  | inr miss ↦ rw miss (let k = rw miss at h in ground arith)
]
ends_as_slug-drop_last_dash dash c d (String.◌∷◌ e s) h =
    let (first, others) = &&-true _ _ h in
    rw (ends_as_slug-drop_last_dash (is_dash (code c)) d e s others) (allowed _ _ _ first)

kept :
    (s : String)
    → clean true s ≡ true
    → is_slug (drop_last_dash s) ≡ leb 2 (count (drop_last_dash s))
unfolding clean drop_last_dash is_slug ends_as_slug count
kept String.[] h = refl
kept (String.◌∷◌ c String.[]) h = ground arith
kept (String.◌∷◌ c (String.◌∷◌ d String.[])) h =
    let (first, others) = &&-true _ _ h in
    let alnum : is_alnum (code c) ≡ true = first_alnum _ (is_dash (code c)) first in
    rw alnum (elim (Bool-cases (is_dash (code d))) [
      | inl hit ↦ rw hit refl
      | inr miss ↦ rw miss (let k = rw miss at others in ground arith)
    ])
kept (String.◌∷◌ c (String.◌∷◌ d (String.◌∷◌ e s))) h =
    let (first, others) = &&-true _ _ h in
    let alnum : is_alnum (code c) ≡ true = first_alnum _ (is_dash (code c)) first in
    rw (alnum, ends_as_slug-drop_last_dash (is_dash (code c)) d e s others) (ground arith)

-- A suggestion passes the check of the API where it has at least two characters, and only there,
-- whatever lower case is.
pub is_slug-suggest :
    (to_lower_case : String → String) (name : String)
    → is_slug (suggest to_lower_case name) ≡ leb 2 (count (suggest to_lower_case name))
unfolding suggest
is_slug-suggest to_lower_case name =
    let text = to_lower_case name in
    kept (drop_dash (dash_runs false text))
      (drop_dash-clean (dash_runs false text) (dash_runs-clean false text))
