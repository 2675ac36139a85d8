-- ===== src/Console/Fetch.antt =====
-- `useFetch` of apps/web/src/lib/ui.tsx: the data of a page, and what the answers of its requests, in
-- any order, make of it.
pub mod Order
use xoom_agent_control.Prelude.{
  ℕ, suc, String, Bool, true, false, ◌&&◌, Option, none, some, List, [], ◌∷◌, leb, if◌then◌else◌,
}

-- The state of the hook: `live` is the number of the request that is not cancelled, and `runs` counts
-- the runs of the effect.
pub record Fetched (A : Type 0) : Type 0 where
  pub data_of : Option A
  pub error : Option String
  pub loading : Bool
  pub live : Option ℕ
  pub runs : ℕ

abbrev pub mounted : {A : Type 0} → Fetched A
mounted = record { data_of = none; error = none; loading = true; live = none; runs = 0 }

-- The effect runs when the page is mounted, with another path, and after `refetch`; the flag says
-- whether it has a path. `resolved`, `rejected` and `settled` are the three callbacks of a request.
pub data Event (A : Type 0) : Type 0 where
  ran : Bool → Event A
  resolved : ℕ → A → Event A
  rejected : ℕ → String → Event A
  settled : ℕ → Event A
  unmounted : Event A

abbrev pub same : ℕ → ℕ → Bool
same a b = leb a b && leb b a

-- `!cancelled`
unfoldable pub is_live : Option ℕ → ℕ → Bool
is_live none k = false
is_live (some j) k = same j k

unfoldable pub step : {A : Type 0} → Event A → Fetched A → Fetched A
unfolding is_live
step (ran true) f = record f { loading = true; live = some f.runs; runs = suc f.runs }
step (ran false) f = record f { live = none; runs = suc f.runs }
step (resolved k d) f = if is_live f.live k then record f { data_of = some d } else f
step (rejected k e) f = if is_live f.live k then record f { error = some e } else f
step (settled k) f = if is_live f.live k then record f { loading = false } else f
step unmounted f = record f { live = none }

unfoldable pub run : {A : Type 0} → List (Event A) → Fetched A → Fetched A
unfolding step
run [] f = f
run (e ∷ es) f = run es (step e f)
