-- ===== src/Console/Login.antt =====
-- apps/web/src/app/login/page.tsx and the frame of every other page, apps/web/src/components/Shell.tsx.
pub mod RoundTrip
use text.Mathlib.Text.{starts_with}
use xoom_agent_control.Prelude.{
  ℕ, String, Bool, true, false, ◌==◌, Option, none, some, List, [], ◌∷◌, find, present, get_or,
  if◌then◌else◌,
}
use xoom_agent_control.Env.{Env, SessionUser}
use xoom_agent_control.Requests.{LoginRequest}
use xoom_agent_control.Accounts.{LoginResponse, login}
use xoom_agent_control.Console.Client.{
  Browser, World, Answer, got, failed, api, set_session, clear_session, visit,
}

-- What the page shows beside its fields.
pub record LoginForm : Type 0 where
  pub error : Option String
  pub loading : Bool

module _ (env : Env) (status_text : ℕ → String) where
  abbrev pub signed : Answer LoginResponse × World → LoginForm × World
  signed (got res, (b, s)) =
      (record { error = none; loading = false }, (visit "/" (set_session res.token res.user b), s))
  signed (failed code message, w) = (record { error = some message; loading = false }, w)

  -- `onSubmit`: what was shown before is reset
  unfoldable pub on_submit : LoginRequest → World → LoginForm × World
  unfolding api login set_session
  on_submit body w = signed (api status_text "/api/auth/login" (λ caller. login env body) w)

-- The effect of the frame: the stored user where there is a token; else the operator is sent away and
-- nothing is shown.
pub data Frame : Type 0 where
  away : Frame
  ready : Option SessionUser → Frame

unfoldable pub enter : Browser → Frame × Browser
unfolding present
enter b = elim (present b.token) [
  | none ↦ (away, visit "/login" b)
  | some token ↦ (ready b.user, b)
]

unfoldable pub logout : Browser → Browser
unfolding clear_session
logout b = visit "/login" (clear_session b)

pub record NavItem : Type 0 where
  pub href : String
  pub label : String

-- `NAV`, without its icons
abbrev pub nav : List NavItem
nav =
    record { href = "/"; label = "Overview" }
    ∷ record { href = "/tenants"; label = "Tenants" }
    ∷ record { href = "/hosts"; label = "Hosts" }
    ∷ record { href = "/deployments"; label = "Deployments" }
    ∷ record { href = "/templates"; label = "Agent Templates" }
    ∷ record { href = "/mcp"; label = "MCP Registry" }
    ∷ record { href = "/llm"; label = "LLM Gateway" }
    ∷ record { href = "/memory"; label = "Memory" }
    ∷ record { href = "/logs"; label = "Logs" }
    ∷ record { href = "/settings"; label = "Settings" }
    ∷ []

-- Whether the link of an entry stands for the page that is shown.
unfoldable pub is_active : String → NavItem → Bool
is_active pathname n = if n.href == "/" then pathname == "/" else starts_with pathname n.href

abbrev label_of : Option NavItem → String
label_of none = "XoomAgent"
label_of (some n) = n.label

-- The title of the page.
unfoldable pub title : String → String
unfolding is_active find
title pathname = label_of (find (is_active pathname) nav)
