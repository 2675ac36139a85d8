-- ===== src/Console/Client.antt =====
-- apps/web/src/lib/api.ts: the session that the browser keeps, and how the console calls the API. A
-- request reaches the handler with its typed body and the answer comes back typed, so JSON is not
-- modelled, and no request fails on its way; `statusText` is given. All this runs in the browser,
-- where `window` is defined.
pub mod Session
use Prim.Native.String
use xoom_agent_control.Prelude.{
  ℕ, String, Bool, not, ◌&&◌, ◌||◌, ◌==◌, Option, none, some, leb, if◌then◌else◌, present, get_or,
}
use text.Mathlib.Text.{starts_with}
use xoom_agent_control.Rows.{Db}
use xoom_agent_control.Env.{SessionUser}
use xoom_agent_control.Guards.{Caller}
use xoom_agent_control.Action.{Action, Reply, ErrorBody, send, refuse, respond}

-- The two keys of the local storage, the page that is shown, and the address of the operator.
pub record Browser : Type 0 where
  pub token : Option String
  pub user : Option SessionUser
  pub location : String
  pub ip : String

-- The browser of one operator, and the database of the control plane.
abbrev pub World : Type 0
World = Browser × Db

-- What a call gives, or the `ApiError` that it throws.
pub data Answer (A : Type 0) : Type 0 where
  got : A → Answer A
  failed : ℕ → String → Answer A

-- `setSession`
unfoldable pub set_session : String → SessionUser → Browser → Browser
set_session token user b = record b { token = some token; user = some user }

-- `clearSession`
unfoldable pub clear_session : Browser → Browser
clear_session b = record b { token = none; user = none }

abbrev pub visit : String → Browser → Browser
visit page b = record b { location = page }

-- `s.includes(part)`
unfoldable pub includes : String → String → Bool
includes String.[] part = part == ""
includes (String.◌∷◌ c s) part = starts_with (String.◌∷◌ c s) part || includes s part

-- `res.ok`
abbrev pub is_ok : ℕ → Bool
is_ok code = leb 200 code && leb code 299

abbrev pub authorization_of : Option String → Option String
authorization_of none = none
authorization_of (some token) = some (String.◌++◌ "Bearer " token)

abbrev pub caller_of : Browser → Caller
caller_of b = record { authorization = authorization_of (present b.token); ip = b.ip }

module _ (status_text : ℕ → String) where
  -- Signed out where the API does not know the session, except while signing in.
  abbrev pub signed_out : ℕ → String → Browser → Browser
  signed_out code path b =
      if leb 401 code && leb code 401 && not (includes path "/auth/login")
      then visit "/login" (clear_session b)
      else b

  -- A body of a handler's own always comes with a status of success, so it has no message.
  abbrev pub read_reply : {A : Type 0} → String → Reply A → World → Answer A × World
  read_reply path (send code body) (b, s) =
      if is_ok code
      then (got body, (b, s))
      else (failed code (status_text code), (signed_out code path b, s))
  read_reply path (refuse code body) (b, s) =
      (failed code (get_or body.message (status_text code)), (signed_out code path b, s))

  -- `api`, on the handler that the path and the method stand for
  unfoldable pub api :
      {A : Type 0} → String → (Caller → Action (Reply A)) → World → Answer A × World
  unfolding present respond includes clear_session
  api path handler (b, s) =
      let (reply, t) = handler (caller_of b) s in read_reply path (respond reply) (b, t)
