-- ===== src/Console/Login/RoundTrip.antt =====
-- From signing in to the next call.
use xoom_agent_control.Prelude.{
  ◌≡◌, refl, ◌⊎◌, inl, inr, ℕ, String, false, ◌==◌, none, some, find, present, get_or, leb, trim,
  Bool-cases,
}
use xoom_agent_control.Prisma.{Documented}
use xoom_agent_control.Rows.{Db, User}
use xoom_agent_control.Env.{Env, SessionUser}
use xoom_agent_control.Auth.{verify_session, sign_session}
use xoom_agent_control.Guards.{require_user}
use xoom_agent_control.Action.{Action, Reply, respond}
use xoom_agent_control.Requests.{LoginRequest}
use xoom_agent_control.Accounts.{session_of}
use xoom_agent_control.Accounts.SignIn.{SignedIn, login-SignedIn}
use xoom_agent_control.Console.Client.{
  Browser, api, caller_of, set_session, visit, includes, signed_out,
}
use xoom_agent_control.Console.Client.Session.{bearer-caller_of}
use xoom_agent_control.Console.Login.{on_submit}

-- What jsonwebtoken does for a user with the secret of the deployment: the token that was signed is
-- verified and gives the user back, is not empty, and has no white space around it.
pub record SignsSession (env : Env) (user : SessionUser) : Type 0 where
  pub gives_back :
      verify_session env
        (sign_session env user env.config.jwt_secret env.config.jwt_expires_in)
        env.config.jwt_secret
      ≡ some user
  pub is_given :
      (sign_session env user env.config.jwt_secret env.config.jwt_expires_in == "") ≡ false
  pub is_trimmed :
      trim (sign_session env user env.config.jwt_secret env.config.jwt_expires_in)
      ≡ sign_session env user env.config.jwt_secret env.config.jwt_expires_in

module _ (env : Env) where
  abbrev token_of : User → String
  token_of user = sign_session env (session_of user) env.config.jwt_secret env.config.jwt_expires_in

  -- The guard lets the holder of a session through.
  session-admitted :
      {A : Type 0} (handler : SessionUser → Action (Reply A)) (b : Browser) (user : User) (t : Db)
      → SignsSession env (session_of user)
      → b.token ≡ some (token_of user)
      → require_user env false (caller_of b) handler t ≡ handler (session_of user) t
  unfolding require_user
  session-admitted handler b user t signs e =
      let held : present b.token ≡ some (token_of user) = rw (e, present, signs.is_given) refl in
      rw
        (
          bearer-caller_of b (token_of user) held (signs.is_trimmed),
          present,
          signs.is_given,
          signs.gives_back,
        )
        refl

-- A sign-in that is refused does not sign anybody out.
kept_session :
    (status_text : ℕ → String) (code : ℕ) (b : Browser)
    → signed_out status_text code "/api/auth/login" b ≡ b
unfolding includes
kept_session status_text code b = elim (Bool-cases (leb 401 code)) [
  | inl e ↦ elim (Bool-cases (leb code 401)) [ inl k ↦ rw (e, k) refl | inr k ↦ rw (e, k) refl ]
  | inr e ↦ rw e refl
]

module _ {A : Type 0} (env : Env) (d : Documented env.client) (status_text : ℕ → String)
    (body : LoginRequest) (b : Browser) (s : Db)
    (signs : (user : User)
      → find (λ u. u.email == body.email) s.users ≡ some user
      → SignsSession env (session_of user))
    (handler : SessionUser → Action (Reply A)) where
  -- On a documented client, where the token of the user under the email is verified and gives the
  -- user back: signing in either shows an error, and leaves the browser and the database as they
  -- were, or it is for a user that is stored under the email, is active and has the password; the
  -- console then shows its first page to that user, and every guard that does not ask for writing
  -- runs its handler for that user.
  pub on_submit_lem :
      ((message : String) × (on_submit env status_text body (b, s)
          ≡ (record { error = some message; loading = false }, (b, s))))
      ⊎ ((user : User) × SignedIn env body s user
          × (b' : Browser) × (t : Db) × (on_submit env status_text body (b, s)
              ≡ (record { error = none; loading = false }, (b', t)))
          × (b'.location ≡ "/")
          × (b'.user ≡ some (session_of user))
          × ((u : Db)
              → require_user env false (caller_of b') handler u ≡ handler (session_of user) u))
  unfolding on_submit api respond set_session sign_session
  on_submit_lem = elim (login-SignedIn env body s d) [
    | inl (code, error, e) ↦
        inl (get_or error.message (status_text code), rw (e, kept_session status_text code b) refl)
    | inr (user, given, rows, e, row, found, told) ↦ inr (
      user,
      given,
      visit "/" (set_session (token_of env user) (session_of user) b),
      record s { users = rows },
      rw e refl,
      refl,
      refl,
      λ u.
          session-admitted env handler
            (visit "/" (set_session (token_of env user) (session_of user) b)) user u
            (signs user given.stored) refl,
    )
  ]
