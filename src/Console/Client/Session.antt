-- ===== src/Console/Client/Session.antt =====
-- Whom the console acts for.
use Prim.Native.String
use Prim.Native.String.{slice, len}
use text.Mathlib.TextPositions.{len-append, slice-append_right, starts_with-append}
use xoom_agent_control.Prelude.{
  ◌≡◌, refl, ap, ◌∙◌, ◌⊎◌, inl, inr, ℕ, String, Bool, false, Option, none, some, present, trim,
  after_prefix, Bool-cases, Option-cases,
}
use xoom_agent_control.Rows.{Db}
use xoom_agent_control.Env.{Env, SessionUser}
use xoom_agent_control.Auth.{verify_session}
use xoom_agent_control.Guards.{bearer, require_user, admit, is_auditor}
use xoom_agent_control.Guards.Admission.{Admitted, can_write-is_auditor}
use xoom_agent_control.Action.{Action, Reply, respond}
use xoom_agent_control.Console.Client.{
  Browser, World, Answer, failed, api, caller_of, read_reply, includes, clear_session, visit,
}

after_prefix-append : (p s : String) → after_prefix p (String.◌++◌ p s) ≡ some s
unfolding after_prefix
after_prefix-append p s = rw (starts_with-append p s, len-append p s, slice-append_right p s) refl

bearer-after_prefix :
    (header token : String)
    → after_prefix "Bearer " header ≡ some token
    → bearer (some header) ≡ some (trim token)
unfolding bearer
bearer-after_prefix header token e = rw (bearer, e)

-- The guard finds the token of a header, if no white space stands around it.
pub bearer-header :
    (token : String) → trim token ≡ token → bearer (some (String.◌++◌ "Bearer " token)) ≡ some token
bearer-header token t =
    bearer-after_prefix (String.◌++◌ "Bearer " token) token (after_prefix-append "Bearer " token)
    ∙ ap some t

-- The same for what the console sends.
pub bearer-caller_of :
    (b : Browser) (token : String)
    → present b.token ≡ some token
    → trim token ≡ token
    → bearer (caller_of b).authorization ≡ some token
bearer-caller_of b token e t = rw e (bearer-header token t)

module _ {A : Type 0} (status_text : ℕ → String) (path : String) (env : Env) (write : Bool)
    (handler : SessionUser → Action (Reply A)) (b : Browser) (s : Db) where
  -- The three ends of a call of a guarded route.
  abbrev pub Ends : Answer A × World → Type 0
  Ends end =
      ((message : String) × (end ≡ (failed 401 message, (visit "/login" (clear_session b), s))))
      ⊎ ((message : String) × (end ≡ (failed 403 message, (b, s))))
      ⊎ ((user : SessionUser) × Admitted env write (caller_of b) user
          × (end ≡ (
              let (reply, t) = handler user s in
              read_reply status_text path (respond reply) (b, t))))

  abbrev answered : Action (Reply A) → Answer A × World
  answered action = let (reply, t) = action s in read_reply status_text path (respond reply) (b, t)

  admit-Ends :
      (token : String)
      → includes path "/auth/login" ≡ false
      → present (bearer (caller_of b).authorization) ≡ some token
      → (found : Option SessionUser) → verify_session env token env.config.jwt_secret ≡ found
      → Ends (answered (admit env write found handler))
  unfolding respond
  admit-Ends token other p none e = inl ("Invalid or expired token", rw other)
  admit-Ends token other p (some user) e = elim (Bool-cases write) [
    | inr reads ↦ inr (
        inr (
          user,
          record { token = token; presented = p; verified = e; may_write = λ w. cc },
          rw reads,
        ))
    | inl writes ↦ elim (Bool-cases (is_auditor user.role)) [
      | inl auditor ↦ inr (inl ("Read-only role cannot perform writes", rw (writes, auditor)))
      | inr able ↦ inr (
          inr (
            user,
            record {
              token = token;
              presented = p;
              verified = e;
              may_write = λ w. can_write-is_auditor user.role able;
            },
            rw (writes, able),
          ))
    ]
  ]

  -- A call of the console to a guarded route, other than for signing in, ends in one of three
  -- ways: the session is not valid, and the operator is signed out and sent to the page for
  -- signing in; the user may not write, and nothing changes; or the handler runs for the user of
  -- the session. Only the handler changes the database.
  pub api-require_user :
      includes path "/auth/login" ≡ false
      → Ends (api status_text path (λ caller. require_user env write caller handler) (b, s))
  unfolding api require_user respond
  api-require_user other = elim (Option-cases (present (bearer (caller_of b).authorization))) [
    | inl e ↦ inl ("Missing bearer token", rw (e, other))
    | inr (token, e) ↦ rw e (admit-Ends token other e _ refl)
  ]
