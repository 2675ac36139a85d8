-- ===== src/Accounts/SignIn.antt =====
-- Who is signed in.
use text.Mathlib.TextPositions.{eq_refl}
use xoom_agent_control.Prelude.{
  ◌≡◌, ◌⊎◌, inl, inr, true, ◌&&◌, ◌==◌, some, find, refl, Bool-cases, &&-true, Option-cases, Bool,
  List, [], ◌∷◌, arith, ◌∙◌,
}
use xoom_agent_control.Prisma.{Documented}
use xoom_agent_control.Rows.{Db, User}
use xoom_agent_control.Env.{Env}
use xoom_agent_control.Auth.{verify_password, sign_session}
use xoom_agent_control.Action.{ok, send, pure, ◌>>◌}
use xoom_agent_control.Tables.{user_table}
use xoom_agent_control.Query.{update, find_first}
use xoom_agent_control.Query.Laws.{update-find}
use xoom_agent_control.Guards.Admission.{Refused}
use xoom_agent_control.Requests.{LoginRequest}
use xoom_agent_control.Accounts.{LoginResponse, login, session_of, signed_in}

-- The user that a sign-in is for: stored under the email, active, with the password.
pub record SignedIn (env : Env) (body : LoginRequest) (s : Db) (user : User) : Type 0 where
  pub stored : find (λ u. u.email == body.email) s.users ≡ some user
  pub is_active : user.active ≡ true
  pub verified : env.bcrypt_compare body.password user.password_hash ≡ true

-- What the handler runs, or that it refuses.
accepted-SignedIn :
    (env : Env) (body : LoginRequest) (s : Db)
    → Documented env.client
    → Refused (login env body) s
      ⊎ ((user : User) × SignedIn env body s user
          × (login env body s
              ≡ (update env user_table (λ u. u.id == user.id) (signed_in env)
                    >> pure (
                        send 200 (record {
                          token =
                              sign_session env
                                (session_of user)
                                env.config.jwt_secret
                                env.config.jwt_expires_in;
                          user = session_of user;
                        })))
                  s))
unfolding login find_first
accepted-SignedIn env body s d =
    rw (d.find_first_lem User (λ u. u.email == body.email) s.users)
      (elim (Option-cases (find (λ u. u.email == body.email) s.users)) [
        | inl e ↦
            inl (401, record { error = "unauthorized"; message = some "Invalid credentials" }, rw e)
        | inr (user, e) ↦
            elim (Bool-cases
              (user.active && verify_password env body.password user.password_hash)) [
                | inl good ↦
                    let (active, verified) = &&-true _ _ good in
                    inr (
                      user,
                      record { stored = e; is_active = active; verified = verified },
                      rw (e, good),
                    )
                | inr bad ↦ inl (
                  401,
                  record { error = "unauthorized"; message = some "Invalid credentials" },
                  rw (e, bad),
                )
              ]
      ])

find_other :
    {A : Type 0} (p q : A → Bool) (xs : List A) (x : A)
    → find p xs ≡ some x
    → q x ≡ true
    → (y : A) × (find q xs ≡ some y)
unfolding find
find_other p q [] x e h = cc
find_other p q (y ∷ xs) x e h = elim (Bool-cases (q y)) [
  | inl hit ↦ (y, rw hit)
  | inr miss ↦ elim (Bool-cases (p y)) [
    | inl here ↦ let same : y ≡ x = ground arith in cc
    | inr past ↦ let (z, k) = find_other p q xs x (rw past at e) h in (z, rw miss k)
  ]
]

-- What a user is told of a session: a token whose claims name them, and who they are.
abbrev pub session_for : Env → User → LoginResponse
session_for env user = record {
  token =
      env.jwt_sign
        (record { sub = some user.id; email = some user.email; name = user.name; role = user.role })
        env.config.jwt_secret env.config.jwt_expires_in;
  user = record { id = user.id; email = user.email; name = user.name; role = user.role };
}

-- On a documented client, a sign-in either refuses and leaves the database as it was, or it is
-- for a user that is stored under the email, is active, and has the password; then it succeeds,
-- answers with a token for that user and who they are, writes the time of the sign-in into the
-- row that stands first under the id of the user, and changes no other table.
pub login-SignedIn :
    (env : Env) (body : LoginRequest) (s : Db)
    → Documented env.client
    → Refused (login env body) s
      ⊎ ((user : User) × SignedIn env body s user
          × (rows : List User) × (login env body s
              ≡ (ok (send 200 (session_for env user)), record s { users = rows }))
          × (row : User) × (find (λ u. u.id == user.id) s.users ≡ some row)
          × (find (λ u. u.id == user.id) rows ≡ some (record row { last_login_at = some env.now })))
unfolding sign_session
login-SignedIn env body s d = elim (accepted-SignedIn env body s d) [
  | inl refused ↦ inl refused
  | inr (user, given, e) ↦
      let (row, found) =
        find_other (λ u. u.email == body.email) (λ u. u.id == user.id) s.users user given.stored
          (eq_refl user.id) in
      let (rows, a, b, m) =
        update-find env d user_table (λ u. u.id == user.id) (signed_in env) s row (λ r. refl)
          found in
      inr (user, given, rows, e ∙ rw a refl, row, found, b)
]
