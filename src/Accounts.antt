-- ===== src/Accounts.antt =====
-- apps/api/src/modules/auth/routes.ts: sign-in and the users.
pub mod SignIn
use xoom_agent_control.Prelude.{
  ℕ, String, Bool, true, false, not, ◌&&◌, ◌==◌, Option, none, some, List, [], ◌∷◌, map,
  if◌then◌else◌,
}
use xoom_agent_control.Json.{Json, str, obj, object}
use xoom_agent_control.Enums.{
  UserRole, platform_owner, msp_admin, support_engineer, read_only_auditor, tenant_admin,
}
use xoom_agent_control.Rows.{User}
use xoom_agent_control.Env.{Env, SessionUser}
use xoom_agent_control.Auth.{verify_password, sign_session, hash_password, can_manage_users}
use xoom_agent_control.Guards.{Caller, require_user}
use xoom_agent_control.Action.{Action, Reply, send, pure, reject, reject_with, ◌>>=◌, ◌>>◌}
use xoom_agent_control.Tables.{user_table}
use xoom_agent_control.Query.{find_first, find_many, create, update}
use xoom_agent_control.Audit.{user_created, record_audit}
use xoom_agent_control.Requests.{LoginRequest, CreateUserRequest}
use xoom_agent_control.Tenants.Routes.{context_of}

pub record LoginResponse : Type 0 where
  pub token : String
  pub user : SessionUser

-- What the API shows of a user.
pub record UserView : Type 0 where
  pub id : String
  pub email : String
  pub name : Option String
  pub role : UserRole
  pub active : Bool
  pub last_login_at : Option ℕ

unfoldable pub user_view : User → UserView
user_view u = record {
  id = u.id;
  email = u.email;
  name = u.name;
  role = u.role;
  active = u.active;
  last_login_at = u.last_login_at;
}

abbrev pub session_of : User → SessionUser
session_of u = record { id = u.id; email = u.email; name = u.name; role = u.role }

abbrev role_text : UserRole → String
role_text platform_owner = "platform_owner"
role_text msp_admin = "msp_admin"
role_text support_engineer = "support_engineer"
role_text read_only_auditor = "read_only_auditor"
role_text tenant_admin = "tenant_admin"

module _ (env : Env) where
  abbrev pub signed_in : User → User
  signed_in u = record u { last_login_at = some env.now }

  abbrev pub sign_in : LoginRequest → Option User → Action (Reply LoginResponse)
  sign_in body none = reject_with 401 "unauthorized" "Invalid credentials"
  sign_in body (some user) =
      if user.active && verify_password env body.password user.password_hash
      then (update env user_table (λ u. u.id == user.id) signed_in
          >> pure (
              send 200 (record {
                token =
                    sign_session env (session_of user) env.config.jwt_secret
                      env.config.jwt_expires_in;
                user = session_of user;
              })))
      else reject_with 401 "unauthorized" "Invalid credentials"

  -- POST /login
  unfoldable pub login : LoginRequest → Action (Reply LoginResponse)
  unfolding find_first verify_password update sign_session
  login body = find_first env user_table (λ u. u.email == body.email) >>= λ user. sign_in body user

  -- GET /me
  unfoldable pub me : Caller → Action (Reply SessionUser)
  unfolding require_user
  me caller = require_user env false caller λ user. pure (send 200 user)

  -- GET /users, in the order of their creation
  unfoldable pub list_users : Caller → Action (Reply (List UserView))
  unfolding require_user can_manage_users find_many user_view
  list_users caller = require_user env false caller λ user.
      if not (can_manage_users user.role)
      then reject 403 "forbidden"
      else do users ← find_many env user_table (λ u. true); pure (send 200 (map user_view users))

  abbrev pub add_user :
      SessionUser → Caller → CreateUserRequest → Option User → Action (Reply UserView)
  add_user by caller body (some existing) = reject_with 409 "conflict" "Email already exists"
  add_user by caller body none = do
    user ← create env user_table (λ id. record {
      id = id;
      email = body.email;
      name = body.name;
      password_hash = hash_password env body.password;
      role = body.role;
      active = true;
      last_login_at = none;
    })
    record_audit env (context_of by caller) user_created "user" user.id
        (obj (object (("email", str body.email) ∷ ("role", str (role_text body.role)) ∷ [])))
    pure (send 201 (user_view user))

  abbrev pub create_user_as : Caller → CreateUserRequest → SessionUser → Action (Reply UserView)
  create_user_as caller body user =
      if not (can_manage_users user.role)
      then reject 403 "forbidden"
      else (find_first env user_table (λ u. u.email == body.email) >>= add_user user caller body)

  -- POST /users
  unfoldable pub create_user : Caller → CreateUserRequest → Action (Reply UserView)
  unfolding require_user can_manage_users find_first create hash_password record_audit user_view
  create_user caller body = require_user env true caller (create_user_as caller body)
