-- ===== src/Auth.antt =====
-- packages/auth/src/index.ts: sessions, hashes of passwords and agent keys, and roles. bcrypt and
-- jsonwebtoken are in the environment.
use xoom_agent_control.Prelude.{String, Bool, true, false, Option, none, some, leb, get_or}
use xoom_agent_control.Enums.{UserRole, read_only_auditor, msp_admin, role_rank}
use xoom_agent_control.Env.{Env, SessionUser, Claims}

abbrev claims_of : SessionUser → Claims
claims_of user = record {
  sub = some user.id;
  email = some user.email;
  name = user.name;
  role = user.role;
}

-- `String(decoded.sub)` of a claim that is missing is "undefined".
abbrev user_of : Claims → SessionUser
user_of c = record {
  id = get_or c.sub "undefined";
  email = get_or c.email "undefined";
  name = c.name;
  role = c.role;
}

abbrev decoded : Option Claims → Option SessionUser
decoded none = none
decoded (some c) = some (user_of c)

module _ (env : Env) where
  unfoldable pub hash_password : String → String
  hash_password password = env.bcrypt_hash 12 password

  unfoldable pub verify_password : String → String → Bool
  verify_password password hash = env.bcrypt_compare password hash

  unfoldable pub sign_session : SessionUser → String → String → String
  sign_session user secret expires_in = env.jwt_sign (claims_of user) secret expires_in

  -- `none` where `jwt.verify` throws
  unfoldable pub verify_session : String → String → Option SessionUser
  verify_session token secret = decoded (env.jwt_verify token secret)

  unfoldable pub hash_agent_key : String → String
  hash_agent_key key = env.bcrypt_hash 10 key

  unfoldable pub verify_agent_key : String → String → Bool
  verify_agent_key key hash = env.bcrypt_compare key hash

-- A user has at least the rank of the required role.
unfoldable pub has_role : UserRole → UserRole → Bool
unfolding role_rank
has_role role required = leb (role_rank required) (role_rank role)

unfoldable pub can_write : UserRole → Bool
can_write read_only_auditor = false
can_write _ = true

unfoldable pub can_manage_users : UserRole → Bool
unfolding has_role
can_manage_users role = has_role role msp_admin

unfoldable pub can_perform_destructive : UserRole → Bool
unfolding has_role
can_perform_destructive role = has_role role msp_admin
