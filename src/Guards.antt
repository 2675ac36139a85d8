-- ===== src/Guards.antt =====
-- apps/api/src/plugins/context.ts: the guards that run before a handler.
pub mod Admission
use xoom_agent_control.Prelude.{
  String, Bool, true, false, ◌&&◌, ◌==◌, Option, none, some, trim, after_prefix, present,
  if◌then◌else◌,
}
use xoom_agent_control.Enums.{UserRole, read_only_auditor}
use xoom_agent_control.Rows.{Host}
use xoom_agent_control.Env.{Env, SessionUser}
use xoom_agent_control.Auth.{verify_session, verify_agent_key}
use xoom_agent_control.Action.{Action, Reply, reject_with, ◌>>=◌}
use xoom_agent_control.Tables.{host_table}
use xoom_agent_control.Query.{find_first}

-- `req.headers.authorization` and `req.ip`
pub record Caller : Type 0 where
  pub authorization : Option String
  pub ip : String

abbrev pub is_auditor : UserRole → Bool
is_auditor read_only_auditor = true
is_auditor _ = false

-- The token of `Authorization: Bearer <token>`.
unfoldable pub bearer : Option String → Option String
unfolding after_prefix trim
bearer none = none
bearer (some h) = elim (after_prefix "Bearer " h) [ none ↦ none | some token ↦ some (trim token) ]

module _ (env : Env) {A : Type 0} where
  abbrev pub admit : Bool → Option SessionUser → (SessionUser → Action (Reply A)) → Action (Reply A)
  admit write none handler = reject_with 401 "unauthorized" "Invalid or expired token"
  admit write (some user) handler =
      if write && is_auditor user.role
      then reject_with 403 "forbidden" "Read-only role cannot perform writes"
      else handler user

  abbrev pub admit_token :
      Bool → Option String → (SessionUser → Action (Reply A)) → Action (Reply A)
  admit_token write none handler = reject_with 401 "unauthorized" "Missing bearer token"
  admit_token write (some token) handler =
      admit write (verify_session env token env.config.jwt_secret) handler

  -- `requireUser({ write })`, with the handler that it guards.
  unfoldable pub require_user : Bool → Caller → (SessionUser → Action (Reply A)) → Action (Reply A)
  unfolding bearer present verify_session
  require_user write caller handler =
      admit_token write (present (bearer caller.authorization)) handler

  abbrev pub admit_key :
      String → String → Option String → (String → Action (Reply A)) → Action (Reply A)
  admit_key token host_id none handler = reject_with 401 "unauthorized" "Unknown or unapproved host"
  admit_key token host_id (some hash) handler =
      if verify_agent_key env token hash
      then handler host_id
      else reject_with 401 "unauthorized" "Invalid host credential"

  abbrev pub admit_host : String → Option Host → (String → Action (Reply A)) → Action (Reply A)
  admit_host token none handler = reject_with 401 "unauthorized" "Unknown or unapproved host"
  admit_host token (some host) handler =
      if host.approved
      then admit_key token host.id (present host.agent_key_hash) handler
      else reject_with 401 "unauthorized" "Unknown or unapproved host"

  abbrev pub admit_credential :
      Option String → String → (String → Action (Reply A)) → Action (Reply A)
  admit_credential none host_id handler = reject_with 401 "unauthorized" "Missing host credential"
  admit_credential (some token) host_id handler =
      if host_id == ""
      then reject_with 401 "unauthorized" "Missing host credential"
      else find_first env host_table (λ h. h.id == host_id) >>= λ host.
          admit_host token host handler

  -- `requireHost()`, with the handler that it guards; the handler is given `req.hostId`.
  unfoldable pub require_host : Caller → String → (String → Action (Reply A)) → Action (Reply A)
  unfolding bearer present verify_agent_key find_first
  require_host caller host_id handler =
      admit_credential (present (bearer caller.authorization)) host_id handler
