-- ===== src/Hosts/Admin.antt =====
-- apps/api/src/modules/hosts/admin.routes.ts: hosts as the operators see and manage them.
use mathlib.Core.List.{reverse}
use xoom_agent_control.Prelude.{
  ℕ, ◌+◌, ◌*◌, String, Bool, true, false, not, ◌==◌, Option, none, some, List, [], ◌∷◌, ltb, map,
  if◌then◌else◌,
}
use xoom_agent_control.Json.{bool, str, obj, object}
use xoom_agent_control.Enums.{HostStatus, online, offline, is_withdrawn}
use xoom_agent_control.Rows.{Host}
use xoom_agent_control.Env.{Env, SessionUser}
use xoom_agent_control.Auth.{can_perform_destructive}
use xoom_agent_control.Guards.{Caller, require_user}
use xoom_agent_control.Action.{Action, Reply, send, pure, reject, ◌>>=◌, ◌>>◌}
use xoom_agent_control.Tables.{host_table}
use xoom_agent_control.Query.{find_many, update}
use xoom_agent_control.Audit.{host_approved, host_maintenance, record_audit}
use xoom_agent_control.Requests.{MaintenanceStatus}
use xoom_agent_control.Tenants.Routes.{context_of}

abbrev pub requested : MaintenanceStatus → HostStatus
requested MaintenanceStatus.maintenance = HostStatus.maintenance
requested MaintenanceStatus.draining = HostStatus.draining
requested MaintenanceStatus.online = online

abbrev pub status_text : HostStatus → String
status_text HostStatus.online = "online"
status_text HostStatus.offline = "offline"
status_text HostStatus.draining = "draining"
status_text HostStatus.maintenance = "maintenance"

-- Whether a heartbeat came within the threshold. A time that lies ahead counts as recent: the
-- difference is then negative.
abbrev pub is_recent : ℕ → ℕ → Option ℕ → Bool
is_recent threshold now none = false
is_recent threshold now (some seen) = ltb now (seen + threshold)

-- `derived_status`
unfoldable pub derived_status : ℕ → ℕ → Host → HostStatus
derived_status threshold now h =
    if is_withdrawn h.status
    then h.status
    else if is_recent threshold now h.last_seen_at
    then online
    else offline

module _ (env : Env) where
  -- GET /, the newest first, without the number of tenants: rows stand in the order of their
  -- creation
  unfoldable pub list_hosts : Caller → Action (Reply (List (Host × HostStatus)))
  unfolding require_user find_many derived_status
  list_hosts caller = require_user env false caller λ user. do
    hosts ← find_many env host_table (λ h. true)
    pure (
        send 200 (
          map (λ h. (h, derived_status (env.config.offline_threshold_seconds * 1000) env.now h))
            (reverse hosts)))

  abbrev pub mark_approved : Caller → String → Bool → SessionUser → Action (Reply Bool)
  mark_approved caller id approved user = do
    host ← update env host_table (λ h. h.id == id) (λ h. record h { approved = approved })
    record_audit env (context_of user caller) host_approved "host" host.id
        (obj (object (("approved", bool approved) ∷ [])))
    pure (send 200 host.approved)

  abbrev pub approve_as : Caller → String → Bool → SessionUser → Action (Reply Bool)
  approve_as caller id approved user =
      if not (can_perform_destructive user.role)
      then reject 403 "forbidden"
      else mark_approved caller id approved user

  -- POST /:id/approve
  unfoldable pub approve_host : Caller → String → Bool → Action (Reply Bool)
  unfolding require_user can_perform_destructive update record_audit
  approve_host caller id approved = require_user env true caller (approve_as caller id approved)

  abbrev pub maintain_as :
      Caller → String → MaintenanceStatus → SessionUser → Action (Reply HostStatus)
  maintain_as caller id status user = do
    host ← update env host_table (λ h. h.id == id) (λ h. record h { status = requested status })
    record_audit env (context_of user caller) host_maintenance "host" host.id
        (obj (object (("status", str (status_text (requested status))) ∷ [])))
    pure (send 200 host.status)

  -- POST /:id/maintenance
  unfoldable pub set_maintenance : Caller → String → MaintenanceStatus → Action (Reply HostStatus)
  unfolding require_user update record_audit
  set_maintenance caller id status = require_user env true caller (maintain_as caller id status)
