-- ===== src/Settings.antt =====
-- apps/api/src/modules/settings/routes.ts: the settings of the platform.
use xoom_agent_control.Prelude.{
  String, true, false, not, ◌==◌, Option, none, some, List, if◌then◌else◌,
}
use xoom_agent_control.Json.{Json, Fields, obj}
use xoom_agent_control.Enums.{msp_admin}
use xoom_agent_control.Rows.{PlatformSetting}
use xoom_agent_control.Env.{Env, SessionUser}
use xoom_agent_control.Auth.{has_role}
use xoom_agent_control.Guards.{Caller, require_user}
use xoom_agent_control.Action.{Action, Reply, send, pure, reject, ◌>>=◌, ◌>>◌}
use xoom_agent_control.Tables.{setting_table}
use xoom_agent_control.Query.{find_first, find_many, create, update}
use xoom_agent_control.Audit.{settings_changed, record_audit, no_metadata}
use xoom_agent_control.Tenants.Routes.{context_of}

module _ (env : Env) where
  -- GET /
  unfoldable pub list_settings : Caller → Action (Reply (List PlatformSetting))
  unfolding require_user find_many
  list_settings caller =
      require_user env false caller
        λ user. do settings ← find_many env setting_table (λ p. true); pure (send 200 settings)

  -- `upsert`
  abbrev pub put : String → Json → Option PlatformSetting → Action PlatformSetting
  put key value (some setting) =
      update env setting_table (λ p. p.key == key) (λ p. record p { value = value })
  put key value none = create env setting_table (λ _. record { key = key; value = value })

  abbrev pub save_setting :
      Caller
      → String
      → Fields
      → SessionUser
      → Option PlatformSetting
      → Action (Reply PlatformSetting)
  save_setting caller key body user existing = do
    setting ← put key (obj body) existing
    record_audit env (context_of user caller) settings_changed "setting" key no_metadata
    pure (send 200 setting)

  abbrev pub put_setting_as :
      Caller → String → Fields → SessionUser → Action (Reply PlatformSetting)
  put_setting_as caller key body user =
      if not (has_role user.role msp_admin)
      then reject 403 "forbidden"
      else (find_first env setting_table (λ p. p.key == key) >>= save_setting caller key body user)

  -- PUT /:key
  unfoldable pub put_setting : Caller → String → Fields → Action (Reply PlatformSetting)
  unfolding require_user has_role find_first create update record_audit
  put_setting caller key body = require_user env true caller (put_setting_as caller key body)
