-- ===== src/SecretRoutes.antt =====
-- apps/api/src/modules/logs/routes.ts: references to secrets. Listing them selects the columns that
-- hold no secret.
use mathlib.Core.List.{reverse}
use xoom_agent_control.Prelude.{
  String, Bool, true, false, ◌&&◌, ◌==◌, Option, none, some, List, [], ◌∷◌, map, present, template,
  get_or,
}
use xoom_agent_control.Json.{Json, null, bool, str, obj, object}
use xoom_agent_control.Enums.{SecretProvider, local, vault, infisical, doppler, aws}
use xoom_agent_control.Rows.{SecretReference}
use xoom_agent_control.Env.{Env, SessionUser}
use xoom_agent_control.Guards.{Caller, require_user}
use xoom_agent_control.Action.{Action, Reply, send, pure, reject_with, ◌>>=◌, ◌>>◌}
use xoom_agent_control.Tables.{secret_table}
use xoom_agent_control.Query.{find_first, find_many, create, update, delete}
use xoom_agent_control.Audit.{secret_changed, record_audit}
use xoom_agent_control.Requests.{CreateSecretRequest}
use xoom_agent_control.Tenants.Create.Config.{lift}
use xoom_agent_control.Tenants.Routes.{context_of}
use xoom_agent_control.Secrets.{store}

-- What the API shows of a secret.
pub record SecretView : Type 0 where
  pub id : String
  pub tenant_id : Option String
  pub name : String
  pub provider : SecretProvider
  pub external_secret_ref : String

unfoldable pub view_of : SecretReference → SecretView
view_of r = record {
  id = r.id;
  tenant_id = r.tenant_id;
  name = r.name;
  provider = r.provider;
  external_secret_ref = r.external_secret_ref;
}

abbrev provider_text : SecretProvider → String
provider_text local = "local"
provider_text vault = "vault"
provider_text infisical = "infisical"
provider_text doppler = "doppler"
provider_text aws = "aws"

abbrev maybe_text : Option String → Json
maybe_text none = null
maybe_text (some s) = str s

-- `tenantId: b.tenant_id ?? null` as a condition
abbrev pub same_tenant : Option String → Option String → Bool
same_tenant none none = true
same_tenant (some a) (some b) = a == b
same_tenant _ _ = false

abbrev wanted : Option String → Option String → Bool
wanted none id = true
wanted (some w) id = same_tenant id (some w)

abbrev pub external_ref : CreateSecretRequest → String
external_ref b =
    get_or b.external_secret_ref
      (template ("tenant/" ∷ get_or b.tenant_id "platform" ∷ "/" ∷ b.name ∷ []))

-- `encryptedValue: undefined` keeps the column.
abbrev kept : Option String → Option String → Option String
kept none current = current
kept (some s) current = some s

module _ (env : Env) where
  -- GET /secrets, the newest first: rows stand in the order of their creation
  unfoldable pub list_secrets : Caller → Option String → Action (Reply (List SecretView))
  unfolding require_user find_many view_of present
  list_secrets caller tenant_id = require_user env false caller λ user. do
    secrets ← find_many env secret_table (λ r. wanted (present tenant_id) r.tenant_id)
    pure (send 200 (map view_of (reverse secrets)))

  abbrev pub save :
      CreateSecretRequest → Option String → Option SecretReference → Action SecretReference
  save b sealed (some existing) =
      update env secret_table (λ r. r.id == existing.id)
        (λ r. record r {
          provider = b.provider;
          external_secret_ref = external_ref b;
          encrypted_value = kept sealed r.encrypted_value;
        })
  save b sealed none = create env secret_table (λ id. record {
    id = id;
    tenant_id = b.tenant_id;
    name = b.name;
    provider = b.provider;
    external_secret_ref = external_ref b;
    encrypted_value = sealed;
  })

  abbrev pub save_sealed :
      SessionUser → Caller → CreateSecretRequest → Option String → Action (Reply SecretView)
  save_sealed user caller b sealed = do
    existing ←
        find_first env secret_table (λ r. same_tenant r.tenant_id b.tenant_id && r.name == b.name)
    secret ← save b sealed existing
    record_audit env (context_of user caller) secret_changed "secret" secret.id (
        obj (
          object (
            ("name", str b.name)
            ∷ ("provider", str (provider_text b.provider))
            ∷ ("tenant_id", maybe_text b.tenant_id)
            ∷ [])))
    pure (send 201 (view_of secret))

  abbrev pub seal_value :
      SessionUser → Caller → CreateSecretRequest → Option String → Action (Reply SecretView)
  seal_value user caller b none =
      reject_with 400 "validation_error" "value required for local provider"
  seal_value user caller b (some value) = do
    stored ← lift (store env (external_ref b) value env.config.secrets_master_key)
    save_sealed user caller b (some stored.1)

  abbrev pub post_by :
      SessionUser → Caller → CreateSecretRequest → SecretProvider → Action (Reply SecretView)
  post_by user caller b local = seal_value user caller b (present b.value)
  post_by user caller b _ = save_sealed user caller b none

  -- POST /secrets
  unfoldable pub post_secret : Caller → CreateSecretRequest → Action (Reply SecretView)
  unfolding require_user store present find_first create update record_audit view_of
  post_secret caller b = require_user env true caller λ user. post_by user caller b b.provider

  abbrev pub delete_secret_as : Caller → String → SessionUser → Action (Reply Unit)
  delete_secret_as caller id user = do
    delete env secret_table (λ r. r.id == id)
    record_audit env (context_of user caller) secret_changed "secret" id
        (obj (object (("deleted", bool true) ∷ [])))
    pure (send 200 tt)

  -- DELETE /secrets/:id
  unfoldable pub delete_secret : Caller → String → Action (Reply Unit)
  unfolding require_user delete record_audit
  delete_secret caller id = require_user env true caller (delete_secret_as caller id)
