-- ===== src/Providers.antt =====
-- apps/api/src/lib/providers/{llm,memory}.ts: the LLM gateway and the memory provider. The calls to
-- the gateway's HTTP API are in the environment.
use xoom_agent_control.Prelude.{
  ℕ, String, Bool, true, false, Option, none, some, [], ◌∷◌, template, present, if◌then◌else◌,
}
use xoom_agent_control.Env.{Env, VirtualKeySpec, VirtualKeyUpdate}
use xoom_agent_control.Action.{Action, pure, fail, or_throw, ◌>>=◌}

pub record VirtualKeyResult : Type 0 where
  pub key : String
  pub key_name : String

module _ (env : Env) where
  -- whether the gateway has an admin key
  unfoldable pub configured : Bool
  unfolding present
  configured = elim (present env.config.litellm_admin_key) [ none ↦ false | some key ↦ true ]

  unfoldable pub create_virtual_key : VirtualKeySpec → Action VirtualKeyResult
  unfolding configured template
  create_virtual_key spec =
      let name = template ("tenant-" ∷ spec.tenant_slug ∷ []) in
      if configured
      then (or_throw (env.generate_key spec) "LiteLLM POST /key/generate failed" >>= λ key.
          pure (record { key = key; key_name = name }))
      else pure
          (record { key = template ("sk-placeholder-" ∷ spec.tenant_slug ∷ []); key_name = name })

  unfoldable pub update_virtual_key : String → VirtualKeyUpdate → Action Unit
  unfolding configured
  update_virtual_key key_name change =
      if configured
      then (if env.update_key key_name change
          then pure tt
          else fail none "LiteLLM POST /key/update failed")
      else pure tt

  -- Namespaces are created at the first write: the call echoes its argument.
  unfoldable pub ensure_namespace : String → Option ℕ → Action String
  ensure_namespace namespace retention_days = pure namespace
