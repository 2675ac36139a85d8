-- ===== src/Agent/Payload/Accepted.antt =====
-- The payload that the control plane builds passes the validation of the agent.
use xoom_agent_control.Prelude.{
  ◌≡◌, refl, ℕ, zero, suc, ◌≤◌, String, Bool, true, none, some, List, [], ◌∷◌, template, get_or,
  arith,
}
use xoom_agent_control.Json.{num, strings}
use xoom_agent_control.Env.{Env}
use xoom_agent_control.Requests.{CreateTenantRequest}
use xoom_agent_control.Tenants.Create.Config.{
  Limits, create_payload, base_url, litellm_key_ref, llm_field, memory_field, memory_namespace,
}
use xoom_agent_control.Agent.Payload.{safe_parse, positive, texts_of}

positive-num : (n : ℕ) → 1 ≤ n → positive (some (num n)) ≡ some n
positive-num zero h = absurd (omega arith)
positive-num (suc n) h = refl

texts_of-strings : (ss : List String) → texts_of (strings ss) ≡ some ss
texts_of-strings [] = refl
texts_of-strings (s ∷ ss) = rw (texts_of-strings ss)

module _ (env : Env) (input : CreateTenantRequest) (limits : Limits)
    (tenant_id host_id : String) where
  abbrev pub callback_url : String
  callback_url =
      template (env.config.api_public_url ∷ "/api/tenants/" ∷ tenant_id ∷ "/callback" ∷ [])

  abbrev pub logs_url : String
  logs_url = template (env.config.api_public_url ∷ "/api/hosts/" ∷ host_id ∷ "/logs" ∷ [])

  -- If the validator takes the base URL, the callback URL and the log URL for URLs, and the
  -- limits of the tenant are positive, then the payload that the control plane builds for a
  -- creation passes the validation of the agent, which gets every field that was put in.
  pub safe_parse-create_payload :
      (is_url : String → Bool)
      → is_url (base_url env input) ≡ true
      → is_url callback_url ≡ true
      → is_url logs_url ≡ true
      → 1 ≤ limits.vcpu
      → 1 ≤ limits.ram_mb
      → 1 ≤ limits.disk_gb
      → safe_parse is_url (create_payload env input limits tenant_id host_id)
        ≡ some (record {
          tenant_slug = input.slug;
          tenant_name = some input.name;
          runtime = input.runtime_type;
          runtime_version = input.runtime_version;
          resources = record {
            vcpu = limits.vcpu;
            ram_mb = limits.ram_mb;
            disk_gb = limits.disk_gb;
          };
          llm = some (record {
            provider = "litellm";
            base_url = base_url env input;
            virtual_key_secret_ref = litellm_key_ref input.slug;
            model_allowlist = some (get_or (llm_field input.llm (λ l. l.model_allowlist)) []);
          });
          memory = some (record {
            provider = get_or (memory_field input.memory (λ m. some m.provider)) "supermemory";
            namespace = memory_namespace input;
            api_key_secret_ref = none;
          });
          mcp = some input.mcp_servers;
          webhook_callback_url = some callback_url;
          log_forward_url = some logs_url;
        })
  unfolding safe_parse
  safe_parse-create_payload is_url a b c v r g = rw (
    positive-num limits.vcpu v,
    positive-num limits.ram_mb r,
    positive-num limits.disk_gb g,
    a,
    texts_of-strings (get_or (llm_field input.llm (λ l. l.model_allowlist)) []),
    texts_of-strings input.mcp_servers,
    b,
    c,
  )
