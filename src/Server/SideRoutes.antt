-- ===== src/Server/SideRoutes.antt =====
-- The routes that write neither hosts nor tenants nor commands: users, settings, secrets, templates,
-- MCP servers, and the settings of a tenant for language models and memory.
use xoom_agent_control.Prelude.{
  String, true, not, ◌==◌, ◌&&◌, Option, none, some, present, get_or, if◌then◌else◌,
}
use xoom_agent_control.Json.{Json, Fields, get, obj, truthy}
use xoom_agent_control.Prisma.{Documented}
use xoom_agent_control.Enums.{SecretProvider, local, msp_admin}
use xoom_agent_control.Rows.{
  User, McpServer, TenantMcpAccess, PlatformSetting, SecretReference, TenantRuntimeConfig,
}
use xoom_agent_control.Env.{Env, SessionUser, VirtualKeyUpdate}
use xoom_agent_control.Auth.{verify_password, can_manage_users, has_role}
use xoom_agent_control.Guards.{Caller}
use xoom_agent_control.Query.{find_first}
use xoom_agent_control.Action.{reject, pure, fail, ◌>>=◌}
use xoom_agent_control.Tables.{
  user_table, setting_table, mcp_server_table, mcp_access_table, runtime_config_table, secret_table,
  template_table,
}
use xoom_agent_control.Requests.{
  LoginRequest, CreateUserRequest, McpServerInput, McpServerPatch, TenantMcpAccessInput,
  LlmConfigInput, MemoryConfigInput, CreateSecretRequest, AgentTemplateInput, AgentTemplatePatch,
}
use xoom_agent_control.Accounts.{login, sign_in, create_user, create_user_as, add_user}
use xoom_agent_control.Settings.{put_setting, put_setting_as, save_setting, put}
use xoom_agent_control.McpRoutes.{
  create_server, create_server_as, patch_server, patch_server_as, set_access, set_access_as,
  put_access,
}
use xoom_agent_control.Providers.{update_virtual_key, configured}
use xoom_agent_control.ProviderRoutes.{
  put_llm, put_llm_as, put_memory, put_memory_as, save_llm, rekey, fields_of, llm_column,
}
use xoom_agent_control.Secrets.{store}
use xoom_agent_control.SecretRoutes.{
  post_secret, delete_secret, delete_secret_as, post_by, seal_value, save_sealed, save,
  external_ref, same_tenant,
}
use xoom_agent_control.Templates.{
  create_template, create_template_as, patch_template, patch_template_as, delete_template,
  delete_template_as,
}
use xoom_agent_control.Server.Preserve.{
  Preserves, pure-Preserves, fail-Preserves, bind-Preserves, if-Preserves, require_user-Preserves,
  find_first-Preserves,
}
use xoom_agent_control.Server.Sound.{IsSound}
use xoom_agent_control.Server.Aside.{
  create-Sound, update-Sound, update_unique-Sound, delete-Sound, audit-Sound,
}
use xoom_agent_control.Server.Creation.{lift-Sound, ensure_namespace-Sound}

module _ (env : Env) (d : Documented env.client) where
  sign_in-Sound :
      (body : LoginRequest) (user : Option User) → Preserves IsSound (sign_in env body user)
  sign_in-Sound body none = pure-Preserves IsSound
  sign_in-Sound body (some user) =
      if-Preserves IsSound (user.active && verify_password env body.password user.password_hash)
        (bind-Preserves IsSound (update-Sound env d user_table (λ rows s p. p) _ _)
          (λ _. pure-Preserves IsSound))
        (pure-Preserves IsSound)

  pub login-Sound : (body : LoginRequest) → Preserves IsSound (login env body)
  unfolding login
  login-Sound body =
      bind-Preserves IsSound {f = sign_in env body}
        (find_first-Preserves IsSound env d user_table (λ u. u.email == body.email))
        (sign_in-Sound body)

  add_user-Sound :
      (by : SessionUser) (caller : Caller) (body : CreateUserRequest) (existing : Option User)
      → Preserves IsSound (add_user env by caller body existing)
  add_user-Sound by caller body (some existing) = pure-Preserves IsSound
  add_user-Sound by caller body none =
      bind-Preserves IsSound (create-Sound env d user_table (λ rows s p. p) _ (λ rows n s p. p))
        (λ user. bind-Preserves IsSound (audit-Sound env d _ _ _ _ _) (λ _. pure-Preserves IsSound))

  create_user_as-Sound :
      (caller : Caller) (body : CreateUserRequest) (user : SessionUser)
      → Preserves IsSound (create_user_as env caller body user)
  create_user_as-Sound caller body user =
      if-Preserves IsSound (not (can_manage_users user.role)) {m = reject 403 "forbidden"}
        {n = find_first env user_table (λ u. u.email == body.email)
          >>= add_user env user caller body}
        (pure-Preserves IsSound)
        (bind-Preserves IsSound
          (find_first-Preserves IsSound env d user_table (λ u. u.email == body.email))
          (add_user-Sound user caller body))

  put-Sound :
      (key : String) (value : Json) (existing : Option PlatformSetting)
      → Preserves IsSound (put env key value existing)
  put-Sound key value (some setting) = update-Sound env d setting_table (λ rows s p. p) _ _
  put-Sound key value none = create-Sound env d setting_table (λ rows s p. p) _ (λ rows n s p. p)

  save_setting-Sound :
      (caller : Caller) (key : String) (body : Fields) (user : SessionUser)
      (existing : Option PlatformSetting)
      → Preserves IsSound (save_setting env caller key body user existing)
  save_setting-Sound caller key body user existing =
      bind-Preserves IsSound (put-Sound key (obj body) existing) (λ setting.
        bind-Preserves IsSound (audit-Sound env d _ _ _ _ _) (λ _. pure-Preserves IsSound))

  put_setting_as-Sound :
      (caller : Caller) (key : String) (body : Fields) (user : SessionUser)
      → Preserves IsSound (put_setting_as env caller key body user)
  put_setting_as-Sound caller key body user =
      if-Preserves IsSound (not (has_role user.role msp_admin)) {m = reject 403 "forbidden"}
        {n = find_first env setting_table (λ p. p.key == key)
          >>= save_setting env caller key body user}
        (pure-Preserves IsSound)
        (bind-Preserves IsSound
          (find_first-Preserves IsSound env d setting_table (λ p. p.key == key))
          (save_setting-Sound caller key body user))

  create_server_as-Sound :
      (caller : Caller) (b : McpServerInput) (user : SessionUser)
      → Preserves IsSound (create_server_as env caller b user)
  create_server_as-Sound caller b user =
      bind-Preserves IsSound
        (create-Sound env d mcp_server_table (λ rows s p. p) _ (λ rows n s p. p))
        (λ server. pure-Preserves IsSound)

  patch_server_as-Sound :
      (caller : Caller) (id : String) (b : McpServerPatch) (user : SessionUser)
      → Preserves IsSound (patch_server_as env caller id b user)
  patch_server_as-Sound caller id b user =
      bind-Preserves IsSound (update-Sound env d mcp_server_table (λ rows s p. p) _ _)
        (λ server. pure-Preserves IsSound)

  put_access-Sound :
      (tenant_id : String) (b : TenantMcpAccessInput) (server : Option McpServer)
      (existing : Option TenantMcpAccess)
      → Preserves IsSound (put_access env tenant_id b server existing)
  put_access-Sound tenant_id b server (some access) =
      update-Sound env d mcp_access_table (λ rows s p. p) _ _
  put_access-Sound tenant_id b server none =
      create-Sound env d mcp_access_table (λ rows s p. p) _ (λ rows n s p. p)

  set_access_as-Sound :
      (caller : Caller) (tenant_id : String) (b : TenantMcpAccessInput) (user : SessionUser)
      → Preserves IsSound (set_access_as env caller tenant_id b user)
  set_access_as-Sound caller tenant_id b user =
      bind-Preserves IsSound
        (find_first-Preserves IsSound env d mcp_server_table (λ m. m.id == b.mcp_server_id))
        (λ server.
          bind-Preserves IsSound
            (find_first-Preserves IsSound env d mcp_access_table
              (λ a. a.tenant_id == tenant_id && a.mcp_server_id == b.mcp_server_id))
            (λ existing.
              bind-Preserves IsSound (put_access-Sound tenant_id b server existing) (λ access.
                bind-Preserves IsSound (audit-Sound env d _ _ _ _ _)
                  (λ _. pure-Preserves IsSound))))

  create_template_as-Sound :
      (caller : Caller) (b : AgentTemplateInput) (user : SessionUser)
      → Preserves IsSound (create_template_as env caller b user)
  create_template_as-Sound caller b user =
      bind-Preserves IsSound (create-Sound env d template_table (λ rows s p. p) _ (λ rows n s p. p))
        (λ template. pure-Preserves IsSound)

  patch_template_as-Sound :
      (caller : Caller) (id : String) (b : AgentTemplatePatch) (user : SessionUser)
      → Preserves IsSound (patch_template_as env caller id b user)
  patch_template_as-Sound caller id b user =
      bind-Preserves IsSound (update_unique-Sound env d template_table (λ rows s p. p) _ _)
        (λ template. pure-Preserves IsSound)

  delete_template_as-Sound :
      (caller : Caller) (id : String) (user : SessionUser)
      → Preserves IsSound (delete_template_as env caller id user)
  delete_template_as-Sound caller id user =
      bind-Preserves IsSound (delete-Sound env d template_table (λ rows s p. p) _)
        (λ _. pure-Preserves IsSound)

  save-Sound :
      (b : CreateSecretRequest) (sealed : Option String) (existing : Option SecretReference)
      → Preserves IsSound (save env b sealed existing)
  save-Sound b sealed (some existing) = update-Sound env d secret_table (λ rows s p. p) _ _
  save-Sound b sealed none = create-Sound env d secret_table (λ rows s p. p) _ (λ rows n s p. p)

  save_sealed-Sound :
      (user : SessionUser) (caller : Caller) (b : CreateSecretRequest) (sealed : Option String)
      → Preserves IsSound (save_sealed env user caller b sealed)
  save_sealed-Sound user caller b sealed =
      bind-Preserves IsSound
        (find_first-Preserves IsSound env d secret_table
          (λ r. same_tenant r.tenant_id b.tenant_id && r.name == b.name))
        (λ existing. bind-Preserves IsSound (save-Sound b sealed existing) (λ secret.
          bind-Preserves IsSound (audit-Sound env d _ _ _ _ _) (λ _. pure-Preserves IsSound)))

  seal_value-Sound :
      (user : SessionUser) (caller : Caller) (b : CreateSecretRequest) (value : Option String)
      → Preserves IsSound (seal_value env user caller b value)
  seal_value-Sound user caller b none = pure-Preserves IsSound
  seal_value-Sound user caller b (some value) =
      bind-Preserves IsSound
        (lift-Sound env d (store env (external_ref b) value env.config.secrets_master_key))
        (λ stored. save_sealed-Sound user caller b (some stored.1))

  post_by-Sound :
      (provider : SecretProvider) (user : SessionUser) (caller : Caller) (b : CreateSecretRequest)
      → Preserves IsSound (post_by env user caller b provider)
  post_by-Sound local user caller b = seal_value-Sound user caller b (present b.value)
  post_by-Sound _ user caller b = save_sealed-Sound user caller b none

  delete_secret_as-Sound :
      (caller : Caller) (id : String) (user : SessionUser)
      → Preserves IsSound (delete_secret_as env caller id user)
  delete_secret_as-Sound caller id user =
      bind-Preserves IsSound (delete-Sound env d secret_table (λ rows s p. p) _)
        (λ _. bind-Preserves IsSound (audit-Sound env d _ _ _ _ _) (λ _. pure-Preserves IsSound))

  update_virtual_key-Sound :
      (name : String) (change : VirtualKeyUpdate)
      → Preserves IsSound (update_virtual_key env name change)
  unfolding update_virtual_key
  update_virtual_key-Sound name change =
      if-Preserves IsSound (configured env)
        {m = if env.update_key name change
          then pure tt
          else fail none "LiteLLM POST /key/update failed"}
        (if-Preserves IsSound (env.update_key name change) (pure-Preserves IsSound)
          (fail-Preserves IsSound))
        (pure-Preserves IsSound)

  rekey-Sound : (name : Option Json) (b : LlmConfigInput) → Preserves IsSound (rekey env name b)
  rekey-Sound none b = pure-Preserves IsSound
  rekey-Sound (some name) b =
      if-Preserves IsSound (truthy name) (update_virtual_key-Sound _ _) (pure-Preserves IsSound)

  save_llm-Sound :
      (caller : Caller) (tenant_id : String) (b : LlmConfigInput) (user : SessionUser)
      (config : Option TenantRuntimeConfig)
      → Preserves IsSound (save_llm env caller tenant_id b user config)
  save_llm-Sound caller tenant_id b user config =
      bind-Preserves IsSound
        (rekey-Sound (get "virtual_key_name" (fields_of (llm_column config))) b)
        (λ _.
          bind-Preserves IsSound (update-Sound env d runtime_config_table (λ rows s p. p) _ _) (λ _.
            bind-Preserves IsSound (audit-Sound env d _ _ _ _ _) (λ _. pure-Preserves IsSound)))

  put_llm_as-Sound :
      (caller : Caller) (tenant_id : String) (b : LlmConfigInput) (user : SessionUser)
      → Preserves IsSound (put_llm_as env caller tenant_id b user)
  put_llm_as-Sound caller tenant_id b user =
      bind-Preserves IsSound {f = save_llm env caller tenant_id b user}
        (find_first-Preserves IsSound env d runtime_config_table (λ c. c.tenant_id == tenant_id))
        (save_llm-Sound caller tenant_id b user)

  put_memory_as-Sound :
      (caller : Caller) (tenant_id : String) (b : MemoryConfigInput) (user : SessionUser)
      → Preserves IsSound (put_memory_as env caller tenant_id b user)
  put_memory_as-Sound caller tenant_id b user =
      bind-Preserves IsSound
        (ensure_namespace-Sound env d (get_or b.namespace tenant_id) b.retention_days)
        (λ _.
          bind-Preserves IsSound (update-Sound env d runtime_config_table (λ rows s p. p) _ _)
            (λ _. pure-Preserves IsSound))

  pub create_user-Sound :
      (caller : Caller) (body : CreateUserRequest) → Preserves IsSound (create_user env caller body)
  unfolding create_user
  create_user-Sound caller body =
      require_user-Preserves IsSound env true caller (create_user_as env caller body)
        (create_user_as-Sound caller body)

  pub put_setting-Sound :
      (caller : Caller) (key : String) (body : Fields)
      → Preserves IsSound (put_setting env caller key body)
  unfolding put_setting
  put_setting-Sound caller key body =
      require_user-Preserves IsSound env true caller (put_setting_as env caller key body)
        (put_setting_as-Sound caller key body)

  pub create_server-Sound :
      (caller : Caller) (b : McpServerInput) → Preserves IsSound (create_server env caller b)
  unfolding create_server
  create_server-Sound caller b =
      require_user-Preserves IsSound env true caller (create_server_as env caller b)
        (create_server_as-Sound caller b)

  pub patch_server-Sound :
      (caller : Caller) (id : String) (b : McpServerPatch)
      → Preserves IsSound (patch_server env caller id b)
  unfolding patch_server
  patch_server-Sound caller id b =
      require_user-Preserves IsSound env true caller (patch_server_as env caller id b)
        (patch_server_as-Sound caller id b)

  pub set_access-Sound :
      (caller : Caller) (tenant_id : String) (b : TenantMcpAccessInput)
      → Preserves IsSound (set_access env caller tenant_id b)
  unfolding set_access
  set_access-Sound caller tenant_id b =
      require_user-Preserves IsSound env true caller (set_access_as env caller tenant_id b)
        (set_access_as-Sound caller tenant_id b)

  pub create_template-Sound :
      (caller : Caller) (b : AgentTemplateInput) → Preserves IsSound (create_template env caller b)
  unfolding create_template
  create_template-Sound caller b =
      require_user-Preserves IsSound env true caller (create_template_as env caller b)
        (create_template_as-Sound caller b)

  pub patch_template-Sound :
      (caller : Caller) (id : String) (b : AgentTemplatePatch)
      → Preserves IsSound (patch_template env caller id b)
  unfolding patch_template
  patch_template-Sound caller id b =
      require_user-Preserves IsSound env true caller (patch_template_as env caller id b)
        (patch_template_as-Sound caller id b)

  pub delete_template-Sound :
      (caller : Caller) (id : String) → Preserves IsSound (delete_template env caller id)
  unfolding delete_template
  delete_template-Sound caller id =
      require_user-Preserves IsSound env true caller (delete_template_as env caller id)
        (delete_template_as-Sound caller id)

  pub delete_secret-Sound :
      (caller : Caller) (id : String) → Preserves IsSound (delete_secret env caller id)
  unfolding delete_secret
  delete_secret-Sound caller id =
      require_user-Preserves IsSound env true caller (delete_secret_as env caller id)
        (delete_secret_as-Sound caller id)

  pub put_llm-Sound :
      (caller : Caller) (tenant_id : String) (b : LlmConfigInput)
      → Preserves IsSound (put_llm env caller tenant_id b)
  unfolding put_llm
  put_llm-Sound caller tenant_id b =
      require_user-Preserves IsSound env true caller (put_llm_as env caller tenant_id b)
        (put_llm_as-Sound caller tenant_id b)

  pub put_memory-Sound :
      (caller : Caller) (tenant_id : String) (b : MemoryConfigInput)
      → Preserves IsSound (put_memory env caller tenant_id b)
  unfolding put_memory
  put_memory-Sound caller tenant_id b =
      require_user-Preserves IsSound env true caller (put_memory_as env caller tenant_id b)
        (put_memory_as-Sound caller tenant_id b)

  pub post_secret-Sound :
      (caller : Caller) (b : CreateSecretRequest) → Preserves IsSound (post_secret env caller b)
  unfolding post_secret
  post_secret-Sound caller b =
      require_user-Preserves IsSound env true caller (λ user. post_by env user caller b b.provider)
        (λ user. post_by-Sound b.provider user caller b)
