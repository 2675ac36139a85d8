-- ===== src/Config.antt =====
-- apps/api/src/config.ts: the settings of the API from the variables of its process. `Number(_)` and
-- the length of a text are parameters; a number that cannot be read is `none`.
pub mod Loading
use Prim.Native.String
use xoom_agent_control.Prelude.{
  ℕ, String, Bool, not, ◌==◌, Option, none, some, List, [], ◌∷◌, leb, find, select, present, trim,
  get_or, if◌then◌else◌, map,
}

-- `process.env`
abbrev pub ProcessEnv : Type 0
ProcessEnv = List (String × String)

abbrev value_of : Option (String × String) → Option String
value_of none = none
value_of (some (key, value)) = some value

unfoldable pub variable : String → ProcessEnv → Option String
unfolding find
variable key vars = value_of (find (λ v. v.0 == key) vars)

unfoldable pub set_variable : String → String → ProcessEnv → ProcessEnv
unfolding select
set_variable key value vars = (key, value) ∷ select (λ v. not (v.0 == key)) vars

-- `EnvSchema`, parsed
pub record ApiConfig : Type 0 where
  pub node_env : String
  pub api_host : String
  pub api_port : ℕ
  pub api_public_url : String
  pub web_public_url : String
  pub cors_origins : String
  pub database_url : String
  pub redis_url : Option String
  pub jwt_secret : String
  pub jwt_expires_in : String
  pub host_registration_token : String
  pub secrets_master_key : Option String
  pub secrets_provider : String
  pub litellm_base_url : String
  pub litellm_admin_key : Option String
  pub supermemory_base_url : String
  pub supermemory_api_key : Option String
  pub heartbeat_interval_seconds : ℕ
  pub offline_threshold_seconds : ℕ

-- The settings in the cache of the module, and the variables.
abbrev pub Process : Type 0
Process = Option ApiConfig × ProcessEnv

-- PORT stands in for API_PORT, and is written there.
abbrev port_from : Option String → Option String → ProcessEnv → ProcessEnv
port_from none (some port) vars = set_variable "API_PORT" port vars
port_from _ _ vars = vars

unfoldable pub honour_port : ProcessEnv → ProcessEnv
unfolding variable set_variable present
honour_port vars =
    port_from (present (variable "API_PORT" vars)) (present (variable "PORT" vars)) vars

-- `split(",")`, with the first part apart from the others
unfoldable pub split_comma : String → String × List String
split_comma String.[] = ("", [])
split_comma (String.◌∷◌ c s) =
    let (word, words) = split_comma s in
    if String.◌∷◌ c "" == "," then ("", word ∷ words) else (String.◌∷◌ c word, words)

abbrev all_parts : String × List String → List String
all_parts (word, words) = word ∷ words

-- `corsOrigins`
unfoldable pub cors_list : ApiConfig → List String
unfolding split_comma trim select
cors_list cfg = select (λ s. not (s == "")) (map trim (all_parts (split_comma cfg.cors_origins)))

module _ (number : String → Option ℕ) (size : String → ℕ) where
  -- `z.string().default(_)`
  abbrev text_or_default : String → Option String → String
  text_or_default default given = get_or given default

  -- `z.coerce.number().default(_)`
  abbrev number_or : ℕ → Option String → Option ℕ
  number_or default none = some default
  number_or default (some s) = number s

  -- `z.string().min(16)`
  abbrev strong : Option String → Option String
  strong none = none
  strong (some secret) = if leb 16 (size secret) then some secret else none

  abbrev config_of :
      ProcessEnv → Option ℕ → Option ℕ → Option ℕ → Option String → Option String → Option ApiConfig
  config_of vars (some port) (some interval) (some threshold) (some database) (some secret) =
      some (record {
        node_env = text_or_default "development" (variable "NODE_ENV" vars);
        api_host = text_or_default "0.0.0.0" (variable "API_HOST" vars);
        api_port = port;
        api_public_url = text_or_default "http://localhost:4000" (variable "API_PUBLIC_URL" vars);
        web_public_url = text_or_default "http://localhost:3000" (variable "WEB_PUBLIC_URL" vars);
        cors_origins = text_or_default "http://localhost:3000" (variable "CORS_ORIGINS" vars);
        database_url = database;
        redis_url = variable "REDIS_URL" vars;
        jwt_secret = secret;
        jwt_expires_in = text_or_default "12h" (variable "JWT_EXPIRES_IN" vars);
        host_registration_token =
            text_or_default "dev-host-registration-token" (variable "HOST_REGISTRATION_TOKEN" vars);
        secrets_master_key = variable "SECRETS_MASTER_KEY" vars;
        secrets_provider = text_or_default "local" (variable "SECRETS_PROVIDER" vars);
        litellm_base_url =
            text_or_default "https://llm.xoomagent.local" (variable "LITELLM_BASE_URL" vars);
        litellm_admin_key = variable "LITELLM_ADMIN_KEY" vars;
        supermemory_base_url =
            text_or_default "https://api.supermemory.ai" (variable "SUPERMEMORY_BASE_URL" vars);
        supermemory_api_key = variable "SUPERMEMORY_API_KEY" vars;
        heartbeat_interval_seconds = interval;
        offline_threshold_seconds = threshold;
      })
  config_of _ _ _ _ _ _ = none

  -- `EnvSchema.safeParse`
  unfoldable pub parse_env : ProcessEnv → Option ApiConfig
  unfolding variable
  parse_env vars =
      config_of vars (number_or 4000 (variable "API_PORT" vars))
        (number_or 30 (variable "HEARTBEAT_INTERVAL_SECONDS" vars))
        (number_or 90 (variable "OFFLINE_THRESHOLD_SECONDS" vars)) (variable "DATABASE_URL" vars)
        (strong (variable "JWT_SECRET" vars))

  -- The answer, and what is cached: nothing where it throws.
  abbrev cached : Option ApiConfig → ProcessEnv → Option ApiConfig × Process
  cached none vars = (none, (none, vars))
  cached (some cfg) vars = (some cfg, (some cfg, vars))

  -- `loadConfig`, nothing where it throws
  unfoldable pub load_config : Process → Option ApiConfig × Process
  unfolding parse_env honour_port
  load_config (some cfg, vars) = (some cfg, (some cfg, vars))
  load_config (none, vars) = cached (parse_env (honour_port vars)) (honour_port vars)
