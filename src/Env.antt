-- ===== src/Env.antt =====
-- What the API does not implement itself: the database client, ids, the clock, random tokens, bcrypt,
-- JSON Web Tokens, AES-256-GCM and the HTTP calls to the LLM gateway. An environment fixes their
-- answers for one request; the configuration (apps/api/src/config.ts) stands beside them.
use xoom_agent_control.Prelude.{ℕ, ◌≡◌, subst, sym, String, Bool, Option, List}
use xoom_agent_control.Enums.{UserRole}
use xoom_agent_control.Prisma.{Client, Documented, Documented-reference, reference}

-- `SessionUser` of packages/auth/src/index.ts, the user of a session.
pub record SessionUser : Type 0 where
  pub id : String
  pub email : String
  pub name : Option String
  pub role : UserRole

-- The claims of a session token, as jsonwebtoken gives them back: one that is missing is `none`. The
-- role is taken for one of the roles, as the cast in the source does.
pub record Claims : Type 0 where
  pub sub : Option String
  pub email : Option String
  pub name : Option String
  pub role : UserRole

-- `EnvSchema`: the settings that the handlers read.
pub record AppConfig : Type 0 where
  pub api_public_url : String
  pub jwt_secret : String
  pub jwt_expires_in : String
  pub host_registration_token : String
  pub secrets_master_key : Option String
  pub litellm_base_url : String
  pub litellm_admin_key : Option String
  pub heartbeat_interval_seconds : ℕ
  pub offline_threshold_seconds : ℕ

-- `VirtualKeySpec` of apps/api/src/lib/providers/llm.ts, and its `Partial` as updates send it.
pub record VirtualKeySpec : Type 0 where
  pub tenant_slug : String
  pub model_allowlist : Option (List String)
  pub max_budget_usd : Option ℕ
  pub rpm_limit : Option ℕ

pub record VirtualKeyUpdate : Type 0 where
  pub model_allowlist : Option (List String)
  pub max_budget_usd : Option ℕ
  pub rpm_limit : Option ℕ

pub record Env : Type 1 where
  pub client : Client
  pub config : AppConfig
  -- `@default(cuid())`: the id that follows so many others
  pub cuid : ℕ → String
  -- `Date.now()`
  pub now : ℕ
  -- whether a text contains another, in any case of the letters: a condition of the database
  pub contains : String → String → Bool
  -- the order that the database gives to texts
  pub text_le : String → String → Bool
  -- `crypto.randomBytes(32).toString("base64url")`
  pub random_token : String
  -- `bcrypt.hash` with its rounds, and `bcrypt.compare`
  pub bcrypt_hash : ℕ → String → String
  pub bcrypt_compare : String → String → Bool
  -- `jwt.sign` with the secret and the lifetime, and `jwt.verify`, which may throw
  pub jwt_sign : Claims → String → String → String
  pub jwt_verify : String → String → Option Claims
  -- `createCipheriv("aes-256-gcm", …)` with a random IV: IV, tag and ciphertext in base64
  pub encrypt : List ℕ → String → String × String × String
  -- `createDecipheriv`, from IV, tag and ciphertext in base64; it throws where the tag is wrong
  pub decrypt : List ℕ → String → String → String → Option String
  -- `Buffer.from(_, "base64")`, and the SHA-256 digest that stands in for a missing master key
  pub decode_base64 : String → List ℕ
  pub dev_key : List ℕ
  -- POST /key/generate of the gateway: the new key, or a failure
  pub generate_key : VirtualKeySpec → Option String
  -- POST /key/update: whether it succeeded
  pub update_key : String → VirtualKeyUpdate → Bool

-- Both environments agree on all but the client, which is the reference client.
abbrev pub standard : Env → Env
standard env = record env { client = reference env.client.order_by }

pub Documented-standard : (env : Env) → Documented env.client → env ≡ standard env
Documented-standard env d = λ i. record env { client = Documented-reference env.client d i }

-- A claim about every documented client is proved of the reference client.
pub by_standard : (P : Env → Type 0) (env : Env) → Documented env.client → P (standard env) → P env
by_standard P env d p = subst P (sym (Documented-standard env d)) p
