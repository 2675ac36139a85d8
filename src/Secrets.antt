-- ===== src/Secrets.antt =====
-- apps/api/src/lib/secrets.ts: secrets at rest, sealed under a master key. The cipher, base64 and the
-- random numbers are in the environment.
pub mod RoundTrip
use Prim.Native.Char.{code}
use Prim.Native.String
use Prim.Native.Nat.{compare, Ordering}
use xoom_agent_control.Prelude.{
  ℕ, String, Bool, true, false, ◌&&◌, ◌||◌, ◌==◌, Option, none, some, List, [], ◌∷◌, length, leb,
  template, if◌then◌else◌,
}
use xoom_agent_control.Env.{Env}
use xoom_agent_control.Action.{Result, ok, throw}

abbrev pub error : {A : Type 0} → String → Result A
error message = throw (record { status_code = none; message = message })

infixl 5 ◌>>=◌
abbrev pub ◌>>=◌ : {A B : Type 0} → Result A → (A → Result B) → Result B
ok a >>= f = f a
throw e >>= f = throw e

-- Whether a character is the colon.
abbrev pub is_colon : ℕ → Bool
is_colon c = elim (compare c b':') [ Ordering.eq ↦ true | _ ↦ false ]

abbrev pub push_char : Prim.Native.Char.Char → List String → List String
push_char c [] = String.◌∷◌ c "" ∷ []
push_char c (part ∷ parts) = String.◌∷◌ c part ∷ parts

-- `blob.split(":")`
unfoldable pub split_colon : String → List String
split_colon String.[] = "" ∷ []
split_colon (String.◌∷◌ c s) =
    let parts = split_colon s in if is_colon (code c) then "" ∷ parts else push_char c parts

module _ (env : Env) where
  -- `getKey`, past the test for a missing or placeholder key.
  unfoldable pub decoded_key : List ℕ → Result (List ℕ)
  decoded_key key =
      if leb (length key) 32 && leb 32 (length key)
      then ok key
      else error "SECRETS_MASTER_KEY must decode to exactly 32 bytes (base64)"

  unfoldable pub get_key : Option String → Result (List ℕ)
  unfolding decoded_key
  get_key none = ok env.dev_key
  get_key (some master) =
      if master == "" || master == "REPLACE_WITH_BASE64_32_BYTE_KEY"
      then ok env.dev_key
      else decoded_key (env.decode_base64 master)

  abbrev pub blob : String × String × String → String
  blob (iv, tag, enc) = template ("v1" ∷ ":" ∷ iv ∷ ":" ∷ tag ∷ ":" ∷ enc ∷ [])

  unfoldable pub encrypt_value : String → Option String → Result String
  unfolding get_key template
  encrypt_value plaintext master = do key ← get_key master; ok (blob (env.encrypt key plaintext))

  abbrev pub opened : Option String → Result String
  opened none = error "Unsupported state or unable to authenticate data"
  opened (some plaintext) = ok plaintext

  abbrev pub decrypt_parts : Option String → List String → Result String
  decrypt_parts master (version ∷ iv ∷ tag ∷ enc ∷ []) =
      if version == "v1"
      then get_key master >>= (λ key. opened (env.decrypt key iv tag enc))
      else error "Malformed secret ciphertext"
  decrypt_parts master _ = error "Malformed secret ciphertext"

  unfoldable pub decrypt_value : String → Option String → Result String
  unfolding split_colon get_key
  decrypt_value blob master = decrypt_parts master (split_colon blob)

  -- `LocalSecretsProvider`
  unfoldable pub store : String → String → Option String → Result (String × String)
  unfolding encrypt_value
  store ref value master = do ciphertext ← encrypt_value value master; ok (ref, ciphertext)

  unfoldable pub resolve : String → Option String → Option String → Result String
  unfolding decrypt_value
  resolve external_ref none master =
      error (template ("No local ciphertext for " ∷ external_ref ∷ []))
  resolve external_ref (some ciphertext) master =
      if ciphertext == ""
      then error (template ("No local ciphertext for " ∷ external_ref ∷ []))
      else decrypt_value ciphertext master
