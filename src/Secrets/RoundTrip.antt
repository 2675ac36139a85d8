-- ===== src/Secrets/RoundTrip.antt =====
-- Sealing and opening.
use Prim.Native.Char.{code}
use Prim.Native.String
use Prim.Native.String.append
use text.Mathlib.TextLemmas.{append-nil}
use xoom_agent_control.Prelude.{
  ◌≡◌, refl, ap, ◌∙◌, ℕ, String, false, Option, some, List, [], ◌∷◌, template,
}
use xoom_agent_control.Env.{Env}
use xoom_agent_control.Action.{Result, ok, throw}
use xoom_agent_control.Secrets.{
  is_colon, split_colon, get_key, blob, encrypt_value, decrypt_value, ◌>>=◌,
}

-- A text without a colon.
abbrev pub IsPart : String → Type 0
IsPart String.[] = Unit
IsPart (String.◌∷◌ c s) = (is_colon (code c) ≡ false) × IsPart s

-- `Cipheriv` and `Decipheriv` on a text: under the key that sealed it, it is opened, and the three
-- parts are base64, which has no colon.
pub record IsCipher (env : Env) (plaintext : String) : Type 0 where
  pub opens :
      (key : List ℕ)
      → let (iv, tag, enc) = env.encrypt key plaintext in
        env.decrypt key iv tag enc ≡ some plaintext
  pub base64 :
      (key : List ℕ)
      → let (iv, tag, enc) = env.encrypt key plaintext in IsPart iv × IsPart tag × IsPart enc

-- A text without a colon stays whole, and is split off at the colon after it.
split_colon-IsPart : (s : String) → IsPart s → split_colon s ≡ s ∷ []
unfolding split_colon
split_colon-IsPart String.[] p = refl
split_colon-IsPart (String.◌∷◌ c s) (h, p) = rw (h, split_colon-IsPart s p)

split_colon-++ :
    (s rest : String)
    → IsPart s
    → split_colon (String.◌++◌ s (String.◌++◌ ":" rest)) ≡ s ∷ split_colon rest
unfolding split_colon
split_colon-++ String.[] rest p = ap split_colon (
    append.nil (String.◌++◌ ":" rest)
    ∙ append.cons ":" "" rest
    ∙ ap (String.◌∷◌ ":") (append.nil rest))
split_colon-++ (String.◌∷◌ c s) rest (h, p) =
    rw (append.cons c s (String.◌++◌ ":" rest), h, split_colon-++ s rest p)

prefix : IsPart "v1"
prefix = let rest : IsPart "1" = (refl, tt) in (refl, rest)

split_colon-blob :
    (env : Env) (iv tag enc : String)
    → IsPart iv
    → IsPart tag
    → IsPart enc
    → split_colon (blob env (iv, tag, enc)) ≡ "v1" ∷ iv ∷ tag ∷ enc ∷ []
unfolding template
split_colon-blob env iv tag enc p q r =
    split_colon-++ "v1"
      (String.◌++◌ iv (String.◌++◌ ":" (String.◌++◌ tag (String.◌++◌ ":" (String.◌++◌ enc "")))))
      prefix
    ∙ ap ("v1" ∷◌) (
        split_colon-++ iv (String.◌++◌ tag (String.◌++◌ ":" (String.◌++◌ enc ""))) p
        ∙ ap (iv ∷◌) (
            split_colon-++ tag (String.◌++◌ enc "") q
            ∙ ap (tag ∷◌) (ap split_colon (append-nil enc) ∙ split_colon-IsPart enc r)))

opened-sealed :
    (env : Env) (master : Option String) (plaintext sealed : String)
    → IsCipher env plaintext
    → (key : Result (List ℕ)) → get_key env master ≡ key
    → (key >>= λ key. ok (blob env (env.encrypt key plaintext))) ≡ ok sealed
    → decrypt_value env sealed master ≡ ok plaintext
unfolding decrypt_value
opened-sealed env master plaintext sealed cipher (throw message) k e = cc
opened-sealed env master plaintext sealed cipher (ok key) k e =
    let (p, q, r) = cipher.base64 key in
    let is : blob env (env.encrypt key plaintext) ≡ sealed = cc in
    rw (← is, split_colon-blob env _ _ _ p q r, k, cipher.opens key)

-- With a cipher that opens what it sealed of the text, into three parts without a colon, a text
-- that was sealed under a master key is opened under it.
pub decrypt_value-encrypt_value :
    (env : Env) (master : Option String) (plaintext sealed : String)
    → IsCipher env plaintext
    → encrypt_value env plaintext master ≡ ok sealed
    → decrypt_value env sealed master ≡ ok plaintext
unfolding encrypt_value
decrypt_value-encrypt_value env master plaintext sealed cipher e =
    opened-sealed env master plaintext sealed cipher (get_key env master) refl e
