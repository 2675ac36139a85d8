-- ===== src/Tests/Tenancy.antt =====
-- Secrets and settings at concrete inputs.
use xoom_agent_control.Json.{str, object, get}
use xoom_agent_control.ProviderRoutes.{next_llm}
use xoom_agent_control.ProviderRoutes.Kept.{get-next_llm}
use xoom_agent_control.Tests.Fixtures.{budget}
use xoom_agent_control.Prelude.{◌≡◌, refl, none, [], ◌∷◌}
use xoom_agent_control.Action.{ok}
use xoom_agent_control.Secrets.{encrypt_value, decrypt_value}
use xoom_agent_control.Secrets.RoundTrip.{IsCipher, IsPart, decrypt_value-encrypt_value}
use xoom_agent_control.Tests.Fixtures.{env}

iv-IsPart : IsPart "iv"
iv-IsPart = let a : IsPart "v" = (refl, tt) in (refl, a)

tag-IsPart : IsPart "tag"
tag-IsPart = let a : IsPart "g" = (refl, tt) in let b : IsPart "ag" = (refl, a) in (refl, b)

secret-IsPart : IsPart "secret"
secret-IsPart =
    let a : IsPart "t" = (refl, tt) in
    let b : IsPart "et" = (refl, a) in
    let c : IsPart "ret" = (refl, b) in
    let d : IsPart "cret" = (refl, c) in let e : IsPart "ecret" = (refl, d) in (refl, e)

plain-IsCipher : IsCipher env "secret"
plain-IsCipher = record {
  opens = λ key. refl;
  base64 = λ key. (iv-IsPart, tag-IsPart, secret-IsPart);
}

decrypt_value-encrypt_value_example : decrypt_value env "v1:iv:tag:secret" none ≡ ok "secret"
decrypt_value-encrypt_value_example =
    decrypt_value-encrypt_value env none "secret" "v1:iv:tag:secret" plain-IsCipher
      (unfold encrypt_value in refl)

get-next_llm_example :
    get "virtual_key_name" (next_llm env budget (object (("virtual_key_name", str "k") ∷ [])))
    ≡ get "virtual_key_name" (object (("virtual_key_name", str "k") ∷ []))
get-next_llm_example =
    get-next_llm env budget (object (("virtual_key_name", str "k") ∷ [])) "virtual_key_name" refl
      refl refl refl refl
