-- ===== src/ProviderRoutes/Kept.antt =====
-- What an update of the settings for language models keeps.
use xoom_agent_control.Prelude.{◌≡◌, ◌∙◌, String, false, ◌==◌, eq_iff, Bool-cases, inl, inr}
use xoom_agent_control.Json.{Json, Fields, end, field, get}
use xoom_agent_control.Env.{Env}
use xoom_agent_control.Requests.{LlmConfigInput}
use xoom_agent_control.ProviderRoutes.{set_field, next_llm}

-- A property that is set leaves the others.
pub get-set_field_other :
    (k key : String) (value : Json) (fields : Fields)
    → (key == k) ≡ false
    → get k (set_field key value fields) ≡ get k fields
unfolding get set_field
get-set_field_other k key value end e = rw e
get-set_field_other k key value (field x v rest) e = elim (Bool-cases (x == key)) [
  | inl hit ↦ let other : (x == k) ≡ false = rw ((eq_iff x key).0 hit) e in rw (hit, e, other)
  | inr miss ↦ elim (Bool-cases (x == k)) [
    | inl here ↦ rw (miss, here)
    | inr past ↦ rw (miss, past) (get-set_field_other k key value rest e)
  ]
]

-- An update of the settings for language models keeps every property that is none of the five
-- that it sets, among them the name of the virtual key.
pub get-next_llm :
    (env : Env) (b : LlmConfigInput) (current : Fields) (k : String)
    → ("base_url" == k) ≡ false
    → ("model_allowlist" == k) ≡ false
    → ("max_monthly_spend" == k) ≡ false
    → ("rate_limit_rpm" == k) ≡ false
    → ("fallback_models" == k) ≡ false
    → get k (next_llm env b current) ≡ get k current
unfolding next_llm
get-next_llm env b current k u m s r f =
    get-set_field_other k "fallback_models" _ _ f
    ∙ get-set_field_other k "rate_limit_rpm" _ _ r
    ∙ get-set_field_other k "max_monthly_spend" _ _ s
    ∙ get-set_field_other k "model_allowlist" _ _ m
    ∙ get-set_field_other k "base_url" _ _ u
