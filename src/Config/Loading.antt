-- ===== src/Config/Loading.antt =====
-- What a second load gives.
use xoom_agent_control.Prelude.{
  ◌≡◌, refl, sym, ap, ◌∙◌, ℕ, String, Option, none, some, Option-cases, inl, inr,
}
use xoom_agent_control.Config.{ApiConfig, Process, ProcessEnv, load_config, parse_env, honour_port}

module _ (number : String → Option ℕ) (size : String → ℕ) where
  -- What a load gives is what it leaves in the cache.
  cache-load_config :
      (p : Process) → (load_config number size p).1.0 ≡ (load_config number size p).0
  unfolding load_config
  cache-load_config (some cfg, vars) = refl
  cache-load_config (none, vars) = elim (Option-cases (parse_env number size (honour_port vars))) [
    | inl bad ↦ rw bad refl
    | inr (cfg, good) ↦ rw good refl
  ]

  -- Settings that were loaded once are given again, whatever becomes of the variables.
  load_config-load_config :
      (p : Process) (cfg : ApiConfig) (q : Process) (vars : ProcessEnv)
      → load_config number size p ≡ (some cfg, q)
      → (load_config number size (q.0, vars)).0 ≡ some cfg
  unfolding load_config
  load_config-load_config p cfg q vars e =
      let cached : q.0 ≡ some cfg =
        sym (ap (λ r. r.1.0) e) ∙ cache-load_config p ∙ ap (λ r. r.0) e in
      rw cached refl
