-- ===== src/Console/Pages/Enrolment.antt =====
-- A new host: its agent joins, an operator approves it on its page, and the agent is let through.
use text.Mathlib.TextPositions.{eq_refl}
use text.Mathlib.TextLemmas.{append-nil}
use xoom_agent_control.Prelude.{
  ◌≡◌, refl, ap, ◌∙◌, ℕ, suc, ◌+◌, String, true, false, ◌==◌, none, some, List, [], ◌∷◌, ◌++◌, find,
  present, trim, template, arith, eq_iff, Bool-cases, inl, inr,
}
use xoom_agent_control.Prisma.{Documented}
use xoom_agent_control.Json.{obj, object, str}
use xoom_agent_control.Rows.{Db, Host}
use xoom_agent_control.Env.{Env, SessionUser}
use xoom_agent_control.Auth.{can_perform_destructive, verify_agent_key, hash_agent_key}
use xoom_agent_control.Guards.{bearer}
use xoom_agent_control.Guards.Admission.{Admitted, AdmittedHost}
use xoom_agent_control.Action.{respond}
use xoom_agent_control.Tables.{host_table}
use xoom_agent_control.Query.{find_first}
use xoom_agent_control.Query.Laws.{create_lem}
use xoom_agent_control.Audit.{host_registered}
use xoom_agent_control.Hosts.Common.{from_ip}
use xoom_agent_control.Hosts.Registration.{registration, blank_host, register}
use xoom_agent_control.Hosts.Queue.Settled.{audit_lem}
use xoom_agent_control.Agent.Config.{AgentConfig}
use xoom_agent_control.Agent.Join.{
  AgentState, HostCapacity, ensure_registered, has_credentials, registration_of,
}
use xoom_agent_control.Agent.Join
use xoom_agent_control.Console.Client.{Browser}
use xoom_agent_control.Console.Client
use xoom_agent_control.Console.Client.Session.{bearer-header}
use xoom_agent_control.Console.Pages.{Controls, approve}
use xoom_agent_control.Console.Pages.Approval.{approve-AdmittedHost}

-- A row with a new id is found under it.
find-appended :
    (row : Host) (hosts : List Host)
    → find (λ b. row.id == b.id) hosts ≡ none
    → find (λ h. h.id == row.id) (hosts ++ row ∷ []) ≡ some row
unfolding find
find-appended row [] e = rw (eq_refl row.id) refl
find-appended row (h ∷ hs) e = elim (Bool-cases (row.id == h.id)) [
  | inl same ↦ ground arith
  | inr other ↦ elim (Bool-cases (h.id == row.id)) [
    | inl same ↦ let no = rw ((eq_iff h.id row.id).0 same, eq_refl row.id) at other in cc
    | inr apart ↦ rw apart (find-appended row hs (rw other at e))
  ]
]

module _ (env : Env) (s : Db) where
  -- What the agent knows after it joined.
  abbrev pub joined_state : AgentState
  joined_state = record {
    host_id = some (env.cuid s.next);
    agent_key = some env.random_token;
    approved = some false;
  }

  -- The row of its host, before the approval.
  abbrev pub new_host : AgentConfig → HostCapacity → Host
  new_host cfg cap =
      registration (registration_of cfg cap) (hash_agent_key env env.random_token) env.now
        (blank_host (env.cuid s.next))

module _ (env : Env) (d : Documented env.client) (cfg : AgentConfig) (cap : HostCapacity)
    (ip : String) (state : AgentState) (s : Db)
    (token : (cfg.registration_token == env.config.host_registration_token) ≡ true)
    (fresh_agent : has_credentials state ≡ false)
    (unknown : find (λ h. h.name == cfg.host_name) s.hosts ≡ none)
    (unused : find (λ b. env.cuid s.next == b.id) s.hosts ≡ none) where
  joined_lem :
      (t : Db) × (ensure_registered env cfg cap ip state s ≡ (
        record {
          host_id = some (env.cuid s.next);
          agent_key = some env.random_token;
          approved = some false;
        },
        t,
      ))
      × (find (λ h. h.id == env.cuid s.next) t.hosts ≡ some (new_host env s cfg cap))
  unfolding ensure_registered register respond find_first
  joined_lem =
      let body = registration_of cfg cap in
      let hash = hash_agent_key env env.random_token in
      let created =
        create_lem env d host_table (λ id. registration body hash env.now (blank_host id)) s refl
          (unfold registration in unused) in
      let s1 = record s { next = suc s.next; hosts = s.hosts ++ new_host env s cfg cap ∷ [] } in
      let (t, noted, same) =
        audit_lem env (from_ip (Join.caller_of state ip)) host_registered "host" (env.cuid s.next)
          (obj
            (object (("host_name", str body.host_name) ∷ ("capabilities", body.capabilities) ∷ [])))
          s1 in
      (
        t,
        rw
            (
              fresh_agent,
              token,
              d.find_first_lem Host (λ h. h.name == cfg.host_name) s.hosts,
              unknown,
              created,
              noted,
            )
            (unfold registration in refl),
        ap (λ v. find (λ h. h.id == env.cuid s.next) v.0) same
            ∙ (unfold registration in find-appended (new_host env s cfg cap) s.hosts unused),
      )

  presented :
      (env.random_token == "") ≡ false
      → trim env.random_token ≡ env.random_token
      → present (bearer (Join.caller_of (joined_state env s) ip).authorization)
        ≡ some env.random_token
  unfolding template present
  presented given trimmed =
      rw (given, append-nil env.random_token, bearer-header env.random_token trimmed, given) refl

  key_kept :
      (hash_agent_key env env.random_token == "") ≡ false
      → present (new_host env s cfg cap).agent_key_hash ≡ some (hash_agent_key env env.random_token)
  unfolding present registration hash_agent_key
  key_kept hashed = rw hashed refl

  -- On a documented client, with ids, keys and hashes that are not empty, keys without white space
  -- around them, and a bcrypt that takes a key for what it made the hash of: the agent of a host
  -- that is not known joins with the shared token and gets a key, and once a user who may do what
  -- destroys has approved the host on its page, that key lets the agent through for it.
  pub ensure_registered-AdmittedHost :
      (status_text : ℕ → String) (b : Browser) (user : SessionUser) (c : Controls)
      → Admitted env true (Client.caller_of b) user
      → can_perform_destructive user.role ≡ true
      → (env.cuid s.next == "") ≡ false
      → (env.random_token == "") ≡ false
      → trim env.random_token ≡ env.random_token
      → (hash_agent_key env env.random_token == "") ≡ false
      → verify_agent_key env env.random_token (hash_agent_key env env.random_token) ≡ true
      → (t : Db) × (ensure_registered env cfg cap ip state s ≡ ((joined_state env s), t))
        × (u : Db) × (approve env status_text (env.cuid s.next) true (c, (b, t))
            ≡ (record { busy = none; error = none; refetches = c.refetches + 1 }, (b, u)))
        × AdmittedHost env
            (Join.caller_of (joined_state env s) ip)
            (env.cuid s.next)
            u
            (record (new_host env s cfg cap) { approved = true })
  ensure_registered-AdmittedHost status_text b user c a strong named given trimmed hashed verified =
      let (t, e, found) = joined_lem in
      let (u, k, admitted) =
        approve-AdmittedHost env d status_text b t user a strong (new_host env s cfg cap)
          (env.cuid s.next) named found c (Join.caller_of (joined_state env s) ip) env.random_token
          (hash_agent_key env env.random_token) (presented given trimmed) (key_kept hashed)
          verified in
      (t, e, u, k, admitted)
