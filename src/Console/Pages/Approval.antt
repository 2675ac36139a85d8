-- ===== src/Console/Pages/Approval.antt =====
-- From the approval of a host on its page to the first poll of its agent.
use xoom_agent_control.Prelude.{
  ◌≡◌, refl, ap, ◌∙◌, ℕ, ◌+◌, String, true, false, ◌==◌, none, some, [], ◌∷◌, find, present,
}
use xoom_agent_control.Prisma.{Documented}
use xoom_agent_control.Json.{bool, obj, object}
use xoom_agent_control.Rows.{Db, Host}
use xoom_agent_control.Env.{Env, SessionUser}
use xoom_agent_control.Auth.{can_perform_destructive, verify_agent_key}
use xoom_agent_control.Guards.{Caller, bearer}
use xoom_agent_control.Guards.Admission.{Admitted, AdmittedHost, require_user-admits}
use xoom_agent_control.Action.{respond}
use xoom_agent_control.Tables.{host_table}
use xoom_agent_control.Query.Laws.{update-find}
use xoom_agent_control.Audit.{host_approved}
use xoom_agent_control.Tenants.Routes.{context_of}
use xoom_agent_control.Hosts.Admin.{approve_host, approve_as}
use xoom_agent_control.Hosts.Queue.Settled.{audit_lem}
use xoom_agent_control.Console.Client.{Browser, api, caller_of}
use xoom_agent_control.Console.Pages.{Controls, approve}

module _ (env : Env) (d : Documented env.client) (status_text : ℕ → String) (b : Browser) (s : Db)
    (user : SessionUser) (a : Admitted env true (caller_of b) user)
    (strong : can_perform_destructive user.role ≡ true) (host : Host) (id : String)
    (named : (id == "") ≡ false) (stored : find (λ h. h.id == id) s.hosts ≡ some host) where
  approved :
      (c : Controls)
      → (t : Db) × (approve env status_text id true (c, (b, s))
          ≡ (record { busy = none; error = none; refetches = c.refetches + 1 }, (b, t)))
        × (find (λ h. h.id == id) t.hosts ≡ some (record host { approved = true }))
  unfolding approve api approve_host respond
  approved c =
      let (rows, e, found, m) =
        update-find env d host_table (λ h. h.id == id) (λ h. record h { approved = true }) s host
          (λ r. refl) stored in
      let (t, noted, same) =
        audit_lem env (context_of user (caller_of b)) host_approved "host" host.id
          (obj (object (("approved", bool true) ∷ []))) (record s { hosts = rows }) in
      (
        t,
        rw
            (
              require_user-admits env true (caller_of b) (approve_as env (caller_of b) id true) user
                  s a,
              strong,
              e,
              noted,
            )
            refl,
        ap (λ v. find (λ h. h.id == id) v.0) same ∙ found,
      )

  -- On a documented client, a user who may do what destroys and approves a stored host on its page
  -- gets no error; the agent that holds the key of the host is from then on let through for it.
  pub approve-AdmittedHost :
      (c : Controls) (agent : Caller) (token hash : String)
      → present (bearer agent.authorization) ≡ some token
      → present host.agent_key_hash ≡ some hash
      → verify_agent_key env token hash ≡ true
      → (t : Db) × (approve env status_text id true (c, (b, s))
          ≡ (record { busy = none; error = none; refetches = c.refetches + 1 }, (b, t)))
        × AdmittedHost env agent id t (record host { approved = true })
  approve-AdmittedHost c agent token hash presented has_key verified =
      let (t, e, found) = approved c in
      (
        t,
        e,
        record {
          named = named;
          token = token;
          hash = hash;
          presented = presented;
          stored = found;
          is_approved = refl;
          has_key = has_key;
          verified = verified;
        },
      )
