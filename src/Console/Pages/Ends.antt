-- ===== src/Console/Pages/Ends.antt =====
-- How the actions of the pages end.
use xoom_agent_control.Prelude.{
  ◌≡◌, refl, ap, ℕ, String, Bool, true, false, ◌==◌, find, if◌then◌else◌, Option, none, some, [],
  ◌∷◌, template, not, ◌&&◌, ◌*◌, leb, Bool-cases, inl, inr, arith,
}
use xoom_agent_control.Prisma.{Documented}
use xoom_agent_control.Rows.{Db, Tenant}
use xoom_agent_control.Env.{Env, SessionUser}
use xoom_agent_control.Enums.{UserRole}
use xoom_agent_control.Guards.{require_user, is_auditor}
use xoom_agent_control.Auth.{can_write}
use xoom_agent_control.Guards.Admission.{Admitted, require_user-admits}
use xoom_agent_control.Tenants.Create.Refusals.{create_tenant-taken}
use xoom_agent_control.Tenants.Routes.{post_tenant, create_as}
use xoom_agent_control.Commands.{retry_command}
use xoom_agent_control.Action.{respond}
use xoom_agent_control.Requests.{CreateTenantRequest}
use xoom_agent_control.Console.Client.{Browser, api, caller_of}
use xoom_agent_control.Console.Dialog.{Dialog, request_of}
use xoom_agent_control.Console.Slug.{is_slug}
use xoom_agent_control.Console.Validation.{is_valid_request}
use xoom_agent_control.Console.Pages.{Controls, Creating, submit, retry}

can_write-not_auditor : (role : UserRole) → can_write role ≡ false → is_auditor role ≡ true
unfolding can_write
can_write-not_auditor UserRole.read_only_auditor h = refl
can_write-not_auditor UserRole.platform_owner h = cc
can_write-not_auditor UserRole.msp_admin h = cc
can_write-not_auditor UserRole.support_engineer h = cc
can_write-not_auditor UserRole.tenant_admin h = cc

-- What the API asks of the fields of the dialog: a name, a slug, and some of each resource.
abbrev pub is_complete : Dialog → Bool
is_complete f =
    not (f.name == "") && is_slug f.slug && (leb 1 f.vcpu && leb 1 f.ram_gb && leb 1 f.disk_gb)

abbrev pub taken_message : String → String
taken_message slug = template ("Tenant slug \"" ∷ slug ∷ "\" already exists" ∷ [])

and_true : (b : Bool) → (b && true) ≡ b
and_true true = refl
and_true false = refl

-- The one limit that the dialog leaves out is valid.
without_agents : (n s v r d : Bool) → (n && s && (v && r && d && true)) ≡ (n && s && (v && r && d))
without_agents n s v r d = ap (λ x. n && s && x) (and_true (v && r && d))

one_kilo : (n : ℕ) → leb 1 (n * 1024) ≡ leb 1 n
one_kilo n = ground arith

is_valid_request-request_of : (f : Dialog) → is_valid_request (request_of f) ≡ is_complete f
unfolding is_valid_request request_of
is_valid_request-request_of f = rw (one_kilo f.ram_gb) (
    without_agents (not (f.name == "")) (is_slug f.slug) (leb 1 f.vcpu) (leb 1 f.ram_gb)
      (leb 1 f.disk_gb))

module _ (env : Env) (d : Documented env.client) (status_text : ℕ → String) (b : Browser) (s : Db)
    (user : SessionUser) where
  -- On a documented client, where a user who may write submits the dialog with a slug that another
  -- tenant has, the dialog stays as it is and nothing is created: the dialog says that the slug is
  -- taken where its name is not empty, its slug is well formed and none of its three resources is
  -- zero, and shows the message of the validation otherwise.
  pub submit-taken :
      (message_of : CreateTenantRequest → String) (f : Dialog) (c : Creating) (t : Tenant)
      → Admitted env true (caller_of b) user
      → find (λ t. t.slug == f.slug) s.tenants ≡ some t
      → submit env status_text message_of f (c, (b, s)) ≡ (
        record {
          shown = c.shown;
          busy = false;
          error = some (if is_complete f then taken_message f.slug else message_of (request_of f));
          refetches = c.refetches;
        },
        (b, s),
      )
  unfolding submit api post_tenant respond request_of
  submit-taken message_of f c t a taken = elim (Bool-cases (is_complete f)) [
    | inl full ↦
        rw
          (
            is_valid_request-request_of f,
            full,
            require_user-admits env true (caller_of b) (create_as env (caller_of b) (request_of f))
                user s a,
            create_tenant-taken env (request_of f) s t d taken,
          )
          refl
    | inr lacking ↦ rw (is_valid_request-request_of f, lacking) refl
  ]

module _ (env : Env) (status_text : ℕ → String) (b : Browser) (s : Db) (user : SessionUser) where
  -- A retry by a read-only auditor with a valid session changes nothing, and the page shows no
  -- error, whether the framework refuses the empty body of the request or the guard the role.
  pub retry-auditor :
      (empty_body : Option String) (id : String) (c : Controls)
      → Admitted env false (caller_of b) user
      → can_write user.role ≡ false
      → retry env status_text empty_body id (c, (b, s)) ≡ (record c { busy = none }, (b, s))
  unfolding retry api retry_command respond require_user
  retry-auditor (some message) id c a reads = refl
  retry-auditor none id c a reads =
      rw (a.presented, a.verified, can_write-not_auditor user.role reads) refl
