-- ===== src/Tenants/Create/Refusals.antt =====
-- Requests that create nothing.
use xoom_agent_control.Prelude.{◌≡◌, refl, ◌==◌, some, [], ◌∷◌, find, template}
use xoom_agent_control.Prisma.{Documented}
use xoom_agent_control.Rows.{Db, Tenant}
use xoom_agent_control.Env.{Env, by_standard}
use xoom_agent_control.Action.{throw}
use xoom_agent_control.Requests.{CreateTenantRequest}
use xoom_agent_control.Tenants.Create.{create_tenant}

-- On a documented client, the creation of a tenant whose slug another tenant has throws an
-- error with the status 409, and creates nothing.
pub create_tenant-taken :
    (env : Env) (input : CreateTenantRequest) (s : Db) (t : Tenant)
    → Documented env.client
    → find (λ t. t.slug == input.slug) s.tenants ≡ some t
    → create_tenant env input s ≡ (
      throw (record {
        status_code = some 409;
        message = template ("Tenant slug \"" ∷ input.slug ∷ "\" already exists" ∷ []);
      }),
      s,
    )
create_tenant-taken env input s t d e =
    by_standard
      (λ v. create_tenant v input s ≡ (
        throw (record {
          status_code = some 409;
          message = template ("Tenant slug \"" ∷ input.slug ∷ "\" already exists" ∷ []);
        }),
        s,
      ))
      env d (unfold create_tenant in rw e refl)
