-- ===== src/Guards/Admission.antt =====
-- Who gets past the guards.
use xoom_agent_control.Prelude.{
  ◌≡◌, refl, ◌⊎◌, inl, inr, ℕ, String, Bool, true, false, ◌==◌, Option, none, some, find, present,
  Bool-cases, Option-cases,
}
use xoom_agent_control.Prisma.{Documented}
use xoom_agent_control.Enums.{UserRole}
use xoom_agent_control.Rows.{Db, Host}
use xoom_agent_control.Env.{Env, SessionUser}
use xoom_agent_control.Auth.{can_write, verify_session, verify_agent_key}
use xoom_agent_control.Action.{Action, Reply, refuse, ErrorBody, ok, reject_with}
use xoom_agent_control.Guards.{
  Caller, bearer, is_auditor, require_user, require_host, admit, admit_host,
}

-- The session of a caller that `requireUser` lets through.
pub record Admitted (env : Env) (write : Bool) (caller : Caller) (user : SessionUser) : Type 0 where
  pub token : String
  pub presented : present (bearer caller.authorization) ≡ some token
  pub verified : verify_session env token env.config.jwt_secret ≡ some user
  pub may_write : write ≡ true → can_write user.role ≡ true

abbrev pub Refused : {A : Type 0} → Action (Reply A) → Db → Type 0
Refused action s = (code : ℕ) × (body : ErrorBody) × (action s ≡ (ok (refuse code body), s))

pub can_write-is_auditor : (role : UserRole) → is_auditor role ≡ false → can_write role ≡ true
unfolding can_write
can_write-is_auditor UserRole.read_only_auditor h = cc
can_write-is_auditor role h = refl

admit-Admitted :
    {A : Type 0} (env : Env) (write : Bool) (caller : Caller)
    (handler : SessionUser → Action (Reply A)) (s : Db) (token : String)
    → present (bearer caller.authorization) ≡ some token
    → (found : Option SessionUser) → verify_session env token env.config.jwt_secret ≡ found
    → Refused (admit env write found handler) s
      ⊎ ((user : SessionUser) × Admitted env write caller user
          × (admit env write found handler s ≡ handler user s))
admit-Admitted env write caller handler s token p none e =
    inl (401, record { error = "unauthorized"; message = some "Invalid or expired token" }, refl)
admit-Admitted env true caller handler s token p (some user) e =
    elim (Bool-cases (is_auditor user.role)) [
      | inl auditor ↦ inl (
        403,
        record { error = "forbidden"; message = some "Read-only role cannot perform writes" },
        rw auditor,
      )
      | inr other ↦ inr (
        user,
        record {
          token = token;
          presented = p;
          verified = e;
          may_write = λ w. can_write-is_auditor user.role other;
        },
        rw other,
      )
    ]
admit-Admitted env false caller handler s token p (some user) e =
    inr (user, record { token = token; presented = p; verified = e; may_write = λ w. cc }, refl)

-- A guarded operator route either refuses and leaves the database as it was, or runs its
-- handler as the user that the bearer token of the caller stands for; a route that writes is
-- never run for a read-only auditor.
pub require_user-Admitted :
    {A : Type 0} (env : Env) (write : Bool) (caller : Caller)
    (handler : SessionUser → Action (Reply A)) (s : Db)
    → Refused (require_user env write caller handler) s
      ⊎ ((user : SessionUser) × Admitted env write caller user
          × (require_user env write caller handler s ≡ handler user s))
unfolding require_user
require_user-Admitted env write caller handler s =
    elim (Option-cases (present (bearer caller.authorization))) [
      | inl e ↦
          inl (401, record { error = "unauthorized"; message = some "Missing bearer token" }, rw e)
      | inr (token, e) ↦ rw e (admit-Admitted env write caller handler s token e _ refl)
    ]

-- The host that `requireHost` lets through: it is in the database, approved, and the caller's bearer
-- token is its agent key.
pub record AdmittedHost (env : Env) (caller : Caller) (id : String) (s : Db) (host : Host)
    : Type 0 where
  pub named : (id == "") ≡ false
  pub token : String
  pub hash : String
  pub presented : present (bearer caller.authorization) ≡ some token
  pub stored : find (λ h. h.id == id) s.hosts ≡ some host
  pub is_approved : host.approved ≡ true
  pub has_key : present host.agent_key_hash ≡ some hash
  pub verified : verify_agent_key env token hash ≡ true

refusal :
    {A : Type 0} (message : String) (s : Db)
    → Refused {A = A} (reject_with 401 "unauthorized" message) s
refusal message s = (401, record { error = "unauthorized"; message = some message }, refl)

module _ {A : Type 0} (env : Env) (caller : Caller) (host_id : String)
    (handler : String → Action (Reply A)) (s : Db) where
  abbrev pub LetsThrough : Action (Reply A) → Type 0
  LetsThrough action =
      Refused action s
      ⊎ ((host : Host) × AdmittedHost env caller host_id s host × (action s ≡ handler host.id s))

  admit_host-AdmittedHost :
      (token : String)
      → (host_id == "") ≡ false
      → present (bearer caller.authorization) ≡ some token
      → (found : Option Host) → find (λ h. h.id == host_id) s.hosts ≡ found
      → LetsThrough (admit_host env token found handler)
  admit_host-AdmittedHost token named p none e = inl (refusal "Unknown or unapproved host" s)
  admit_host-AdmittedHost token named p (some host) e = elim (Bool-cases host.approved) [
    | inr n ↦ inl (rw n (refusal "Unknown or unapproved host" s))
    | inl approved ↦ elim (Option-cases (present host.agent_key_hash)) [
      | inl n ↦ inl (rw (approved, n) (refusal "Unknown or unapproved host" s))
      | inr (hash, h) ↦ elim (Bool-cases (verify_agent_key env token hash)) [
        | inr n ↦ inl (rw (approved, h, n) (refusal "Invalid host credential" s))
        | inl v ↦ inr (
          host,
          record {
            named = named;
            token = token;
            hash = hash;
            presented = p;
            stored = e;
            is_approved = approved;
            has_key = h;
            verified = v;
          },
          rw (approved, h, v),
        )
      ]
    ]
  ]

  -- On a documented client, a route of the host agents either refuses and leaves the database
  -- as it was, or runs its handler for a host that is stored under the id of the URL, is
  -- approved, and whose agent key is the bearer token of the caller.
  pub require_host-AdmittedHost :
      Documented env.client → LetsThrough (require_host env caller host_id handler)
  unfolding require_host
  require_host-AdmittedHost d = elim (Option-cases (present (bearer caller.authorization))) [
    | inl e ↦ inl (rw e (refusal "Missing host credential" s))
    | inr (token, e) ↦ elim (Bool-cases (host_id == "")) [
      | inl blank ↦ inl (rw (e, blank) (refusal "Missing host credential" s))
      | inr given ↦
          rw (e, given, d.find_first_lem Host (λ h. h.id == host_id) s.hosts)
            (admit_host-AdmittedHost token given e _ refl)
    ]
  ]

-- A caller who is admitted in one database is let through in every one with the same hosts.
pub require_host-admits :
    {A : Type 0} (env : Env) (caller : Caller) (host_id : String)
    (handler : String → Action (Reply A)) (s t : Db) (host : Host)
    → Documented env.client
    → AdmittedHost env caller host_id s host
    → t.hosts ≡ s.hosts
    → require_host env caller host_id handler t ≡ handler host.id t
unfolding require_host
require_host-admits env caller host_id handler s t host d a same = rw (
  a.presented,
  a.named,
  d.find_first_lem Host (λ h. h.id == host_id) t.hosts,
  same,
  a.stored,
  a.is_approved,
  a.has_key,
  a.verified,
)

is_auditor-can_write : (role : UserRole) → can_write role ≡ true → is_auditor role ≡ false
unfolding can_write
is_auditor-can_write UserRole.read_only_auditor h = cc
is_auditor-can_write UserRole.platform_owner h = refl
is_auditor-can_write UserRole.msp_admin h = refl
is_auditor-can_write UserRole.support_engineer h = refl
is_auditor-can_write UserRole.tenant_admin h = refl

-- A user who is admitted to a route has its handler run.
pub require_user-admits :
    {A : Type 0} (env : Env) (write : Bool) (caller : Caller)
    (handler : SessionUser → Action (Reply A)) (user : SessionUser) (s : Db)
    → Admitted env write caller user
    → require_user env write caller handler s ≡ handler user s
unfolding require_user
require_user-admits env false caller handler user s a = rw (a.presented, a.verified) refl
require_user-admits env true caller handler user s a =
    rw (a.presented, a.verified, is_auditor-can_write user.role (a.may_write refl)) refl
