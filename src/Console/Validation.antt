-- ===== src/Console/Validation.antt =====
-- The check of packages/shared-types/src/admin.ts (`CreateTenantRequest`) that the API runs on the
-- body of a creation before any handler, and the answer of apps/api/src/app.ts where it fails. The
-- message of the error is given, since the validator words it.
use xoom_agent_control.Prelude.{
  ℕ, String, Bool, true, not, ◌&&◌, ◌==◌, Option, none, some, leb, if◌then◌else◌,
}
use xoom_agent_control.Action.{Action, Reply, reject_with}
use xoom_agent_control.Requests.{CreateTenantRequest, LimitsInput}
use xoom_agent_control.Console.Slug.{is_slug}

-- `z.number().int().positive()`, of a field that may be left out
abbrev pub positive_if_given : Option ℕ → Bool
positive_if_given none = true
positive_if_given (some n) = leb 1 n

-- `ResourceLimits.partial().optional()`; the other limits may be any natural number.
abbrev pub are_valid_limits : Option LimitsInput → Bool
are_valid_limits none = true
are_valid_limits (some l) =
    positive_if_given l.vcpu
    && positive_if_given l.ram_mb
    && positive_if_given l.disk_gb
    && positive_if_given l.max_agents

-- `CreateTenantRequest`, on a body of the right types
unfoldable pub is_valid_request : CreateTenantRequest → Bool
unfolding is_slug
is_valid_request r = not (r.name == "") && is_slug r.slug && are_valid_limits r.resource_limits

-- The validation goes before the handler and its guard.
abbrev pub validated :
    {A : Type 0}
    → (CreateTenantRequest → String)
    → CreateTenantRequest
    → Action (Reply A)
    → Action (Reply A)
validated message_of r handler =
    if is_valid_request r then handler else reject_with 400 "validation_error" (message_of r)
