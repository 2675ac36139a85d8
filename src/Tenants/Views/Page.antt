-- ===== src/Tenants/Views/Page.antt =====
-- What the list of the tenants shows.
use mathlib.Core.List.{reverse}
use xoom_agent_control.Prelude.{String, ◌==◌, Option, none, some, List, find, select, take, drop}
use xoom_agent_control.Rows.{Db, Tenant, Host}
use xoom_agent_control.Env.{Env}
use xoom_agent_control.Requests.{ListQuery}
use xoom_agent_control.Tenants.Views.{TenantItem, tenant_matches}

abbrev host_row : Db → Option String → Option Host
host_row s none = none
host_row s (some id) = find (λ h. h.id == id) s.hosts

-- A tenant with its host and its limits.
abbrev pub item_of : Db → Tenant → TenantItem
item_of s t = record {
  tenant = t;
  assigned_host = host_row s t.assigned_host_id;
  resource_limits = find (λ l. l.tenant_id == t.id) s.limits;
}

abbrev pub matching : Env → ListQuery → Db → List Tenant
matching env q s = select (tenant_matches env q) s.tenants

abbrev pub shown : Env → ListQuery → Db → List Tenant
shown env q s = take q.limit (drop q.offset (reverse (matching env q s)))
