-- ===== src/Scheduler.antt =====
-- apps/api/src/lib/scheduler.ts: the choice of a host, and the capacity that a tenant takes and gives
-- back.
pub mod Choice
pub mod Capacity
use xoom_agent_control.Prelude.{
  ℕ, String, Bool, true, false, ◌&&◌, ◌==◌, Option, none, some, List, [], ◌∷◌, ℤ, pos, ◌+ℤ◌, ◌-ℤ◌,
  leb_ℤ, find, get_or, if◌then◌else◌,
}
use xoom_agent_control.Enums.{is_online}
use xoom_agent_control.Rows.{Host}
use xoom_agent_control.Env.{Env}
use xoom_agent_control.Action.{Action, pure, ◌>>=◌, ◌>>◌}
use xoom_agent_control.Tables.{host_table}
use xoom_agent_control.Query.{find_many_by, update}

pub record RequiredResources : Type 0 where
  pub vcpu : ℕ
  pub ram_mb : ℕ
  pub disk_gb : ℕ

-- `(available ?? 0) >= required`
abbrev pub enough : Option ℤ → ℕ → Bool
enough available required = leb_ℤ (pos required) (get_or available (pos 0))

unfoldable pub fits : RequiredResources → Host → Bool
fits req h =
    enough h.available_cpu req.vcpu
    && enough h.available_ram_mb req.ram_mb
    && enough h.available_disk_gb req.disk_gb

-- `orderBy: { availableRamMb: "desc" }`, in which PostgreSQL puts a null first.
abbrev pub desc : Option ℤ → Option ℤ → Bool
desc none b = true
desc (some a) none = false
desc (some a) (some b) = leb_ℤ b a

unfoldable pub more_ram : Host → Host → Bool
more_ram g h = desc g.available_ram_mb h.available_ram_mb

abbrev pub is_candidate : Host → Bool
is_candidate h = is_online h.status && h.approved

-- The loop over the candidates.
unfoldable pub first_fit : RequiredResources → List Host → Option String
unfolding fits
first_fit req [] = none
first_fit req (h ∷ hosts) = if fits req h then some h.id else first_fit req hosts

-- `decrement` and `increment` leave a null as it is.
abbrev pub decrement : ℕ → Option ℤ → Option ℤ
decrement n none = none
decrement n (some a) = some (a -ℤ pos n)

abbrev pub increment : ℕ → Option ℤ → Option ℤ
increment n none = none
increment n (some a) = some (a +ℤ pos n)

unfoldable pub reserved : RequiredResources → Host → Host
unfolding ◌-ℤ◌
reserved req h = record h {
  available_cpu = decrement req.vcpu h.available_cpu;
  available_ram_mb = decrement req.ram_mb h.available_ram_mb;
  available_disk_gb = decrement req.disk_gb h.available_disk_gb;
}

unfoldable pub released : RequiredResources → Host → Host
unfolding ◌+ℤ◌
released req h = record h {
  available_cpu = increment req.vcpu h.available_cpu;
  available_ram_mb = increment req.ram_mb h.available_ram_mb;
  available_disk_gb = increment req.disk_gb h.available_disk_gb;
}

module _ (env : Env) where
  unfoldable pub select_host_for_tenant : RequiredResources → Action (Option String)
  unfolding find_many_by more_ram first_fit
  select_host_for_tenant req = do
    candidates ← find_many_by env host_table more_ram is_candidate
    pure (first_fit req candidates)

  unfoldable pub reserve_capacity : String → RequiredResources → Action Unit
  unfolding update reserved
  reserve_capacity host_id req = do
    update env host_table (λ h. h.id == host_id) (reserved req)
    pure tt

  unfoldable pub release_capacity : String → RequiredResources → Action Unit
  unfolding update released
  release_capacity host_id req = do
    update env host_table (λ h. h.id == host_id) (released req)
    pure tt
