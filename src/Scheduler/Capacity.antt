-- ===== src/Scheduler/Capacity.antt =====
-- Reservations and releases.
use xoom_agent_control.Prelude.{
  ◌≡◌, refl, Bool-cases, inl, inr, ℕ, String, Bool, false, Option, none, some, List, [], ◌∷◌, ◌==◌,
  ℤ, -ℤ-+ℤ_cancel, arith, modify_first,
}
use xoom_agent_control.Rows.{Host, Db}
use xoom_agent_control.Prisma.{Documented}
use xoom_agent_control.Env.{Env, by_standard}
use xoom_agent_control.Action.{◌>>◌}
use xoom_agent_control.Scheduler.{
  RequiredResources, reserved, released, decrement, increment, reserve_capacity, release_capacity,
}

increment-decrement : (n : ℕ) (a : Option ℤ) → increment n (decrement n a) ≡ a
increment-decrement n none = refl
increment-decrement n (some a) = rw -ℤ-+ℤ_cancel

-- A release undoes a reservation of the same resources, whatever is left on the host.
pub released-reserved : (req : RequiredResources) (h : Host) → released req (reserved req h) ≡ h
unfolding released reserved
released-reserved req h = λ i. record h {
  available_cpu = increment-decrement req.vcpu h.available_cpu i;
  available_ram_mb = increment-decrement req.ram_mb h.available_ram_mb i;
  available_disk_gb = increment-decrement req.disk_gb h.available_disk_gb i;
}

module _ (id : String) (req : RequiredResources) where
  abbrev at : Host → Bool
  at h = h.id == id

  id-reserved : (h : Host) → at (reserved req h) ≡ at h
  unfolding reserved
  id-reserved h = refl

  -- Where the rows go after both changes.
  abbrev back : Option (Host × List Host) → List Host → List Host
  back none hosts = hosts
  back (some (h, hosts')) hosts = elim (modify_first at (released req) hosts') [
    | none ↦ hosts'
    | some (g, hosts'') ↦ hosts''
  ]

  back-cons :
      (x : Host) (hosts : List Host) (r : Option (Host × List Host))
      → at x ≡ false
      → back r hosts ≡ hosts
      → back (elim r [ none ↦ none | some (y, ys) ↦ some (y, x ∷ ys) ]) (x ∷ hosts) ≡ x ∷ hosts
  unfolding modify_first
  back-cons x hosts none miss h = refl
  back-cons x hosts (some (y, ys)) miss h = ground arith

  back-modify_first :
      (hosts : List Host) → back (modify_first at (reserved req) hosts) hosts ≡ hosts
  unfolding modify_first
  back-modify_first [] = refl
  back-modify_first (x ∷ hosts) = elim (Bool-cases (at x)) [
    | inl hit ↦ ground (arith, id-reserved x, released-reserved req x)
    | inr miss ↦
        rw miss
          (back-cons x hosts (modify_first at (reserved req) hosts) miss (back-modify_first hosts))
  ]

-- On a documented client, resources that are reserved on a host and then released leave the
-- database as it was, also if there is no such host.
pub release_capacity-reserve_capacity :
    (env : Env) (id : String) (req : RequiredResources) (s : Db)
    → Documented env.client
    → ((reserve_capacity env id req >> release_capacity env id req) s).1 ≡ s
unfolding reserve_capacity release_capacity
release_capacity-reserve_capacity env id req s d =
    by_standard (λ e. ((reserve_capacity e id req >> release_capacity e id req) s).1 ≡ s) env d
      (ground (arith, back-modify_first id req s.hosts))
