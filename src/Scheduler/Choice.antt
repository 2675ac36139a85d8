-- ===== src/Scheduler/Choice.antt =====
-- Which host the scheduler takes.
use mathlib.Core.List.{Mem}
use xoom_agent_control.Prelude.{
  ◌≡◌, refl, subst, fun_ext, ℕ, ℤ, pos, negsuc, leb, String, Bool, true, false, ◌&&◌, Option, none,
  some, List, [], ◌∷◌, find, select, arith,
}
use xoom_agent_control.Prisma.{Documented, IsPreorder}
use xoom_agent_control.Prisma.Order.{First, find-order_by, find-order_by_none}
use xoom_agent_control.Enums.{HostStatus, online, offline, draining, maintenance, is_online}
use xoom_agent_control.Rows.{Host, Db}
use xoom_agent_control.Env.{Env, by_standard}
use xoom_agent_control.Action.{ok}
use xoom_agent_control.Scheduler.{
  RequiredResources, enough, desc, fits, more_ram, is_candidate, first_fit, select_host_for_tenant,
}

-- Whether an operator and the agent let tenants onto a host.
abbrev pub is_open : HostStatus → Bool → Bool
is_open online approved = approved
is_open offline approved = false
is_open draining approved = false
is_open maintenance approved = false

-- Whether a demand is covered by what is available; what is unknown covers nothing, and what is
-- below zero not even that.
abbrev pub covers : Option ℤ → ℕ → Bool
covers none n = leb n 0
covers (some (pos a)) n = leb n a
covers (some (negsuc a)) n = false

-- Room in all three resources.
abbrev pub has_room : RequiredResources → Host → Bool
has_room req h =
    covers h.available_cpu req.vcpu
    && covers h.available_ram_mb req.ram_mb
    && covers h.available_disk_gb req.disk_gb

-- A host that may take the tenant: online, approved, and with room.
abbrev pub can_take : RequiredResources → Host → Bool
can_take req h = is_open h.status h.approved && has_room req h

-- At least as much free RAM; what is unknown counts as more than any number.
abbrev pub at_least : Option ℤ → Option ℤ → Bool
at_least none b = true
at_least (some a) none = false
at_least (some (pos a)) (some (pos b)) = leb b a
at_least (some (pos a)) (some (negsuc b)) = true
at_least (some (negsuc a)) (some (pos b)) = false
at_least (some (negsuc a)) (some (negsuc b)) = leb a b

-- What the scheduler has to answer: a host that can take the tenant, with the most free RAM among
-- those, or nothing if no host can.
abbrev pub IsBestChoice : RequiredResources → List Host → Option String → Type 0
IsBestChoice req hosts none = (h : Host) → Mem h hosts → can_take req h ≡ false
IsBestChoice req hosts (some id) =
    (h : Host) × (h.id ≡ id)
    × First (λ g k. at_least g.available_ram_mb k.available_ram_mb) (can_take req) hosts h

-- The code's own tests are these.
enough-covers : (available : Option ℤ) (n : ℕ) → enough available n ≡ covers available n
enough-covers none n = ground arith
enough-covers (some (pos a)) n = ground arith
enough-covers (some (negsuc a)) n = ground arith

candidate-is_open :
    (status : HostStatus) (approved : Bool)
    → (is_online status && approved) ≡ is_open status approved
candidate-is_open online approved = refl
candidate-is_open offline approved = refl
candidate-is_open draining approved = refl
candidate-is_open maintenance approved = refl

desc-at_least : (a b : Option ℤ) → desc a b ≡ at_least a b
desc-at_least none b = refl
desc-at_least (some a) none = refl
desc-at_least (some (pos a)) (some (pos b)) = ground arith
desc-at_least (some (pos a)) (some (negsuc b)) = ground arith
desc-at_least (some (negsuc a)) (some (pos b)) = ground arith
desc-at_least (some (negsuc a)) (some (negsuc b)) = ground arith

takes-can_take :
    (req : RequiredResources) (h : Host) → (is_candidate h && fits req h) ≡ can_take req h
unfolding fits
takes-can_take req h =
    rw
      (
        candidate-is_open h.status h.approved,
        enough-covers h.available_cpu req.vcpu,
        enough-covers h.available_ram_mb req.ram_mb,
        enough-covers h.available_disk_gb req.disk_gb,
      )
      refl

more_ram-at_least : more_ram ≡ (λ g k. at_least g.available_ram_mb k.available_ram_mb)
unfolding more_ram
more_ram-at_least = fun_ext λ g. fun_ext λ k. desc-at_least g.available_ram_mb k.available_ram_mb

more_ram-IsPreorder : IsPreorder more_ram
unfolding more_ram
more_ram-IsPreorder = record { total = λ a b. ground arith; trans = λ a b c h k. ground arith }

abbrev id_of : Option Host → Option String
id_of none = none
id_of (some h) = some h.id

-- The two loops are one search.
first_fit-select :
    (req : RequiredResources) (hosts : List Host)
    → first_fit req (select is_candidate hosts)
      ≡ id_of (find (λ h. is_candidate h && fits req h) hosts)
unfolding first_fit select find
first_fit-select req [] = refl
first_fit-select req (h ∷ hosts) = ground (arith, first_fit-select req hosts)

IsBestChoice-find :
    (env : Env) (req : RequiredResources) (hosts : List Host)
    → Documented env.client
    → (found : Option Host)
    → find (λ h. is_candidate h && fits req h) (env.client.order_by Host more_ram hosts) ≡ found
    → IsBestChoice req hosts (id_of found)
IsBestChoice-find env req hosts d none e =
    find-order_by_none d.sorts more_ram (can_take req) hosts
      (rw (fun_ext (takes-can_take req)) at e)
IsBestChoice-find env req hosts d (some h) e = (
  h,
  refl,
  subst (λ before. First before (can_take req) hosts h) more_ram-at_least
      (find-order_by d.sorts more_ram (can_take req) hosts more_ram-IsPreorder h
        (rw (fun_ext (takes-can_take req)) at e)),
)

-- On a documented client, the scheduler changes nothing, and answers with an approved, online
-- host that has room for the tenant in all three resources and the most free RAM of all such
-- hosts, where an unknown amount of RAM counts as the most but as none for the room, or with
-- nothing where there is no such host.
pub select_host_for_tenant-IsBestChoice :
    (env : Env) (req : RequiredResources) (s : Db)
    → Documented env.client
    → (id : Option String) × (select_host_for_tenant env req s ≡ (ok id, s))
      × IsBestChoice req s.hosts id
select_host_for_tenant-IsBestChoice env req s d =
    by_standard
      (λ e.
        (id : Option String) × (select_host_for_tenant e req s ≡ (ok id, s))
        × IsBestChoice req s.hosts id)
      env d
      (
        id_of
            (find (λ h. is_candidate h && fits req h) (env.client.order_by Host more_ram s.hosts)),
        unfold select_host_for_tenant in
            rw (first_fit-select req (env.client.order_by Host more_ram s.hosts)),
        IsBestChoice-find env req s.hosts d _ refl,
      )
