-- ===== src/Agent/Firecracker/Registry.antt =====
-- The addresses and the registry of the machines of a host.
use Prim.Native.Char.{code}
use xoom_agent_control.Prelude.{
  ◌≡◌, refl, ◌≤◌, ℕ, ◌+◌, ◌*◌, ◌%◌, template, decimal, String, false, ◌==◌, none, some, List, [],
  ◌∷◌, find, arith, Bool-cases, Option-cases, eq_iff, inl, inr,
}
use text.Mathlib.TextPositions.{eq_refl}
use xoom_agent_control.Agent.Firecracker.{
  MicroVm, AgentEnv, char_code, slug_hash, allocate_ip, octet3, octet4, lookup, set, drop_vm,
  stop_microvm,
}

-- A text as a number in base 31, its characters the digits.
unfoldable pub number_of : ℕ → String → ℕ
number_of n String.[] = n
number_of n (String.◌∷◌ c s) = number_of (n * 31 + char_code (code c)) s

-- The remainder that the loop takes in each round is that of the whole number.
slug_hash-number_of :
    (h n : ℕ) (slug : String) → h ≡ n % 60000 → slug_hash h slug ≡ number_of n slug % 60000
unfolding slug_hash number_of
slug_hash-number_of h n String.[] e = e
slug_hash-number_of h n (String.◌∷◌ c s) e =
    slug_hash-number_of ((h * 31 + char_code (code c)) % 60000) (n * 31 + char_code (code c)) s
      (rw e (digits n (char_code (code c))))
  where
    digits : (n d : ℕ) → (n % 60000 * 31 + d) % 60000 ≡ (n * 31 + d) % 60000
    digits n d = omega arith

-- The address of a machine is 10.80.a.b, where a and b are taken from the slug, read as a number in
-- base 31 with no limit: a is 1 more than its remainder by 250, b is 10 more than that by 240. So
-- both fit in a byte, and none is the host's own 10.80.0.1.
pub allocate_ip_lem :
    (slug : String)
    → (a b : ℕ) × (allocate_ip slug ≡ template ("10.80." ∷ decimal a ∷ "." ∷ decimal b ∷ []))
      × (a ≡ 1 + number_of 0 slug % 250)
      × (b ≡ 10 + number_of 0 slug % 240)
      × (1 ≤ a)
      × (a ≤ 250)
      × (10 ≤ b)
      × (b ≤ 249)
unfolding allocate_ip octet3 octet4
allocate_ip_lem slug =
    let h = slug_hash-number_of 0 0 slug (omega arith) in
    let thirds : 1 + slug_hash 0 slug % 250 ≡ 1 + number_of 0 slug % 250 = rw h (omega arith) in
    let fourths : 10 + slug_hash 0 slug % 240 ≡ 10 + number_of 0 slug % 240 = rw h (omega arith) in
    (
      1 + slug_hash 0 slug % 250,
      10 + slug_hash 0 slug % 240,
      refl,
      thirds,
      fourths,
      omega arith,
      omega arith,
      omega arith,
      omega arith,
    )

-- A machine that is set in the registry is found under its slug.
pub lookup-set : (vm : MicroVm) (vms : List MicroVm) → lookup vm.tenant_slug (set vm vms) ≡ some vm
unfolding find set
lookup-set vm [] = rw (eq_refl vm.tenant_slug)
lookup-set vm (v ∷ vms) = elim (Bool-cases (v.tenant_slug == vm.tenant_slug)) [
  | inl hit ↦ rw (hit, eq_refl vm.tenant_slug)
  | inr miss ↦ rw (miss, miss) (lookup-set vm vms)
]

-- Setting a machine in the registry leaves what is found under any other slug.
pub lookup-set_other :
    (slug : String) (vm : MicroVm) (vms : List MicroVm)
    → (vm.tenant_slug == slug) ≡ false
    → lookup slug (set vm vms) ≡ lookup slug vms
unfolding find set
lookup-set_other slug vm [] e = rw e
lookup-set_other slug vm (v ∷ vms) e = elim (Bool-cases (v.tenant_slug == vm.tenant_slug)) [
  | inl hit ↦
      let other : (v.tenant_slug == slug) ≡ false =
        rw ((eq_iff v.tenant_slug vm.tenant_slug).0 hit) e in
      rw (hit, e, other)
  | inr miss ↦ elim (Bool-cases (v.tenant_slug == slug)) [
    | inl here ↦ rw (miss, here)
    | inr past ↦ rw (miss, past) (lookup-set_other slug vm vms e)
  ]
]

pub lookup-drop_vm : (slug : String) (vms : List MicroVm) → lookup slug (drop_vm slug vms) ≡ none
unfolding find drop_vm
lookup-drop_vm slug [] = refl
lookup-drop_vm slug (v ∷ vms) = ground (arith, lookup-drop_vm slug vms)

-- A machine that is stopped is no longer registered.
pub lookup-stop_microvm :
    (agent : AgentEnv) (slug : String) (vms : List MicroVm)
    → lookup slug (stop_microvm agent slug vms) ≡ none
unfolding find stop_microvm
lookup-stop_microvm agent slug vms = elim (Option-cases (lookup slug vms)) [
  | inl gone ↦ rw (stop_microvm, gone) gone
  | inr (vm, e) ↦ rw (stop_microvm, e) (lookup-drop_vm slug vms)
]
