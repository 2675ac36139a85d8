-- ===== src/Agent/Firecracker.antt =====
-- host-agent/src/firecracker.ts: the registry of the MicroVMs that run on a host. The programs that
-- the real mode starts (cp, resize2fs, ip, nft, firecracker) are in the settings of the agent.
pub mod Registry
use Prim.Native.Char.{code}
use xoom_agent_control.Prelude.{
  ℕ, ◌+◌, ◌-◌, ◌*◌, ◌/◌, ◌%◌, String, Bool, ◌==◌, Option, none, some, List, [], ◌∷◌, ltb, find,
  template, decimal, if◌then◌else◌,
}
use xoom_agent_control.Json.{Json}
use xoom_agent_control.Agent.Payload.{CreateTenantCommandPayload}

pub record MicroVm : Type 0 where
  pub microvm_id : String
  pub tenant_slug : String
  pub tenant_internal_ip : String
  pub socket_path : String

-- What the agent's configuration, its validator and its machine decide.
pub record AgentEnv : Type 0 where
  pub mock_mode : Bool
  pub tenants_dir : String
  -- `path.join` of Node
  pub join_path : List String → String
  pub is_url : String → Bool
  -- the message of the error that a failed validation throws
  pub parse_error : Json → String
  -- the message of the error that starting a machine throws, if it does
  pub boot_error : CreateTenantCommandPayload → Option String
  -- the message of the error that removing a tenant's directory throws, if it does
  pub remove_error : String → Option String
  -- `Date.now()`
  pub now : ℕ

-- `charCodeAt(0)` of a character: above U+FFFF, the first half of its surrogate pair.
unfoldable pub char_code : ℕ → ℕ
char_code c = if ltb c 65536 then c else 55296 + (c - 65536) / 1024

-- The loop of `allocateIp`.
unfoldable pub slug_hash : ℕ → String → ℕ
unfolding char_code
slug_hash h String.[] = h
slug_hash h (String.◌∷◌ c s) = slug_hash ((h * 31 + char_code (code c)) % 60000) s

unfoldable pub octet3 : String → ℕ
unfolding slug_hash
octet3 slug = 1 + slug_hash 0 slug % 250

unfoldable pub octet4 : String → ℕ
unfolding slug_hash
octet4 slug = 10 + slug_hash 0 slug % 240

unfoldable pub allocate_ip : String → String
unfolding octet3 octet4 decimal template
allocate_ip slug = template ("10.80." ∷ decimal (octet3 slug) ∷ "." ∷ decimal (octet4 slug) ∷ [])

-- `Map.prototype.get`, `set` and `delete`, by the slug: a key keeps its place when it is set again.
abbrev pub lookup : String → List MicroVm → Option MicroVm
lookup slug vms = find (λ v. v.tenant_slug == slug) vms

unfoldable pub set : MicroVm → List MicroVm → List MicroVm
set vm [] = vm ∷ []
set vm (v ∷ vms) =
    let rest = set vm vms in if v.tenant_slug == vm.tenant_slug then vm ∷ vms else v ∷ rest

unfoldable pub drop_vm : String → List MicroVm → List MicroVm
drop_vm slug [] = []
drop_vm slug (v ∷ vms) =
    let rest = drop_vm slug vms in if v.tenant_slug == slug then rest else v ∷ rest

-- What a call answers: a value, or the message of the error that it throws.
pub data Outcome (A : Type 0) : Type 0 where
  done : A → Outcome A
  thrown : String → Outcome A

abbrev pub vm_of : AgentEnv → String → MicroVm
vm_of agent slug = record {
  microvm_id = template ("fc-" ∷ slug ∷ []);
  tenant_slug = slug;
  tenant_internal_ip = allocate_ip slug;
  socket_path =
      agent.join_path (agent.join_path (agent.tenants_dir ∷ slug ∷ []) ∷ "firecracker.sock" ∷ []);
}

module _ (agent : AgentEnv) where
  abbrev pub booted : Option String → MicroVm → List MicroVm → Outcome MicroVm × List MicroVm
  booted none vm vms = (done vm, set vm vms)
  booted (some message) vm vms = (thrown message, vms)

  unfoldable pub create_microvm :
      CreateTenantCommandPayload → List MicroVm → Outcome MicroVm × List MicroVm
  unfolding allocate_ip template set
  create_microvm payload vms =
      let vm = vm_of agent payload.tenant_slug in
      if agent.mock_mode then (done vm, set vm vms) else booted (agent.boot_error payload) vm vms

  -- The machine is killed in the real mode; a failure of that is ignored. Then its entry goes.
  unfoldable pub stop_microvm : String → List MicroVm → List MicroVm
  unfolding find drop_vm
  stop_microvm slug vms = elim (lookup slug vms) [ none ↦ vms | some vm ↦ drop_vm slug vms ]

  unfoldable pub start_microvm :
      String → CreateTenantCommandPayload → List MicroVm → Outcome MicroVm × List MicroVm
  unfolding find create_microvm
  start_microvm slug payload vms = elim (lookup slug vms) [
    | none ↦ create_microvm payload vms
    | some vm ↦ (done vm, vms)
  ]

  abbrev pub removed : Option String → Outcome Unit
  removed none = done tt
  removed (some message) = thrown message

  unfoldable pub delete_microvm : String → List MicroVm → Outcome Unit × List MicroVm
  unfolding stop_microvm
  delete_microvm slug vms = (
    if agent.mock_mode then done tt else removed (agent.remove_error slug),
    stop_microvm slug vms,
  )
