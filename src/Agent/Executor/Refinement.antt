-- ===== src/Agent/Executor/Refinement.antt =====
-- The registry of the machines as a finite map: what a run of commands makes of it, without the order
-- of its entries.
use xoom_agent_control.Prelude.{
  ◌≡◌, refl, ap, fun_ext, ◌∙◌, String, false, ◌==◌, Option, none, some, List, [], ◌∷◌, find,
  if◌then◌else◌, Bool-cases, Option-cases, eq_iff, inl, inr,
}
use xoom_agent_control.Enums.{CommandType}
use xoom_agent_control.Requests.{NextCommand}
use xoom_agent_control.Agent.Payload.{CreateTenantCommandPayload, safe_parse}
use xoom_agent_control.Agent.Firecracker.{
  AgentEnv, MicroVm, Outcome, done, thrown, vm_of, lookup, set, drop_vm, create_microvm,
  start_microvm, stop_microvm, delete_microvm,
}
use xoom_agent_control.Agent.Firecracker.Registry.{lookup-set, lookup-set_other, lookup-drop_vm}
use xoom_agent_control.Agent.Executor.{
  execute, execute_type, deleted, create_parsed, created, start_parsed, started, slug_of,
}

-- Which machine runs for a slug.
abbrev pub MachineMap : Type 0
MachineMap = String → Option MicroVm

abbrev pub machine_map : List MicroVm → MachineMap
machine_map vms slug = lookup slug vms

abbrev pub put_machine : MicroVm → MachineMap → MachineMap
put_machine vm m slug = if vm.tenant_slug == slug then some vm else m slug

abbrev pub drop_machine : String → MachineMap → MachineMap
drop_machine gone m slug = if gone == slug then none else m slug

machine_map-set :
    (vm : MicroVm) (vms : List MicroVm)
    → machine_map (set vm vms) ≡ put_machine vm (machine_map vms)
machine_map-set vm vms = fun_ext (λ slug. elim (Bool-cases (vm.tenant_slug == slug)) [
  | inl hit ↦ rw (hit, ← (eq_iff vm.tenant_slug slug).0 hit) (lookup-set vm vms)
  | inr miss ↦ rw miss (lookup-set_other slug vm vms miss)
])

lookup-drop_vm_other :
    (gone slug : String) (vms : List MicroVm)
    → (gone == slug) ≡ false
    → lookup slug (drop_vm gone vms) ≡ lookup slug vms
unfolding find drop_vm
lookup-drop_vm_other gone slug [] e = refl
lookup-drop_vm_other gone slug (v ∷ vms) e = elim (Bool-cases (v.tenant_slug == gone)) [
  | inl hit ↦
      let other : (v.tenant_slug == slug) ≡ false = rw ((eq_iff v.tenant_slug gone).0 hit) e in
      rw (hit, other) (lookup-drop_vm_other gone slug vms e)
  | inr miss ↦ elim (Bool-cases (v.tenant_slug == slug)) [
    | inl here ↦ rw (miss, here)
    | inr past ↦ rw (miss, past) (lookup-drop_vm_other gone slug vms e)
  ]
]

machine_map-drop_vm :
    (gone : String) (vms : List MicroVm)
    → machine_map (drop_vm gone vms) ≡ drop_machine gone (machine_map vms)
machine_map-drop_vm gone vms = fun_ext (λ slug. elim (Bool-cases (gone == slug)) [
  | inl hit ↦ rw (hit, ← (eq_iff gone slug).0 hit) (lookup-drop_vm gone vms)
  | inr miss ↦ rw miss (lookup-drop_vm_other gone slug vms miss)
])

module _ (agent : AgentEnv) where
  -- What a command of each type does to the map.
  abbrev boot : Option String → String → MachineMap → MachineMap
  boot none slug m = put_machine (vm_of agent slug) m
  boot (some message) slug m = m

  abbrev create_machine : CreateTenantCommandPayload → MachineMap → MachineMap
  create_machine payload m =
      boot (if agent.mock_mode then none else agent.boot_error payload) payload.tenant_slug m

  abbrev ensure_machine : Option MicroVm → CreateTenantCommandPayload → MachineMap → MachineMap
  ensure_machine none payload m = create_machine payload m
  ensure_machine (some vm) payload m = m

  abbrev parsed_effect :
      Option CreateTenantCommandPayload
      → (CreateTenantCommandPayload → MachineMap → MachineMap)
      → MachineMap
      → MachineMap
  parsed_effect none f m = m
  parsed_effect (some payload) f m = f payload m

  abbrev pub effect_of_type : CommandType → NextCommand → MachineMap → MachineMap
  effect_of_type CommandType.create_tenant cmd m =
      parsed_effect (safe_parse agent.is_url cmd.payload) create_machine m
  effect_of_type CommandType.start_tenant cmd m =
      parsed_effect (safe_parse agent.is_url cmd.payload) (ensure_machine (m (slug_of cmd))) m
  effect_of_type CommandType.stop_tenant cmd m = drop_machine (slug_of cmd) m
  effect_of_type CommandType.restart_tenant cmd m = drop_machine (slug_of cmd) m
  effect_of_type CommandType.delete_tenant cmd m = drop_machine (slug_of cmd) m
  effect_of_type _ cmd m = m

  abbrev pub effect : NextCommand → MachineMap → MachineMap
  effect cmd m = effect_of_type cmd.command_type cmd m

  -- A run of commands, on the registry and on the map.
  unfoldable pub run : List NextCommand → List MicroVm → List MicroVm
  run [] vms = vms
  run (cmd ∷ cmds) vms = run cmds (execute agent cmd vms).1

  unfoldable pub run_effects : List NextCommand → MachineMap → MachineMap
  run_effects [] m = m
  run_effects (cmd ∷ cmds) m = run_effects cmds (effect cmd m)

  map-create_microvm :
      (payload : CreateTenantCommandPayload) (vms : List MicroVm)
      → machine_map (create_microvm agent payload vms).1 ≡ create_machine payload (machine_map vms)
  unfolding create_microvm
  map-create_microvm payload vms = elim (Bool-cases agent.mock_mode) [
    | inl mock ↦ rw mock (machine_map-set (vm_of agent payload.tenant_slug) vms)
    | inr real ↦ elim (Option-cases (agent.boot_error payload)) [
      | inl fine ↦ rw (real, fine) (machine_map-set (vm_of agent payload.tenant_slug) vms)
      | inr (message, broken) ↦ rw (real, broken) refl
    ]
  ]

  map-stop_microvm :
      (slug : String) (vms : List MicroVm)
      → machine_map (stop_microvm agent slug vms) ≡ drop_machine slug (machine_map vms)
  unfolding stop_microvm
  map-stop_microvm slug vms = elim (Option-cases (lookup slug vms)) [
    | inr (vm, here) ↦ rw (stop_microvm, here) (machine_map-drop_vm slug vms)
    | inl gone ↦
        rw (stop_microvm, gone)
          (fun_ext (λ other. elim (Bool-cases (slug == other)) [
            | inl hit ↦ rw (hit, ← (eq_iff slug other).0 hit) gone
            | inr miss ↦ rw miss refl
          ]))
  ]

  map-start_microvm :
      (slug : String) (payload : CreateTenantCommandPayload) (vms : List MicroVm)
      → machine_map (start_microvm agent slug payload vms).1
        ≡ ensure_machine (lookup slug vms) payload (machine_map vms)
  unfolding start_microvm
  map-start_microvm slug payload vms = elim (Option-cases (lookup slug vms)) [
    | inl gone ↦ rw (start_microvm, gone) (map-create_microvm payload vms)
    | inr (vm, here) ↦ rw (start_microvm, here) refl
  ]

  created_vms :
      (payload : CreateTenantCommandPayload) (tenant_id : Option String)
      (r : Outcome MicroVm × List MicroVm)
      → (created agent payload tenant_id r).1 ≡ r.1
  created_vms payload tenant_id (done vm, vms) = refl
  created_vms payload tenant_id (thrown message, vms) = refl

  started_vms : (r : Outcome MicroVm × List MicroVm) → (started agent r).1 ≡ r.1
  started_vms (done vm, vms) = refl
  started_vms (thrown message, vms) = refl

  deleted_vms :
      (cmd : NextCommand) (r : Outcome Unit × List MicroVm) → (deleted agent cmd r).1 ≡ r.1
  deleted_vms cmd (done _, vms) = refl
  deleted_vms cmd (thrown message, vms) = refl

  map-create_parsed :
      (cmd : NextCommand) (payload : Option CreateTenantCommandPayload) (vms : List MicroVm)
      → machine_map (create_parsed agent cmd payload vms).1
        ≡ parsed_effect payload create_machine (machine_map vms)
  map-create_parsed cmd none vms = refl
  map-create_parsed cmd (some payload) vms =
      ap machine_map (created_vms payload cmd.tenant_id (create_microvm agent payload vms))
      ∙ map-create_microvm payload vms

  map-start_parsed :
      (cmd : NextCommand) (payload : Option CreateTenantCommandPayload) (vms : List MicroVm)
      → machine_map (start_parsed agent cmd payload vms).1
        ≡ parsed_effect payload (ensure_machine (lookup (slug_of cmd) vms)) (machine_map vms)
  map-start_parsed cmd none vms = refl
  map-start_parsed cmd (some payload) vms =
      ap machine_map (started_vms (start_microvm agent (slug_of cmd) payload vms))
      ∙ map-start_microvm (slug_of cmd) payload vms

  map-delete_microvm :
      (cmd : NextCommand) (vms : List MicroVm)
      → machine_map (delete_microvm agent (slug_of cmd) vms).1
        ≡ drop_machine (slug_of cmd) (machine_map vms)
  unfolding delete_microvm
  map-delete_microvm cmd vms = map-stop_microvm (slug_of cmd) vms

  machine_map-execute :
      (type : CommandType) (cmd : NextCommand) (vms : List MicroVm)
      → machine_map (execute_type agent type cmd vms).1 ≡ effect_of_type type cmd (machine_map vms)
  machine_map-execute CommandType.create_tenant cmd vms =
      map-create_parsed cmd (safe_parse agent.is_url cmd.payload) vms
  machine_map-execute CommandType.start_tenant cmd vms =
      map-start_parsed cmd (safe_parse agent.is_url cmd.payload) vms
  machine_map-execute CommandType.stop_tenant cmd vms = map-stop_microvm (slug_of cmd) vms
  machine_map-execute CommandType.restart_tenant cmd vms = map-stop_microvm (slug_of cmd) vms
  machine_map-execute CommandType.delete_tenant cmd vms =
      ap machine_map (deleted_vms cmd (delete_microvm agent (slug_of cmd) vms))
      ∙ map-delete_microvm cmd vms
  machine_map-execute _ cmd vms = refl

  -- What the registry holds after a run of commands, whatever their types and whether they succeed
  -- or fail, is what the same run makes of a finite map from slugs to machines: a creation puts a
  -- machine where its payload is valid and the machine boots, a start where there is none yet as
  -- well, a stop, a restart and a deletion take the machine of the slug away, and no other command
  -- does anything.
  pub machine_map-run :
      (cmds : List NextCommand) (vms : List MicroVm)
      → machine_map (run cmds vms) ≡ run_effects cmds (machine_map vms)
  unfolding run run_effects execute
  machine_map-run [] vms = refl
  machine_map-run (cmd ∷ cmds) vms =
      machine_map-run cmds (execute agent cmd vms).1
      ∙ ap (run_effects cmds) (machine_map-execute cmd.command_type cmd vms)
