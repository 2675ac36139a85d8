-- ===== src/Agent/Preflight.antt =====
-- host-agent/src/preflight.ts: whether a host is ready. What the programs and the system answer is a
-- record; `none` stands for a program that fails.
use xoom_agent_control.Prelude.{
  ℕ, ◌*◌, String, Bool, true, false, ◌&&◌, ◌||◌, Option, none, some, List, [], ◌∷◌, all, ltb, leb,
  present, get_or, template, if◌then◌else◌,
}

pub record PreflightCheck : Type 0 where
  pub name : String
  pub ok : Bool
  pub detail : String

pub record Probe : Type 0 where
  pub cpuinfo : Option String
  pub has_kvm : Bool
  pub firecracker_version : Option String
  pub release : String
  -- the first two numbers of the release, where they are numbers
  pub major : Option ℕ
  pub minor : Option ℕ
  -- free space in KB, with the text that shows it in GB
  pub free_kb : Option ℕ
  pub free_detail : String
  pub nft_version : Option String
  pub default_route : Option String
  -- GET /health of the control plane: whether its status was one of success, and the detail
  pub outbound : Bool
  pub outbound_detail : String

-- `Boolean(text)`
abbrev pub given : Option String → Bool
given text = elim (present text) [ none ↦ false | some s ↦ true ]

-- `major > 4 || (major === 4 && minor >= 14)`; what is no number passes no comparison.
abbrev pub recent_kernel : Option ℕ → Option ℕ → Bool
recent_kernel none minor = false
recent_kernel (some major) none = ltb 4 major
recent_kernel (some major) (some minor) =
    ltb 4 major || (leb 4 major && leb major 4) && leb 14 minor

abbrev pub enough_space : Option ℕ → Bool
enough_space none = false
enough_space (some kb) = ltb (20 * 1024 * 1024) kb

unfoldable pub checks : Probe → List PreflightCheck
unfolding present template
checks p =
    record {
      name = "cpu_virtualisation";
      ok = given p.cpuinfo;
      detail = if given p.cpuinfo then "VT-x/AMD-V present" else "No vmx/svm flag found";
    }
    ∷ record {
      name = "dev_kvm";
      ok = p.has_kvm;
      detail = if p.has_kvm then "/dev/kvm available" else "/dev/kvm missing";
    }
    ∷ record {
      name = "firecracker";
      ok = given p.firecracker_version;
      detail = get_or p.firecracker_version "firecracker binary not found";
    }
    ∷ record {
      name = "kernel_version";
      ok = recent_kernel p.major p.minor;
      detail = template ("kernel " ∷ p.release ∷ []);
    }
    ∷ record { name = "disk_space"; ok = enough_space p.free_kb; detail = p.free_detail }
    ∷ record {
      name = "nftables";
      ok = given p.nft_version;
      detail = get_or p.nft_version "nft not found";
    }
    ∷ record {
      name = "network";
      ok = given p.default_route;
      detail = get_or p.default_route "no default route";
    }
    ∷ record { name = "outbound_control_plane"; ok = p.outbound; detail = p.outbound_detail }
    ∷ []

pub record Preflight : Type 0 where
  pub checks : List PreflightCheck
  pub all_ok : Bool

unfoldable pub run_preflight : Probe → Preflight
unfolding checks all
run_preflight p = record { checks = checks p; all_ok = all (λ c. c.ok) (checks p) }

-- The exit code of `preflight` in host-agent/src/index.ts.
unfoldable pub preflight_code : Probe → ℕ
unfolding run_preflight
preflight_code p = if (run_preflight p).all_ok then 0 else 1
