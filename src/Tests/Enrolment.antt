-- ===== src/Tests/Enrolment.antt =====
-- A host that joins and is approved, at a concrete input.
use xoom_agent_control.Prelude.{◌≡◌, refl, none, some, true, find, present, trim}
use xoom_agent_control.Prisma.Order.{Documented-local_client}
use xoom_agent_control.Enums.{msp_admin}
use xoom_agent_control.Rows.{Db}
use xoom_agent_control.Env.{Env, SessionUser}
use xoom_agent_control.Auth.{
  can_write, verify_session, verify_agent_key, hash_agent_key, can_perform_destructive,
}
use xoom_agent_control.Guards.{bearer}
use xoom_agent_control.Guards.Admission.{AdmittedHost}
use xoom_agent_control.Agent.Config.{AgentConfig, agent_version}
use xoom_agent_control.Agent.Join.{no_state, ensure_registered, has_credentials}
use xoom_agent_control.Agent.Join
use xoom_agent_control.Console.Pages.{approve}
use xoom_agent_control.Console.Pages.Enrolment.{
  new_host, joined_state, ensure_registered-AdmittedHost,
}
use xoom_agent_control.Tests.Console.{reason, chrome, idle}
use xoom_agent_control.Tests.Fixtures.{env, ann, claiming, db, joining}

abbrev boss : SessionUser
boss = record ann { role = msp_admin }

-- The next id is `h2`, and the session is that of an administrator.
abbrev managed : Env
managed = record env { jwt_verify = λ token secret. some (claiming boss); cuid = λ n. "h2" }

abbrev beta : AgentConfig
beta = record {
  control_plane_url = "https://api.example.com";
  registration_token = "join";
  host_name = "beta";
  location = none;
  public_ip = none;
  private_ip = none;
  agent_version = agent_version;
  state_path = "/var/lib/xoom/state.json";
  heartbeat_interval_seconds = some 15;
  poll_interval_seconds = some 5;
  mock_mode = true;
  tenants_dir = "/var/lib/xoom";
  kernel_image = "vmlinux";
  rootfs_base = "rootfs.ext4";
}

ensure_registered-AdmittedHost_example :
    (t : Db) × (ensure_registered managed beta joining.resources "192.0.2.9" no_state db
      ≡ (joined_state managed db, t))
    × (u : Db) × (approve managed reason "h2" true (idle, (chrome, t))
        ≡ (record { busy = none; error = none; refetches = 1 }, (chrome, u)))
    × AdmittedHost managed
        (Join.caller_of (joined_state managed db) "192.0.2.9")
        "h2"
        u
        (record (new_host managed db beta joining.resources) { approved = true })
ensure_registered-AdmittedHost_example =
    ensure_registered-AdmittedHost managed Documented-local_client beta joining.resources
      "192.0.2.9" no_state db refl (unfold present in refl) (unfold find in refl)
      (unfold find in refl) reason chrome boss idle
      (record {
        token = "session";
        presented = unfold present bearer in refl;
        verified = unfold verify_session in refl;
        may_write = λ w. unfold can_write in refl;
      })
      (unfold can_perform_destructive in refl) refl refl (unfold trim in refl)
      (unfold hash_agent_key in refl) (unfold hash_agent_key verify_agent_key in refl)
