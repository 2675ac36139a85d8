-- ===== src/Server/CommandRoutes.antt =====
-- The operators' routes of the commands keep the hosts, tenants and commands sound.
use xoom_agent_control.Prelude.{refl, String, true, ◌==◌, Option, none, some}
use xoom_agent_control.Prisma.{Documented}
use xoom_agent_control.Rows.{HostCommand}
use xoom_agent_control.Env.{Env, SessionUser}
use xoom_agent_control.Guards.{Caller}
use xoom_agent_control.Tables.{command_table}
use xoom_agent_control.Requests.{CreateCommandRequest}
use xoom_agent_control.Commands.{
  post_command, queue_as, requested_row, retry_command, retry_as, retry_found, copy_of,
}
use xoom_agent_control.Server.Preserve.{
  Preserves, pure-Preserves, bind-Preserves, require_user-Preserves, find_first-Preserves,
}
use xoom_agent_control.Server.Sound.{IsSound, create_command-Sound}
use xoom_agent_control.Server.Aside.{audit-Sound}

module _ (env : Env) (d : Documented env.client) where
  queue_as-Sound :
      (caller : Caller) (body : CreateCommandRequest) (user : SessionUser)
      → Preserves IsSound (queue_as env caller body user)
  queue_as-Sound caller body user =
      bind-Preserves IsSound (create_command-Sound env d (requested_row env body) (λ id. refl))
        (λ command.
          bind-Preserves IsSound (audit-Sound env d _ _ _ _ _) (λ _. pure-Preserves IsSound))

  pub post_command-Sound :
      (caller : Caller) (body : CreateCommandRequest)
      → Preserves IsSound (post_command env caller body)
  unfolding post_command
  post_command-Sound caller body =
      require_user-Preserves IsSound env true caller (queue_as env caller body)
        (queue_as-Sound caller body)

  retry_found-Sound :
      (user : SessionUser) (caller : Caller) (original : Option HostCommand)
      → Preserves IsSound (retry_found env user caller original)
  retry_found-Sound user caller none = pure-Preserves IsSound
  retry_found-Sound user caller (some original) =
      bind-Preserves IsSound (create_command-Sound env d (copy_of env original) (λ id. refl))
        (λ retry.
          bind-Preserves IsSound (audit-Sound env d _ _ _ _ _) (λ _. pure-Preserves IsSound))

  retry_as-Sound :
      (caller : Caller) (id : String) (user : SessionUser)
      → Preserves IsSound (retry_as env caller id user)
  retry_as-Sound caller id user =
      bind-Preserves IsSound (find_first-Preserves IsSound env d command_table (λ c. c.id == id))
        (λ original. retry_found-Sound user caller original)

  pub retry_command-Sound :
      (caller : Caller) (id : String) → Preserves IsSound (retry_command env caller id)
  unfolding retry_command
  retry_command-Sound caller id =
      require_user-Preserves IsSound env true caller (retry_as env caller id)
        (retry_as-Sound caller id)
