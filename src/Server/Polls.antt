-- ===== src/Server/Polls.antt =====
-- A poll of a host keeps the hosts, tenants and commands sound.
use xoom_agent_control.Prelude.{
  ◌≡◌, refl, String, Bool, true, false, ◌==◌, ◌&&◌, Option, none, some, ℕ, All,
}
use xoom_agent_control.Prisma.{Documented}
use xoom_agent_control.Enums.{CommandStatus, is_queued}
use xoom_agent_control.Rows.{Db, HostCommand}
use xoom_agent_control.Env.{Env}
use xoom_agent_control.Guards.{Caller}
use xoom_agent_control.Tables.{command_table}
use xoom_agent_control.Query.{update}
use xoom_agent_control.Hosts.Queue.{claim, claim_command, next_command, next_for, older}
use xoom_agent_control.Prisma.Order.{First, All-Mem}
use xoom_agent_control.Hosts.Common.{is_waiting}
use xoom_agent_control.Hosts.Queue.Fifo.{IsOldest, oldest_queued-IsOldest}
use xoom_agent_control.Server.Members.{All-every_member, same_key}
use xoom_agent_control.Server.Preserve.{
  Preserves, pure-Preserves, require_host-Preserves, bind-at, update-at,
}
use xoom_agent_control.Server.Sound.{modified_commands, IsSound, is_settled}

waiting_unfinished :
    (host_id : String) (c : HostCommand)
    → is_waiting host_id c ≡ true
    → is_settled c.status c.completed_at ≡ true
    → is_settled CommandStatus.claimed c.completed_at ≡ true
waiting_unfinished host_id c w e =
    go c.status c.completed_at (and_right (c.host_id == host_id) (is_queued c.status) w) e
  where
    and_right : (a b : Bool) → (a && b) ≡ true → b ≡ true
    and_right true b h = h
    and_right false b h = cc

    go :
        (status : CommandStatus) (at : Option ℕ)
        → is_queued status ≡ true
        → is_settled status at ≡ true
        → is_settled CommandStatus.claimed at ≡ true
    go CommandStatus.queued at q e = e
    go _ at q e = cc

module _ (env : Env) (d : Documented env.client) where
  -- The oldest command that waits has no time of completion, and neither has any other of its id:
  -- there is none.
  unfinished :
      (host_id : String) (s : Db)
      → IsSound s
      → (c : HostCommand) → First older (is_waiting host_id) s.commands c
      → All
          (λ x. (x.id == c.id) ≡ true → is_settled CommandStatus.claimed x.completed_at ≡ true)
          s.commands
  unfinished host_id s p c first =
      All-every_member
        (λ x. (x.id == c.id) ≡ true → is_settled CommandStatus.claimed x.completed_at ≡ true)
        s.commands
        (λ x m k.
          same_key (λ c. c.id) (λ x. is_settled CommandStatus.claimed x.completed_at) c x s.commands
            p.2.ids first.member m k
            (waiting_unfinished host_id c first.passes (
              All-Mem (λ c. is_settled c.status c.completed_at) s.commands c p.2.settled
                first.member)))

  pub claim_command-Sound :
      (host_id : String) (s : Db)
      → IsSound s
      → (next : Option HostCommand) → IsOldest host_id s.commands next
      → IsSound (claim_command env next s).1
  unfolding claim_command
  claim_command-Sound host_id s p none first = p
  claim_command-Sound host_id s p (some next) first =
      bind-at IsSound (update env command_table (λ c. c.id == next.id) (claim env)) _ s
        (update-at IsSound env d command_table (λ c. c.id == next.id) (claim env) s
          (λ r rows m. (
            p.0,
            p.1,
            modified_commands (λ c. c.id == next.id) (claim env) s.commands rows r (λ c. refl)
                (unfinished host_id s p next first) m p.2,
          ))
          p)
        (λ taken. pure-Preserves IsSound)

  -- A poll from end to end.
  pub next_for-Sound : (host_id : String) → Preserves IsSound (next_for env host_id)
  next_for-Sound host_id = record {
    preserves = λ s p.
        let (c, found, first) = oldest_queued-IsOldest env host_id s d in
        rw found (claim_command-Sound host_id s p c first);
  }

  pub next_command-Sound :
      (caller : Caller) (host_id : String) → Preserves IsSound (next_command env caller host_id)
  unfolding next_command
  next_command-Sound caller host_id =
      require_host-Preserves IsSound env d caller host_id (next_for env) next_for-Sound
