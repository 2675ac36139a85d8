-- ===== src/Hosts/Queue/Fifo.antt =====
-- Which command a poll takes.
use mathlib.Core.List.{Mem}
use xoom_agent_control.Prelude.{◌≡◌, refl, String, false, Option, none, some, List, find, arith}
use xoom_agent_control.Prisma.{Documented, IsPreorder}
use xoom_agent_control.Prisma.Order.{First, find-order_by, find-order_by_none}
use xoom_agent_control.Rows.{Db, HostCommand}
use xoom_agent_control.Env.{Env, by_standard}
use xoom_agent_control.Action.{ok}
use xoom_agent_control.Hosts.Common.{is_waiting}
use xoom_agent_control.Hosts.Queue.{older, oldest_queued}

older-IsPreorder : IsPreorder older
unfolding older
older-IsPreorder = record { total = λ a b. ground arith; trans = λ a b c h k. ground arith }

-- What a poll has to find: a command that waits for the host and was created no later than any
-- other that waits, or nothing where none waits.
abbrev pub IsOldest : String → List HostCommand → Option HostCommand → Type 0
IsOldest host_id commands none = (c : HostCommand) → Mem c commands → is_waiting host_id c ≡ false
IsOldest host_id commands (some c) = First older (is_waiting host_id) commands c

-- On a documented client, a poll changes nothing before it claims, and finds a command that
-- waits for the host and was created no later than any other that waits, or nothing where none
-- waits.
pub oldest_queued-IsOldest :
    (env : Env) (host_id : String) (s : Db)
    → Documented env.client
    → (c : Option HostCommand) × (oldest_queued env host_id s ≡ (ok c, s))
      × IsOldest host_id s.commands c
oldest_queued-IsOldest env host_id s d =
    by_standard
      (λ e.
        (c : Option HostCommand) × (oldest_queued e host_id s ≡ (ok c, s))
        × IsOldest host_id s.commands c)
      env d
      (
        find (is_waiting host_id) (env.client.order_by HostCommand older s.commands),
        unfold oldest_queued in refl,
        found (find (is_waiting host_id) (env.client.order_by HostCommand older s.commands)) refl,
      )
  where
    found :
        (c : Option HostCommand)
        → find (is_waiting host_id) (env.client.order_by HostCommand older s.commands) ≡ c
        → IsOldest host_id s.commands c
    found none e = find-order_by_none d.sorts older (is_waiting host_id) s.commands e
    found (some c) e =
        find-order_by d.sorts older (is_waiting host_id) s.commands older-IsPreorder c e
