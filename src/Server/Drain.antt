-- ===== src/Server/Drain.antt =====
-- Enough polls take every command that waits for a host.
use xoom_agent_control.Prelude.{
  ◌≡◌, ◌⊎◌, refl, sym, ◌∙◌, ℕ, zero, suc, String, true, ◌==◌, Option, none, some, arith, eq_iff,
  Option-cases, inl, inr,
}
use mathlib.Core.Bool.{true≢false}
use text.Mathlib.TextPositions.{eq_refl}
use xoom_agent_control.Prisma.{Documented}
use xoom_agent_control.Prisma.Order.{First, find-none}
use xoom_agent_control.Rows.{Db, HostCommand}
use xoom_agent_control.Env.{Env}
use xoom_agent_control.Action.{ok}
use xoom_agent_control.Hosts.Common.{is_waiting}
use xoom_agent_control.Hosts.Queue.{next_for, oldest_queued, claim_command, older}
use xoom_agent_control.Hosts.Queue.Fifo.{IsOldest, oldest_queued-IsOldest}
use xoom_agent_control.Hosts.Queue.Claims.{waiting, command_by_id, waiting-claim_command}
use xoom_agent_control.Server.Keys.{find-passes}
use xoom_agent_control.Server.Members.{same_key, find-Mem, length-select-none}
use xoom_agent_control.Server.Sound.{IsSound}
use xoom_agent_control.Server.Polls.{next_for-Sound}

-- A number of polls of one host, one after the other.
unfoldable pub polls : Env → String → ℕ → Db → Db
polls env host_id zero s = s
polls env host_id (suc n) s = polls env host_id n (next_for env host_id s).1

module _ (env : Env) (d : Documented env.client) (host_id : String) where
  -- The row that the claim of a waiting command changes waits too, as no other has its id.
  claimed_row :
      (s : Db) (c : HostCommand)
      → IsSound s
      → First older (is_waiting host_id) s.commands c
      → (row : HostCommand) × (command_by_id c.id s ≡ some row)
        × ((row.id == c.id) ≡ true)
        × (is_waiting host_id row ≡ true)
  claimed_row s c p first = elim (Option-cases (command_by_id c.id s)) [
    | inl n ↦ absurd (
        true≢false (sym (eq_refl c.id) ∙ find-none (λ r. r.id == c.id) s.commands n c first.member))
    | inr (row, found) ↦
        let same = find-passes (λ r. r.id == c.id) s.commands row found in
        (
          row,
          found,
          same,
          same_key (λ c. c.id) (is_waiting host_id) c row s.commands p.2.ids first.member
              (find-Mem (λ r. r.id == c.id) s.commands row found) same first.passes,
        )
  ]

  -- A claim reads nothing of the command but its id.
  claim_command-id :
      (s : Db) (a b : HostCommand)
      → a.id ≡ b.id
      → (claim_command env (some a) s).1 ≡ (claim_command env (some b) s).1
  unfolding claim_command
  claim_command-id s a b e = rw e refl

  -- A poll takes one command from those that wait.
  waiting-next_for :
      (s : Db)
      → IsSound s
      → (waiting host_id s ≡ 0)
        ⊎ (suc (waiting host_id (next_for env host_id s).1) ≡ waiting host_id s)
  waiting-next_for s p = go (oldest_queued-IsOldest env host_id s d)
    where
      go :
          (c : Option HostCommand) × (oldest_queued env host_id s ≡ (ok c, s))
            × IsOldest host_id s.commands c
          → (waiting host_id s ≡ 0)
            ⊎ (suc (waiting host_id (next_for env host_id s).1) ≡ waiting host_id s)
      go (none, e, free) = inl (length-select-none (is_waiting host_id) s.commands free)
      go (some c, e, first) =
          let (row, stored, same, waits) = claimed_row s c p first in
          let ids = (eq_iff row.id c.id).0 same in
          inr (
            rw (e, ← claim_command-id s row c ids)
              (waiting-claim_command env d row s (rw ids stored) host_id waits))

  waiting-polls_from :
      (n : ℕ) (s : Db)
      → IsSound s
      → waiting host_id s ≡ n
      → waiting host_id (polls env host_id n s) ≡ 0
  unfolding polls
  waiting-polls_from zero s p e = e
  waiting-polls_from (suc n) s p e =
      waiting-polls_from n (next_for env host_id s).1 ((next_for-Sound env d host_id).preserves s p)
        (elim (waiting-next_for s p) [ inl free ↦ omega arith | inr less ↦ omega arith ])

  -- On a documented client, in a state that is sound, as many polls for a host as commands wait for
  -- it, one after the other, leave no command that waits for it.
  pub waiting-polls :
      (s : Db) → IsSound s → waiting host_id (polls env host_id (waiting host_id s) s) ≡ 0
  waiting-polls s p = waiting-polls_from (waiting host_id s) s p refl
