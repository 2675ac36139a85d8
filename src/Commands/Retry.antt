-- ===== src/Commands/Retry.antt =====
-- What a retry queues.
use xoom_agent_control.Prelude.{◌≡◌, refl, suc, true, ◌==◌, none, some, List, [], ◌∷◌, ◌++◌, find}
use xoom_agent_control.Prisma.{Documented}
use xoom_agent_control.Rows.{Db, HostCommand}
use xoom_agent_control.Env.{Env, SessionUser}
use xoom_agent_control.Guards.{Caller}
use xoom_agent_control.Tables.{command_table}
use xoom_agent_control.Query.Laws.{create_lem}
use xoom_agent_control.Query.Frame.{bind-Keeps, pure-Keeps}
use xoom_agent_control.Audit.Frame.{audit-Keeps}
use xoom_agent_control.Commands.{retry_found, copy_of}

abbrev queue_of : Db → List HostCommand
queue_of s = s.commands

-- On a documented client, the retry of a command whose host and tenant are stored, with an
-- unused id for the copy, queues a fresh copy of it behind all others and leaves the others,
-- the original among them, as they were.
pub commands-retry_found :
    (env : Env) (user : SessionUser) (caller : Caller) (original : HostCommand) (s : Db)
    → Documented env.client
    → command_table.linked s original ≡ true
    → find (λ (c : HostCommand). env.cuid s.next == c.id) s.commands ≡ none
    → (retry_found env user caller (some original) s).1.commands
      ≡ s.commands ++ copy_of env original (env.cuid s.next) ∷ []
commands-retry_found env user caller original s d linked fresh =
    let copy = copy_of env original in
    let s1 = record s { commands = s.commands ++ copy (env.cuid s.next) ∷ []; next = suc s.next } in
    rw (create_lem env d command_table copy s linked fresh) (
      (bind-Keeps queue_of (audit-Keeps queue_of env (λ rows s. refl) (λ n s. refl) _ _ _ _ _)
          (λ _. pure-Keeps queue_of)).keeps
        s1)
