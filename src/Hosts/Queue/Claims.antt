-- ===== src/Hosts/Queue/Claims.antt =====
-- What a claim does, alone and against another poll.
use xoom_agent_control.Prelude.{
  ◌≡◌, refl, ℕ, suc, String, Bool, true, false, ◌==◌, Option, some, List, [], ◌∷◌, find,
  modify_first, modify_first-find, select, length, arith, Bool-cases, Option-cases, inl, inr, ◌+◌,
  none, ap,
}
use xoom_agent_control.Json.{obj, end}
use xoom_agent_control.Enums.{claimed}
use xoom_agent_control.Requests.{NextCommand}
use xoom_agent_control.Prisma.{Documented}
use xoom_agent_control.Rows.{Db, HostCommand}
use xoom_agent_control.Env.{Env}
use xoom_agent_control.Action.{ok, send}
use xoom_agent_control.Tables.{command_table}
use xoom_agent_control.Query.Laws.{update-find}
use xoom_agent_control.Hosts.Common.{is_waiting}
use xoom_agent_control.Hosts.Queue.{claim_command, claim, handed_out}

-- How many commands wait for a host.
abbrev pub waiting : String → Db → ℕ
waiting host_id s = length (select (is_waiting host_id) s.commands)

abbrev pub command_by_id : String → Db → Option HostCommand
command_by_id id s = find (λ c. c.id == id) s.commands

-- Changing one row that is counted into one that is not takes one from the count.
length-select-modify_first :
    {A : Type 0} (test w : A → Bool) (f : A → A)
    → ((x : A) → w (f x) ≡ w x)
    → (xs ys : List A) (x : A) → find w xs ≡ some x
    → test x ≡ true
    → test (f x) ≡ false
    → modify_first w f xs ≡ some (f x, ys)
    → suc (length (select test ys)) ≡ length (select test xs)
unfolding find modify_first select
length-select-modify_first test w f keeps [] ys x e h k m = cc
length-select-modify_first test w f keeps (y ∷ xs) ys x e h k m = elim (Bool-cases (w y)) [
  | inl hit ↦
      let same : y ≡ x = ground arith in let list : ys ≡ f y ∷ xs = ground arith in ground arith
  | inr miss ↦
      let below = rw miss at e in
      let (zs, a, b) = modify_first-find w f keeps xs x below in
      let list : ys ≡ y ∷ zs = ground arith in
      let rest = length-select-modify_first test w f keeps xs zs x below h k a in
      elim (Bool-cases (test y)) [ inl y_is ↦ ground arith | inr y_not ↦ ground arith ]
]

module _ (env : Env) (d : Documented env.client) (c : HostCommand) (s : Db)
    (stored : command_by_id c.id s ≡ some c) where
  -- A claim hands the command out, marks it as claimed with one more attempt, and touches no other
  -- table.
  pub claim_command_lem :
      (rows : List HostCommand) × (claim_command env (some c) s
        ≡ (ok (send 200 (some (handed_out env c))), record s { commands = rows }))
      × (command_by_id c.id (record s { commands = rows }) ≡ some (claim env c))
      × (modify_first (λ r. r.id == c.id) (claim env) s.commands ≡ some (claim env c, rows))
  unfolding claim_command
  claim_command_lem =
      let (rows, a, b, m) =
        update-find env d command_table (λ r. r.id == c.id) (claim env) s c (λ r. refl) stored in
      (rows, rw a refl, b, m)

  -- On a documented client, the claim of a stored command that waits for a host leaves one
  -- command less that waits for that host.
  pub waiting-claim_command :
      (host_id : String)
      → is_waiting host_id c ≡ true
      → suc (waiting host_id (claim_command env (some c) s).1) ≡ waiting host_id s
  waiting-claim_command host_id is =
      let (rows, a, b, m) = claim_command_lem in
      rw a (
        length-select-modify_first (is_waiting host_id) (λ r. r.id == c.id) (claim env) (λ r. refl)
          s.commands rows c stored is (ground arith) m)

-- What a host is told of a command: its id, its type, its tenant and its payload, an empty object
-- where there is none.
abbrev pub as_told : HostCommand → NextCommand
as_told c = record {
  command_id = c.id;
  command_type = c.command_type;
  tenant_id = c.tenant_id;
  payload = elim c.payload [ none ↦ obj end | some p ↦ p ];
}

pub handed_out-as_told : (env : Env) (c : HostCommand) → handed_out env c ≡ as_told c
handed_out-as_told env c = elim (Option-cases c.payload) [
  | inl e ↦ rw e refl
  | inr (p, e) ↦ rw e refl
]

-- On a documented client, two polls that both read a stored command before either of them claims
-- it are both told that command; its row is then claimed at the time of the claim, with two
-- attempts more, and is the same otherwise.
pub claim_command-claim_command :
    (env : Env) (c : HostCommand) (s : Db)
    → Documented env.client
    → command_by_id c.id s ≡ some c
    → (t : Db) × (claim_command env (some c) s ≡ (ok (send 200 (some (as_told c))), t))
      × (u : Db) × (claim_command env (some c) t ≡ (ok (send 200 (some (as_told c))), u))
      × (command_by_id c.id u
          ≡ some
              (record c { status = claimed; claimed_at = some env.now; attempts = c.attempts + 2 }))
unfolding claim_command
claim_command-claim_command env c s d stored =
    let (rows, a, b, m) = claim_command_lem env d c s stored in
    let t = record s { commands = rows } in
    let (rows', a', b', m') = claim_command_lem env d (claim env c) t b in
    let twice : c.attempts + 1 + 1 ≡ c.attempts + 2 = omega arith in
    (
      t,
      rw (a, handed_out-as_told env c) refl,
      record t { commands = rows' },
      rw (a', handed_out-as_told env (claim env c)) refl,
      rw b' (ap (λ n. some (record (claim env c) { attempts = n })) twice),
    )
