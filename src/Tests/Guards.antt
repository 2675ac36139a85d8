-- ===== src/Tests/Guards.antt =====
-- The guards and sign-in at concrete inputs.
use xoom_agent_control.Rows.{User}
use xoom_agent_control.Accounts.{login}
use xoom_agent_control.Accounts.SignIn.{SignedIn, login-SignedIn, session_for}
use xoom_agent_control.Tests.Fixtures.{credentials, staffed}
use xoom_agent_control.Prelude.{some, find, List, ◌≡◌, ◌⊎◌, String, true, ◌==◌}
use xoom_agent_control.Prisma.Order.{Documented-local_client}
use xoom_agent_control.Env.{SessionUser}
use xoom_agent_control.Action.{ok, Action, Reply, send, pure}
use xoom_agent_control.Guards.{require_user, require_host}
use xoom_agent_control.Guards.Admission.{
  Refused, Admitted, LetsThrough, require_user-Admitted, require_host-AdmittedHost,
}
use xoom_agent_control.Tests.Fixtures.{env, db, caller, browser}

abbrev name_of : SessionUser → Action (Reply String)
name_of user = pure (send 200 user.email)

abbrev echo : String → Action (Reply String)
echo id = pure (send 200 id)

require_host-AdmittedHost_example :
    LetsThrough env caller "h1" echo db (require_host env caller "h1" echo)
require_host-AdmittedHost_example =
    require_host-AdmittedHost env caller "h1" echo db Documented-local_client

require_user-Admitted_example :
    Refused (require_user env true browser name_of) db
    ⊎ ((user : SessionUser) × Admitted env true browser user
        × (require_user env true browser name_of db ≡ name_of user db))
require_user-Admitted_example = require_user-Admitted env true browser name_of db

login-SignedIn_example :
    Refused (login env credentials) staffed
    ⊎ ((user : User) × SignedIn env credentials staffed user
        × (rows : List User) × (login env credentials staffed
            ≡ (ok (send 200 (session_for env user)), record staffed { users = rows }))
        × (row : User) × (find (λ u. u.id == user.id) staffed.users ≡ some row)
        × (find (λ u. u.id == user.id) rows ≡ some (record row { last_login_at = some 1000 })))
login-SignedIn_example = login-SignedIn env credentials staffed Documented-local_client
