-- ===== src/Action.antt =====
-- Handlers as actions on the database that may throw. The API opens no transaction: what was written
-- before an exception stays written, so the database comes back beside the error too. Only a nested
-- create is one write.
use xoom_agent_control.Prelude.{
  ℕ, String, Bool, true, false, Option, none, some, leb, if◌then◌else◌,
}
use xoom_agent_control.Rows.{Db}

-- `Error & { statusCode?: number }`
pub record Error : Type 0 where
  pub status_code : Option ℕ
  pub message : String

pub data Result (A : Type 0) : Type 0 where
  ok : A → Result A
  throw : Error → Result A

abbrev pub Action : Type 0 → Type 0
Action A = Db → Result A × Db

abbrev pub continue : {A B : Type 0} → Result A × Db → (A → Action B) → Result B × Db
continue (ok a, s) f = f a s
continue (throw e, s) f = (throw e, s)

infixl 5 ◌>>=◌ ◌>>◌
abbrev pub ◌>>=◌ : {A B : Type 0} → Action A → (A → Action B) → Action B
◌>>=◌ m f s = continue (m s) f

abbrev pub ◌>>◌ : {A B : Type 0} → Action A → Action B → Action B
m >> k = m >>= λ _. k

abbrev pub pure : {A : Type 0} → A → Action A
pure a s = (ok a, s)

abbrev pub fail : {A : Type 0} → Option ℕ → String → Action A
fail code message s = (throw (record { status_code = code; message = message }), s)

-- `try { await m } catch { … }`, where the handler only logs.
abbrev pub caught : {A : Type 0} → Result A × Db → Result Unit × Db
caught (ok a, s) = (ok tt, s)
caught (throw e, s) = (ok tt, s)

abbrev pub try_quietly : {A : Type 0} → Action A → Action Unit
try_quietly m s = caught (m s)

-- A write that the database makes as a whole: where it throws, nothing of it stays.
abbrev pub undone : {A : Type 0} → Db → Result A × Db → Result A × Db
undone before (ok a, s) = (ok a, s)
undone before (throw e, s) = (throw e, before)

abbrev pub atomic : {A : Type 0} → Action A → Action A
atomic m s = undone s (m s)

-- A value that an outside call may fail to give.
abbrev pub or_throw : {A : Type 0} → Option A → String → Action A
or_throw none message = fail none message
or_throw (some a) message = pure a

abbrev pub when : Bool → Action Unit → Action Unit
when true m = m
when false m = pure tt

-- `{ error, message }`, the body of a refusal.
pub record ErrorBody : Type 0 where
  pub error : String
  pub message : Option String

-- `reply.code(c).send(body)`, with a body of the handler's own or one that says why not.
pub data Reply (A : Type 0) : Type 0 where
  send : ℕ → A → Reply A
  refuse : ℕ → ErrorBody → Reply A

abbrev pub reject : {A : Type 0} → ℕ → String → Action (Reply A)
reject code error = pure (refuse code (record { error = error; message = none }))

abbrev pub reject_with : {A : Type 0} → ℕ → String → String → Action (Reply A)
reject_with code error message =
    pure (refuse code (record { error = error; message = some message }))

abbrev status_of : Option ℕ → ℕ
status_of none = 500
status_of (some code) = code

-- The error handler that apps/api/src/app.ts installs.
unfoldable pub respond : {A : Type 0} → Result (Reply A) → Reply A
respond (ok reply) = reply
respond (throw e) =
    let status = status_of e.status_code in
    refuse status (record {
      error = if leb 500 status then "internal_error" else "error";
      message = some e.message;
    })
