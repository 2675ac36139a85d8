-- ===== src/Tests/Console.antt =====
-- The web console at concrete inputs.
use xoom_agent_control.Prelude.{
  ◌≡◌, refl, ap, subst, get_or, all, ◌⊎◌, ℕ, String, Bool, true, false, ◌==◌, none, some, [], ◌∷◌,
  ◌++◌, ℤ, pos, leb, find, present, trim, template,
}
use xoom_agent_control.Prisma.Order.{Documented-local_client}
use xoom_agent_control.Enums.{support_engineer, read_only_auditor}
use xoom_agent_control.Rows.{Db, User}
use xoom_agent_control.Env.{Env, SessionUser}
use xoom_agent_control.Auth.{verify_session, sign_session, can_write}
use xoom_agent_control.Guards.{bearer, require_user}
use xoom_agent_control.Guards.Admission.{Admitted}
use xoom_agent_control.Action.{Action, Reply, send, pure}
use xoom_agent_control.Accounts.{session_of}
use xoom_agent_control.Accounts.SignIn.{SignedIn}
use xoom_agent_control.Console.Client.{Browser, api, caller_of, includes}
use xoom_agent_control.Console.Client.Session.{Ends, api-require_user}
use xoom_agent_control.Console.Login.{on_submit}
use xoom_agent_control.Console.Login.RoundTrip.{SignsSession, on_submit_lem}
use xoom_agent_control.Console.Slug.{suggest, is_slug}
use xoom_agent_control.Console.Slug.Accepted.{count, is_slug-suggest}
use xoom_agent_control.Console.Dialog.{opened, type_names}
use xoom_agent_control.Console.Dialog.Typing.{first_suggestion, slug-type_names}
use xoom_agent_control.Console.Fetch.{Fetched, ran, resolved, settled, mounted, run}
use xoom_agent_control.Console.Fetch.Order.{run-error, is_late, run-resolved}
use xoom_agent_control.Console.Pages.{Controls, Creating, submit, retry}
use xoom_agent_control.Console.Pages.Ends.{submit-taken, retry-auditor}
use xoom_agent_control.Serialize.{Value, number, entry, object, end, json_safe}
use xoom_agent_control.Serialize.Plain.{is_trapped, is_plain, json_safe_lem}
use xoom_agent_control.Tests.Fixtures.{env, ann, claiming, acme, db, staffed, credentials}

abbrev pub reason : ℕ → String
reason code = "Error"

abbrev pub chrome : Browser
chrome = record { token = some "session"; user = some ann; location = "/hosts"; ip = "192.0.2.3" }

abbrev name_of : SessionUser → Action (Reply String)
name_of user = pure (send 200 user.email)

api-require_user_example :
    Ends reason "/api/auth/me" env false name_of chrome db
      (api reason "/api/auth/me" (λ caller. require_user env false caller name_of) (chrome, db))
api-require_user_example =
    api-require_user reason "/api/auth/me" env false name_of chrome db (unfold includes in refl)

abbrev ann_row : User
ann_row = record {
  id = "u1";
  email = "ann@example.com";
  name = none;
  password_hash = "secret";
  role = support_engineer;
  active = true;
  last_login_at = none;
}

-- Every session is called `session`.
abbrev signing : Env
signing = record env { jwt_sign = λ claims secret lifetime. "session" }

signs :
    (user : User)
    → find (λ u. u.email == credentials.email) staffed.users ≡ some user
    → SignsSession signing (session_of user)
unfolding find
signs user e =
    subst (λ u. SignsSession signing (session_of u)) (ap (λ o. get_or o ann_row) e)
      (record {
        gives_back = unfold verify_session sign_session in refl;
        is_given = unfold sign_session in refl;
        is_trimmed = unfold trim sign_session in refl;
      })

on_submit_lem_example :
    ((message : String) × (on_submit signing reason credentials (chrome, staffed)
        ≡ (record { error = some message; loading = false }, (chrome, staffed))))
    ⊎ ((user : User) × SignedIn signing credentials staffed user
        × (b' : Browser) × (t : Db) × (on_submit signing reason credentials (chrome, staffed)
            ≡ (record { error = none; loading = false }, (b', t)))
        × (b'.location ≡ "/")
        × (b'.user ≡ some (session_of user))
        × ((u : Db)
            → require_user signing false (caller_of b') name_of u ≡ name_of (session_of user) u))
on_submit_lem_example =
    on_submit_lem signing Documented-local_client reason credentials chrome staffed signs name_of

is_slug-suggest_example :
    is_slug (suggest (λ s. s) "client - a!") ≡ leb 2 (count (suggest (λ s. s) "client - a!"))
is_slug-suggest_example = is_slug-suggest (λ s. s) "client - a!"

slug-type_names_example :
    (type_names (λ s. s) ("a" ∷ "ac" ∷ "acme" ∷ []) opened).slug
    ≡ first_suggestion (λ s. s) ("a" ∷ "ac" ∷ "acme" ∷ [])
slug-type_names_example = slug-type_names (λ s. s) ("a" ∷ "ac" ∷ "acme" ∷ []) opened refl

-- A first request failed; a second one starts, and succeeds.
abbrev broken : Fetched ℕ
broken = record mounted { error = some "Offline"; runs = 1; live = some 0; loading = false }

run-error_example :
    (m : String) × ((run (ran true ∷ resolved 1 7 ∷ settled 1 ∷ []) broken).error ≡ some m)
run-error_example = run-error (ran true ∷ resolved 1 7 ∷ settled 1 ∷ []) broken "Offline" refl

run-resolved_example :
    run (ran true ∷ (settled 0 ∷ [] ++ resolved 1 7 ∷ ([] ++ settled 1 ∷ []))) broken
    ≡ record broken { data_of = some 7; loading = false; live = some 1; runs = 2 }
run-resolved_example =
    run-resolved broken 7 (settled 0 ∷ []) [] [] (unfold is_late all in refl) (unfold all in refl)
      (unfold all in refl)

-- The session of a user, and the right to write.
held : (write : Bool) → Admitted env write (caller_of chrome) ann
held write = record {
  token = "session";
  presented = unfold present bearer in refl;
  verified = unfold verify_session in refl;
  may_write = λ w. unfold can_write in refl;
}

abbrev pub idle : Controls
idle = record { busy = none; error = none; refetches = 0 }

abbrev dialog : Creating
dialog = record { shown = true; busy = false; error = none; refetches = 0 }

submit-taken_example :
    submit env reason
      (λ body. "invalid")
      (record opened { name = "Acme again"; slug = "acme" })
      (dialog, (chrome, db))
    ≡ (
      record {
        shown = true;
        busy = false;
        error = some (template ("Tenant slug \"" ∷ "acme" ∷ "\" already exists" ∷ []));
        refetches = 0;
      },
      (chrome, db),
    )
unfolding is_slug template
submit-taken_example =
    submit-taken env Documented-local_client reason chrome db ann (λ body. "invalid")
      (record opened { name = "Acme again"; slug = "acme" }) dialog acme (held true)
      (unfold find in refl)

-- An auditor with the same session.
abbrev eve : SessionUser
eve = record ann { role = read_only_auditor }

abbrev audited : Env
audited = record env { jwt_verify = λ token secret. some (claiming eve) }

retry-auditor_example :
    retry audited reason none "c1" (idle, (chrome, db))
    ≡ (record idle { busy = none }, (chrome, db))
retry-auditor_example =
    retry-auditor audited reason chrome db eve none "c1" idle
      (record {
        token = "session";
        presented = unfold present bearer in refl;
        verified = unfold verify_session in refl;
        may_write = λ w. cc;
      })
      (unfold can_write in refl)

-- The body of a callback that has a key `toNumber`.
abbrev poisoned : Value ℤ
poisoned = object (entry "toNumber" (number (pos 1)) end)

json_safe_lem_example :
    ((is_trapped poisoned ≡ true) × (json_safe (λ n. n) (λ n. "0") (λ t. "1970") poisoned ≡ none))
    ⊎ ((is_trapped poisoned ≡ false)
        × (w : Value ℤ) × (json_safe (λ n. n) (λ n. "0") (λ t. "1970") poisoned ≡ some w)
        × (is_plain w ≡ true)
        × (json_safe (λ n. n) (λ n. "0") (λ t. "1970") w ≡ some w))
json_safe_lem_example = json_safe_lem (λ n. n) (λ n. "0") (λ t. "1970") poisoned
