-- ===== src/Console/Pages.antt =====
-- What the buttons of the console do (apps/web/src/app/(dashboard)): each calls the API and then
-- tells the page. Every error that `api` throws is an `Error`, so its own message is shown.
pub mod Ends
pub mod Approval
pub mod Enrolment
use xoom_agent_control.Prelude.{
  ℕ, ◌+◌, String, Bool, true, false, not, ◌&&◌, Option, none, some, [], ◌∷◌, template, get_or,
  if◌then◌else◌,
}
use xoom_agent_control.Env.{Env}
use xoom_agent_control.Requests.{
  CreateTenantRequest, TenantAction, MaintenanceStatus, update_runtime, suspend, delete,
}
use xoom_agent_control.Tenants.Routes.{post_tenant, post_action}
use xoom_agent_control.Hosts.Admin.{approve_host, set_maintenance}
use xoom_agent_control.Commands.{retry_command}
use xoom_agent_control.Action.{Action, Reply, fail}
use xoom_agent_control.Console.Validation.{is_valid_request, validated}
use xoom_agent_control.Console.Client.{World, Answer, got, failed, api, visit}
use xoom_agent_control.Console.Dialog.{Dialog, request_of}

-- What a page keeps beside its data: which button waits, the error that it shows, and how often it
-- asked for its data again.
pub record Controls : Type 0 where
  pub busy : Option String
  pub error : Option String
  pub refetches : ℕ

-- The same of the dialog that creates a tenant, and whether it is shown.
pub record Creating : Type 0 where
  pub shown : Bool
  pub busy : Bool
  pub error : Option String
  pub refetches : ℕ

-- `try { await api(…); refetch(); } catch (e) { setErr(…); } finally { setBusy(null); }`, after
-- `setErr(null)`
abbrev pub told : {A : Type 0} → Controls → Answer A × World → Controls × World
told c (got a, w) = (record { busy = none; error = none; refetches = c.refetches + 1 }, w)
told c (failed code message, w) =
    (record { busy = none; error = some message; refetches = c.refetches }, w)

module _ (env : Env) (status_text : ℕ → String) where
  -- `approve` of hosts/page.tsx
  unfoldable pub approve : String → Bool → Controls × World → Controls × World
  unfolding api approve_host template
  approve id approved (c, w) = told c (
      api status_text (template ("/api/hosts/" ∷ id ∷ "/approve" ∷ []))
        (λ caller. approve_host env caller id approved) w)

  -- `maintenance` of hosts/page.tsx
  unfoldable pub maintenance : String → MaintenanceStatus → Controls × World → Controls × World
  unfolding api set_maintenance template
  maintenance id status (c, w) = told c (
      api status_text (template ("/api/hosts/" ∷ id ∷ "/maintenance" ∷ []))
        (λ caller. set_maintenance env caller id status) w)

  -- No `catch`: an error leaves the page as it is.
  abbrev pub told_quietly : {A : Type 0} → Controls → Answer A × World → Controls × World
  told_quietly c (got a, w) = (record c { busy = none; refetches = c.refetches + 1 }, w)
  told_quietly c (failed code message, w) = (record c { busy = none }, w)

  -- A request that names JSON as the type of its body and has no body goes through the parser of
  -- the web framework first, which may refuse it with the status 400 and a message.
  abbrev pub parsed : {A : Type 0} → Option String → Action (Reply A) → Action (Reply A)
  parsed none handler = handler
  parsed (some message) handler = fail (some 400) message

  -- `retry` of deployments/page.tsx, which sends no body
  unfoldable pub retry : Option String → String → Controls × World → Controls × World
  unfolding api retry_command template
  retry empty_body id (c, w) = told_quietly c (
      api status_text (template ("/api/commands/" ∷ id ∷ "/retry" ∷ []))
        (λ caller. parsed empty_body (retry_command env caller id)) w)

  abbrev pub asks_first : TenantAction → Bool
  asks_first delete = true
  asks_first suspend = true
  asks_first _ = false

  -- `prompt("Runtime version", "latest") ?? "latest"`, for an update only
  abbrev pub asked_version : TenantAction → Option String → Option String
  asked_version update_runtime prompted = some (get_or prompted "latest")
  asked_version _ prompted = none

  -- After a delete the list of the tenants is shown instead.
  abbrev pub acted : {A : Type 0} → TenantAction → Controls → Answer A × World → Controls × World
  acted delete c (got a, (b, s)) =
      (record { busy = none; error = none; refetches = c.refetches }, (visit "/tenants" b, s))
  acted _ c end = told c end

  -- `runAction` of tenants/[id]/page.tsx, with what the operator answers to the two questions
  unfoldable pub run_action :
      String → TenantAction → Bool → Option String → Controls × World → Controls × World
  unfolding api post_action template
  run_action id action confirmed prompted (c, w) =
      if asks_first action && not confirmed
      then (c, w)
      else acted action c (
          api status_text (template ("/api/tenants/" ∷ id ∷ "/actions" ∷ []))
            (λ caller. post_action env caller id action (asked_version action prompted)) w)

  -- The dialog is closed and the list asked for again, or the dialog shows the error.
  abbrev pub created : {A : Type 0} → Creating → Answer A × World → Creating × World
  created c (got a, w) =
      (record { shown = false; busy = false; error = none; refetches = c.refetches + 1 }, w)
  created c (failed code message, w) =
      (record { shown = c.shown; busy = false; error = some message; refetches = c.refetches }, w)

  -- `submit` of tenants/page.tsx, whose body the API validates before the handler
  unfoldable pub submit :
      (CreateTenantRequest → String) → Dialog → Creating × World → Creating × World
  unfolding api post_tenant request_of is_valid_request
  submit message_of f (c, w) = created c (
      api status_text "/api/tenants"
        (λ caller. validated message_of (request_of f) (post_tenant env caller (request_of f))) w)
