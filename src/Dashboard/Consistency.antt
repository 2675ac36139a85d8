-- ===== src/Dashboard/Consistency.antt =====
-- The numbers of the summary agree with one another and with the list of the hosts.
use xoom_agent_control.Prelude.{
  ◌≡◌, refl, ℕ, ◌+◌, ◌≤◌, Bool, true, false, not, ◌&&◌, List, [], ◌∷◌, select, length, take, arith,
  Bool-cases, inl, inr, zero, suc, ◌*◌, Option, none, some, if◌then◌else◌, get_or, ◌-ℤ◌, pos,
}
use xoom_agent_control.Prisma.{Documented, total}
use xoom_agent_control.Enums.{
  TenantStatus, HostStatus, is_online, is_withdrawn, is_queued, is_severe,
}
use xoom_agent_control.Rows.{Db, Tenant, Host, TenantEvent}
use xoom_agent_control.Tenants.Routes.{later}
use xoom_agent_control.Env.{Env, by_standard}
use xoom_agent_control.Action.{ok, send}
use xoom_agent_control.Hosts.Admin.{derived_status, is_recent}
use xoom_agent_control.Dashboard.{
  Summary, summarise, counts_as_online, is_deleted, is_active, is_suspended, has_failed, seen_since,
  command_failed,
}

length-select : {A : Type 0} (test : A → Bool) (xs : List A) → length (select test xs) ≤ length xs
unfolding select
length-select test [] = omega arith
length-select test (x ∷ xs) = let rest = length-select test xs in ground arith

length-take : {A : Type 0} (n : ℕ) (xs : List A) → length (take n xs) ≤ n
length-take zero xs = omega arith
length-take (suc n) [] = omega arith
length-take (suc n) (x ∷ xs) = let rest = length-take n xs in omega arith

-- A tenant counts under one status at most, and not at all when it is deleted.
statuses_apart :
    (ts : List Tenant)
    → length (select (λ t. is_active t.status) ts)
        + length (select (λ t. is_suspended t.status) ts)
        + length (select (λ t. has_failed t.status) ts)
      ≤ length (select (λ t. not (is_deleted t.status)) ts)
unfolding select
statuses_apart [] = omega arith
statuses_apart (t ∷ ts) = step t.status t _ _ _ _ (statuses_apart ts)
  where
    step :
        (st : TenantStatus) (t : Tenant) (a b c n : List Tenant)
        → length a + length b + length c ≤ length n
        → length (if is_active st then t ∷ a else a)
            + length (if is_suspended st then t ∷ b else b)
            + length (if has_failed st then t ∷ c else c)
          ≤ length (if not (is_deleted st) then t ∷ n else n)
    step TenantStatus.active t a b c n h = omega arith
    step TenantStatus.suspended t a b c n h = omega arith
    step TenantStatus.failed t a b c n h = omega arith
    step TenantStatus.deleted t a b c n h = omega arith
    step _ t a b c n h = omega arith

length-select_mono :
    {A : Type 0} (p q : A → Bool) (xs : List A)
    → ((x : A) → p x ≡ true → q x ≡ true)
    → length (select p xs) ≤ length (select q xs)
unfolding select
length-select_mono p q [] h = omega arith
length-select_mono p q (x ∷ xs) h =
    let rest = length-select_mono p q xs h in
    elim (Bool-cases (p x)) [ inl hit ↦ rw (hit, h x hit) (omega arith) | inr miss ↦ ground arith ]

online_parts :
    (st : HostStatus) (recent : Bool)
    → (is_online st && recent) ≡ true
    → (is_withdrawn st ≡ false) × (recent ≡ true)
online_parts HostStatus.online recent e = (refl, e)
online_parts _ recent e = cc

-- A host that counts as online is shown as online in the list of the hosts.
abbrev pub shown_online : Env → Host → Bool
shown_online env h =
    is_online (derived_status (env.config.offline_threshold_seconds * 1000) env.now h)

counted_online : (env : Env) (h : Host) → counts_as_online env h ≡ true → shown_online env h ≡ true
unfolding derived_status
counted_online env h e =
    let (stays, recent) =
      online_parts h.status
        (seen_since (env.config.offline_threshold_seconds * 1000) env.now h.last_seen_at) e in
    rw stays
      (recent_online (env.config.offline_threshold_seconds * 1000) env.now h.last_seen_at recent)
  where
    recent_online :
        (threshold now : ℕ) (seen : Option ℕ)
        → seen_since threshold now seen ≡ true
        → is_online (if is_recent threshold now seen then HostStatus.online else HostStatus.offline)
          ≡ true
    recent_online threshold now none e = cc
    recent_online threshold now (some t) e = rw e refl

select-every : {A : Type 0} (xs : List A) → select (λ x. true) xs ≡ xs
unfolding select
select-every [] = refl
select-every (x ∷ xs) = rw (select-every xs) refl

abbrev total_or_zero : {A : Type 0} → (A → ℕ) → List A → ℕ
total_or_zero f rows = get_or (total f rows) 0

abbrev pub summary_of : Env → Db → Summary
summary_of env s =
    let tenants = length (select (λ t. not (is_deleted t.status)) s.tenants) in
    let active = length (select (λ t. is_active t.status) s.tenants) in
    let hosts = length (select (λ h. true) s.hosts) in
    let online = length (select (counts_as_online env) (select (λ h. true) s.hosts)) in
    record {
      total_tenants = tenants;
      active_tenants = active;
      suspended_tenants = length (select (λ t. is_suspended t.status) s.tenants);
      failed_tenants = length (select (λ t. has_failed t.status) s.tenants);
      offline_tenants = pos tenants -ℤ pos active;
      total_hosts = hosts;
      online_hosts = online;
      offline_hosts = pos hosts -ℤ pos online;
      failed_commands = length (select (λ c. command_failed c.status) s.commands);
      pending_commands = length (select (λ c. is_queued c.status) s.commands);
      input_tokens = total_or_zero (λ m. m.input_tokens) s.usage;
      output_tokens = total_or_zero (λ m. m.output_tokens) s.usage;
      spend_usd = total_or_zero (λ m. m.spend_usd) s.usage;
      recent_errors =
          take 10
            (select (λ e. is_severe e.severity) (env.client.order_by TenantEvent later s.events));
    }

-- On a documented client, the summary changes nothing; the active, suspended and failed tenants
-- are no more than all that are counted, the online hosts no more than all hosts, and no more than
-- the list of the hosts shows as online, and it has ten recent errors at most.
pub summarise_lem :
    (env : Env) (s : Db)
    → Documented env.client
    → (r : Summary) × (summarise env s ≡ (ok (send 200 r), s))
      × (r.active_tenants + r.suspended_tenants + r.failed_tenants ≤ r.total_tenants)
      × (r.online_hosts ≤ r.total_hosts)
      × (r.online_hosts ≤ length (select (shown_online env) s.hosts))
      × (length r.recent_errors ≤ 10)
summarise_lem env s d =
    by_standard
      (λ e.
        (r : Summary) × (summarise e s ≡ (ok (send 200 r), s))
        × (r.active_tenants + r.suspended_tenants + r.failed_tenants ≤ r.total_tenants)
        × (r.online_hosts ≤ r.total_hosts)
        × (r.online_hosts ≤ length (select (shown_online env) s.hosts))
        × (length r.recent_errors ≤ 10))
      env d
      (
        summary_of env s,
        unfold summarise in refl,
        statuses_apart s.tenants,
        length-select (counts_as_online env) (select (λ h. true) s.hosts),
        rw (select-every s.hosts) (
            length-select_mono (counts_as_online env) (shown_online env) s.hosts
              (counted_online env)),
        length-take 10 _,
      )
