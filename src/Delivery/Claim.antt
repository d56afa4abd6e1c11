-- ===== src/Delivery/Claim.antt =====
-- `claim_due` of InMemoryDeliveryJobStore: the jobs that a worker may attempt now.
pub mod Oldest
pub mod Fairness
use aura_claw.Prelude.{
  ℕ, zero, suc, ◌+◌, String, ◌≡◌, Bool, true, false, not, ◌&&◌, ◌||◌, Option, none, some, List, [],
  ◌∷◌, ◌++◌, leb, ltb, if◌then◌else◌, select, length, contains, ◌==◌, string_eq, nat_eq, triple_eq,
}
use aura_claw.Prelude.Dict
use aura_claw.Prelude.Dict.{Dict}
use aura_claw.Prelude.Sort.{sort}
use aura_claw.Prelude.Text.{text_lt}
use aura_claw.Delivery.Types.{DeliveryStatus, DeliveryJob}
use aura_claw.Delivery.Types.DeliveryStatus.{pending, attempting, retry_wait}
use aura_claw.Delivery.Store.{JobStore, set_job, is_attempting}

-- PENDING, RETRY_WAIT or ATTEMPTING
abbrev pub is_active : DeliveryStatus → Bool
is_active pending = true
is_active retry_wait = true
is_active attempting = true
is_active _ = false

abbrev pub is_waiting : DeliveryStatus → Bool
is_waiting pending = true
is_waiting retry_wait = true
is_waiting _ = false

-- the sort key `(created_at, delivery_id)`
unfoldable pub created_before : DeliveryJob → DeliveryJob → Bool
created_before a b =
    ltb a.created_at b.created_at
    || (a.created_at == b.created_at && text_lt a.delivery_id b.delivery_id)

unfoldable pub active_jobs : JobStore → List DeliveryJob
unfolding created_before Dict.values sort
active_jobs s = sort created_before (select (λ job. is_active job.status) (Dict.values s.jobs))

abbrev pub order_key : DeliveryJob → String × String × String
order_key job = (job.tenant_id, job.session_id, job.sink_id)

-- the variables of the loop over the active jobs
pub record Scan : Type 0 where
  pub due : List DeliveryJob
  pub blocked : List (String × String × String)
  pub tenant_claims : Dict String ℕ

abbrev pub start : Scan
start = record { due = []; blocked = []; tenant_claims = [] }

-- `expires_at is not None and expires_at <= now`
abbrev pub has_passed : Option ℕ → ℕ → Bool
has_passed none now = false
has_passed (some t) now = leb t now

-- `next_attempt_at is None or next_attempt_at <= now`
abbrev pub is_reached : Option ℕ → ℕ → Bool
is_reached none now = true
is_reached (some t) now = leb t now

abbrev pub claims_of : String → Dict String ℕ → ℕ
claims_of tenant_id claims = elim (Dict.get tenant_id claims) [ none ↦ 0 | some n ↦ n ]

abbrev pub at_quota : Option ℕ → ℕ → Bool
at_quota none n = false
at_quota (some quota) n = leb quota n

-- `available and (job.next_attempt_at is None or job.next_attempt_at <= now)`
unfoldable pub is_due : (now : ℕ) → DeliveryJob → Bool
is_due now job =
    (is_waiting job.status || (is_attempting job.status && has_passed job.claim_expires_at now))
    && is_reached job.next_attempt_at now

module _ (now limit : ℕ) (max_per_tenant : Option ℕ) where
  -- the body of the loop; true stands for `break`
  unfoldable pub visit : DeliveryJob → Scan → Scan × Bool
  unfolding is_due
  visit job st =
      if contains st.blocked (order_key job)
      then (st, false)
      else let seen = record st { blocked = order_key job ∷ st.blocked } in
        let claims = claims_of job.tenant_id st.tenant_claims in
        if at_quota max_per_tenant claims
        then (seen, false)
        else if is_due now job
        then (
          record seen {
            due = st.due ++ job ∷ [];
            tenant_claims = Dict.put job.tenant_id (claims + 1) st.tenant_claims;
          },
          leb limit (length (st.due ++ job ∷ [])),
        )
        else (seen, false)

  unfoldable pub scan : List DeliveryJob → Scan → Scan
  scan [] st = st
  scan (job ∷ rest) st =
      let (st', stop) = visit job st in elim stop [ true ↦ st' | false ↦ scan rest st' ]

module _ (worker_id : String) (claim_ttl now : ℕ) where
  unfoldable pub claimed : DeliveryJob → (claim_token : String) → DeliveryJob
  claimed job claim_token = record job {
    status = attempting;
    attempt_count = job.attempt_count + 1;
    claimed_by = some worker_id;
    claim_token = some claim_token;
    claim_expires_at = some (now + claim_ttl);
    claim_heartbeat_at = some now;
    side_effect_started_at = none;
    reconciliation_reason = none;
  }

module _ (worker_id : String) (claim_ttl now : ℕ) (token : ℕ → String) where
  -- `token i` is the fresh `uuid4().hex` of the round `i`.
  unfoldable pub claim_jobs : ℕ → List DeliveryJob → JobStore → JobStore × List DeliveryJob
  unfolding claimed
  claim_jobs i [] s = (s, [])
  claim_jobs i (job ∷ rest) s =
      let updated = claimed worker_id claim_ttl now job (token i) in
      let (s', more) = claim_jobs (i + 1) rest (set_job s job.delivery_id updated) in
      (s', updated ∷ more)

  unfoldable pub claim_due :
      (limit : ℕ) → (max_per_tenant : Option ℕ) → JobStore → JobStore × List DeliveryJob
  claim_due limit max_per_tenant s =
      claim_jobs 0 (scan now limit max_per_tenant (active_jobs s) start).due s
