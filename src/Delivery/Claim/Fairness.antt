-- ===== src/Delivery/Claim/Fairness.antt =====
-- What `claim_due` may take: the head of each order key, within its limits.
use aura_claw.Prelude.{
  ℕ, suc, ◌+◌, ◌≤◌, ◌<◌, max, String, ◌≡◌, refl, sym, ap, subst, ◌⊎◌, inl, inr, Bool, true, false,
  Option, none, some, ◌&&◌, ◌||◌, &&-eq-true, leb→le, List, [], ◌∷◌, ◌++◌, arith, Bool-cases,
  Option-cases, is_some, ◌==◌, contains, option_eq, pair_eq, triple_eq, string_eq, nat_eq, length,
  find, count_where, length-append, count_where-append, find-append, find-append_none, All-map, All,
  All-append,
}
use aura_claw.Prelude.Dict
use aura_claw.Prelude.Dict.{
  Dict, get-put, get-remove, get-put_self, get-remove_self, put-put_self, dict_laws,
}
use mathlib.Core.List.{append-nil, append_assoc}
use aura_claw.Delivery.Types.{DeliveryJob, DeliveryStatus}
use aura_claw.Delivery.Types.DeliveryStatus.{pending, attempting, retry_wait}
use aura_claw.Delivery.Store.{JobStore, set_job, is_attempting}
use aura_claw.Delivery.Claim.Oldest.{IsOldest, head-IsOldest}
use aura_claw.Delivery.Claim.{
  order_key, is_waiting, has_passed, is_reached, Scan, start, claims_of, is_due, visit, scan,
  claimed, claim_jobs, claim_due, active_jobs,
}

abbrev pub same_key : DeliveryJob → DeliveryJob → Bool
same_key job other = order_key other == order_key job

abbrev pub of_tenant : String → DeliveryJob → Bool
of_tenant tenant_id job = job.tenant_id == tenant_id

-- the first job of its key
abbrev pub IsHead : List DeliveryJob → DeliveryJob → Type 0
IsHead jobs job = find (same_key job) jobs ≡ some job

-- waiting, or attempting under a claim that has run out, and with a next attempt that has come
abbrev pub IsDue : ℕ → DeliveryJob → Type 0
IsDue now job =
    ((job.status ≡ pending)
      ⊎ (job.status ≡ retry_wait)
      ⊎ ((job.status ≡ attempting) × ((t : ℕ) × (job.claim_expires_at ≡ some t) × (t ≤ now))))
    × ((job.next_attempt_at ≡ none) ⊎ ((t : ℕ) × (job.next_attempt_at ≡ some t) × (t ≤ now)))

is_due-IsDue : (now : ℕ) (job : DeliveryJob) → is_due now job ≡ true → IsDue now job
unfolding is_due
is_due-IsDue now job e =
    let both = &&-eq-true _ (is_reached job.next_attempt_at now) e in
    (available job.status refl both.0, reached job.next_attempt_at refl both.1)
  where
    passed : (at : Option ℕ) → has_passed at now ≡ true → (t : ℕ) × (at ≡ some t) × (t ≤ now)
    passed none h = ground (arith, h)
    passed (some t) h = (t, refl, leb→le t now h)

    reached :
        (at : Option ℕ)
        → job.next_attempt_at ≡ at
        → is_reached at now ≡ true
        → (job.next_attempt_at ≡ none) ⊎ ((t : ℕ) × (job.next_attempt_at ≡ some t) × (t ≤ now))
    reached none same h = inl same
    reached (some t) same h = inr (t, same, leb→le t now h)

    available :
        (status : DeliveryStatus)
        → job.status ≡ status
        → (is_waiting status || (is_attempting status && has_passed job.claim_expires_at now))
          ≡ true
        → (job.status ≡ pending)
          ⊎ (job.status ≡ retry_wait)
          ⊎ ((job.status ≡ attempting) × ((t : ℕ) × (job.claim_expires_at ≡ some t) × (t ≤ now)))
    available pending same h = inl same
    available retry_wait same h = inr (inl same)
    available attempting same h = inr (inr (same, passed job.claim_expires_at h))
    available _ same h = absurd (ground (arith, h))

module _ (now limit : ℕ) (max_per_tenant : Option ℕ) where
  abbrev run : List DeliveryJob → Scan → List DeliveryJob
  run jobs st = (scan now limit max_per_tenant jobs st).due

  abbrev after : DeliveryJob → Scan → Scan
  after job st = (visit now limit max_per_tenant job st).0

  module _ (job : DeliveryJob) (rest : List DeliveryJob) (st : Scan) where
    scan_stop :
        (visit now limit max_per_tenant job st).1 ≡ true
        → scan now limit max_per_tenant (job ∷ rest) st ≡ after job st
    unfolding scan
    scan_stop e = rw (e, scan)

    scan_continue :
        (visit now limit max_per_tenant job st).1 ≡ false
        → scan now limit max_per_tenant (job ∷ rest) st
          ≡ scan now limit max_per_tenant rest (after job st)
    unfolding scan
    scan_continue e = rw (e, scan)

  -- a property of the due list that each round keeps, with those rounds that do not stop keeping more
  scan_induction :
      (I : Scan → Type 0) (E : Scan → Type 0)
      → ((job : DeliveryJob) (st : Scan) → I st → E (after job st))
      → ((job : DeliveryJob) (st : Scan)
          → I st
          → (visit now limit max_per_tenant job st).1 ≡ false
          → I (after job st))
      → ((st : Scan) → I st → E st)
      → (jobs : List DeliveryJob) (st : Scan) → I st
      → E (scan now limit max_per_tenant jobs st)
  unfolding scan
  scan_induction I E ends keeps weaken [] st i = weaken st i
  scan_induction I E ends keeps weaken (job ∷ rest) st i =
      elim (Bool-cases (visit now limit max_per_tenant job st).1) [
        | inl e ↦ rw (e, scan) (ends job st i)
        | inr e ↦
            rw (e, scan)
              (scan_induction I E ends keeps weaken rest (after job st) (keeps job st i e))
      ]

  length-scan : (jobs : List DeliveryJob) → length (run jobs start) ≤ max limit 1
  unfolding visit
  length-scan jobs =
      scan_induction (λ st. (length st.due ≡ 0) ⊎ (length st.due < limit))
        (λ st. length st.due ≤ max limit 1)
        (λ job st i. ground (arith, i, length-append st.due (job ∷ [])))
        (λ job st i e. ground (arith, i, e, length-append st.due (job ∷ [])))
        (λ st i. ground (arith, i)) jobs start (inl refl)

  tenant-scan :
      (quota : ℕ) (tenant_id : String) (jobs : List DeliveryJob)
      → max_per_tenant ≡ some quota
      → count_where (of_tenant tenant_id) (run jobs start) ≤ quota
  unfolding visit Dict.get
  tenant-scan quota t jobs q =
      (scan_induction I I keeps (λ job st i _. keeps job st i) (λ st i. i) jobs start
        (refl, omega arith)).1
    where
      I : Scan → Type 0
      I st =
          (count_where (of_tenant t) st.due ≡ claims_of t st.tenant_claims)
          × (count_where (of_tenant t) st.due ≤ quota)

      keeps : (job : DeliveryJob) (st : Scan) → I st → I (after job st)
      keeps job st i = ground (
        arith,
        i,
        q,
        count_where-append (of_tenant t) st.due (job ∷ []),
        get-put t job.tenant_id (claims_of job.tenant_id st.tenant_claims + 1) st.tenant_claims,
      )

  -- the keys met in the jobs that the loop has passed are the blocked ones
  abbrev Passed : List DeliveryJob → Scan → Type 0
  Passed seen st =
      (job : DeliveryJob) → contains st.blocked (order_key job) ≡ is_some (find (same_key job) seen)

  Passed-visit :
      (seen : List DeliveryJob) (job : DeliveryJob) (st : Scan)
      → Passed seen st
      → Passed (seen ++ job ∷ []) (after job st)
  unfolding visit
  Passed-visit seen job st passed other = elim (Option-cases (find (same_key other) seen)) [
    | inl e ↦
        ground
          (arith, passed other, passed job, e, find-append_none (same_key other) seen (job ∷ []) e)
    | inr (found, e) ↦
        ground (arith, passed other, passed job, e, find-append (same_key other) seen (job ∷ []) e)
  ]

  IsHead-visit :
      (seen : List DeliveryJob) (job : DeliveryJob) (st : Scan)
      → Passed seen st
      → All (IsHead seen) st.due
      → All (IsHead (seen ++ job ∷ [])) (after job st).due
  unfolding visit
  IsHead-visit seen job st passed heads =
      let kept =
        All-map (IsHead seen) (IsHead (seen ++ job ∷ []))
          (λ other h. find-append (same_key other) seen (job ∷ []) h) st.due heads in
      ground (
        arith,
        kept,
        passed job,
        find-append_none (same_key job) seen (job ∷ []),
        All-append (IsHead (seen ++ job ∷ [])) st.due (job ∷ []) kept,
      )

  IsHead-scan :
      (seen jobs : List DeliveryJob) (st : Scan)
      → Passed seen st
      → All (IsHead seen) st.due
      → All (IsHead (seen ++ jobs)) (run jobs st)
  IsHead-scan seen [] st passed heads = unfold scan in rw append-nil heads
  IsHead-scan seen (job ∷ rest) st passed heads =
      let heads' = IsHead-visit seen job st passed heads in
      subst (λ all. All (IsHead all) (run (job ∷ rest) st)) (append_assoc seen (job ∷ []) rest)
        (elim (Bool-cases (visit now limit max_per_tenant job st).1) [
          | inl e ↦
              subst (λ t. All (IsHead ((seen ++ job ∷ []) ++ rest)) t.due)
                (sym (scan_stop job rest st e))
                (All-map (IsHead (seen ++ job ∷ [])) (IsHead ((seen ++ job ∷ []) ++ rest))
                  (λ other h. find-append (same_key other) (seen ++ job ∷ []) rest h)
                  (after job st).due heads')
          | inr e ↦
              subst (λ t. All (IsHead ((seen ++ job ∷ []) ++ rest)) t.due)
                (sym (scan_continue job rest st e))
                (IsHead-scan (seen ++ job ∷ []) rest (after job st)
                  (Passed-visit seen job st passed) heads')
        ])

  IsDue-visit :
      (job : DeliveryJob) (st : Scan) → All (IsDue now) st.due → All (IsDue now) (after job st).due
  unfolding visit
  IsDue-visit job st i = elim (Bool-cases (is_due now job)) [
    | inl e ↦
        ground (arith, i, All-append (IsDue now) st.due (job ∷ []) i (is_due-IsDue now job e, tt))
    | inr e ↦ ground (arith, i, e)
  ]

  IsDue-scan : (jobs : List DeliveryJob) → All (IsDue now) (run jobs start)
  IsDue-scan jobs =
      scan_induction (λ st. All (IsDue now) st.due) (λ st. All (IsDue now) st.due) IsDue-visit
        (λ job st i _. IsDue-visit job st i) (λ st i. i) jobs start tt

-- a claim hands out what the scan found due, each in its claimed form
module _ (worker_id : String) (claim_ttl now : ℕ) (token : ℕ → String) where
  pub claimed_from : ℕ → List DeliveryJob → List DeliveryJob
  claimed_from i [] = []
  claimed_from i (job ∷ rest) =
      claimed worker_id claim_ttl now job (token i) ∷ claimed_from (i + 1) rest

  claim_jobs-result :
      (i : ℕ) (due : List DeliveryJob) (s : JobStore)
      → (claim_jobs worker_id claim_ttl now token i due s).1 ≡ claimed_from i due
  unfolding claim_jobs claimed_from
  claim_jobs-result i [] s = refl
  claim_jobs-result i (job ∷ rest) s =
      let updated = claimed worker_id claim_ttl now job (token i) in
      rw (claim_jobs-result (i + 1) rest (set_job s job.delivery_id updated))

  length-claimed_from : (i : ℕ) (due : List DeliveryJob) → length (claimed_from i due) ≡ length due
  unfolding claimed_from
  length-claimed_from i [] = refl
  length-claimed_from i (job ∷ rest) = ap suc (length-claimed_from (i + 1) rest)

  count-claimed_from :
      (tenant_id : String) (i : ℕ) (due : List DeliveryJob)
      → count_where (of_tenant tenant_id) (claimed_from i due)
        ≡ count_where (of_tenant tenant_id) due
  unfolding claimed_from claimed
  count-claimed_from t i [] = refl
  count-claimed_from t i (job ∷ rest) = ground (arith, count-claimed_from t (i + 1) rest)

  -- A claim hands out at most `limit` jobs (one, for a limit of 0), and at most `quota` of a tenant.
  pub claim_due_bounded :
      (limit quota : ℕ) (tenant_id : String) (s : JobStore)
      → let jobs = (claim_due worker_id claim_ttl now token limit (some quota) s).1 in
        (length jobs ≤ max limit 1) × (count_where (of_tenant tenant_id) jobs ≤ quota)
  unfolding claim_due
  claim_due_bounded limit quota t s =
      let due = run now limit (some quota) (active_jobs s) start in
      rw (claim_jobs-result 0 due s) (
        rw (length-claimed_from 0 due) (length-scan now limit (some quota) (active_jobs s)),
        rw (count-claimed_from t 0 due)
            (tenant-scan now limit (some quota) quota t (active_jobs s) refl),
      )

  -- A claim hands out, in claimed form, jobs that are waiting or whose claim has run out, and whose
  -- next attempt has come. No active job of the store with the same tenant, session and sink was
  -- created before one of them, and each is the first active one of its key in the order of
  -- `created_at` and `delivery_id`: a job never overtakes another of its key.
  pub claim_due_in_order :
      (limit : ℕ) (max_per_tenant : Option ℕ) (s : JobStore)
      → (due : List DeliveryJob) × ((claim_due worker_id claim_ttl now token limit max_per_tenant
            s).1
          ≡ claimed_from 0 due)
        × All (IsDue now) due
        × All (IsHead (active_jobs s)) due
        × All (IsOldest s) due
  unfolding claim_due
  claim_due_in_order limit quota s =
      let due = run now limit quota (active_jobs s) start in
      let heads = IsHead-scan now limit quota [] (active_jobs s) start (λ job. refl) tt in
      (
        due,
        claim_jobs-result 0 due s,
        IsDue-scan now limit quota (active_jobs s),
        heads,
        All-map (IsHead (active_jobs s)) (IsOldest s) (head-IsOldest s) due heads,
      )
