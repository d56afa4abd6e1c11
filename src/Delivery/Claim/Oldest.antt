-- ===== src/Delivery/Claim/Oldest.antt =====
-- Proofs about the order of the jobs that `claim_due` goes through: the first of an order key is
-- the oldest.
use aura_claw.Prelude.{
  ◌≤◌, ◌≡◌, refl, ap, ◌∙◌, subst, ◌⊎◌, inl, inr, Bool, true, some, List, [], ◌∷◌, arith, Bool-cases,
  ◌==◌, option_eq, pair_eq, triple_eq, string_eq, nat_eq, ==_refl, select, find, All, All-map,
}
use aura_claw.Prelude.Dict.{values}
use aura_claw.Prelude.Sort.{sort, insert, All-insert, All-unsort}
use aura_claw.Delivery.Types.{DeliveryJob}
use aura_claw.Delivery.Types.DeliveryStatus.{pending, attempting, retry_wait}
use aura_claw.Delivery.Store.{JobStore}
use aura_claw.Delivery.Claim.{created_before, active_jobs, is_active, order_key}

-- PENDING, RETRY_WAIT or ATTEMPTING
abbrev pub IsActive : DeliveryJob → Type 0
IsActive job = (job.status ≡ pending) ⊎ (job.status ≡ retry_wait) ⊎ (job.status ≡ attempting)

-- No active job of its tenant, session and sink in the store was created before it.
abbrev pub IsOldest : JobStore → DeliveryJob → Type 0
IsOldest s job =
    All
      (λ other.
        IsActive other → order_key other ≡ order_key job → job.created_at ≤ other.created_at)
      (values s.jobs)

abbrev NotBefore : DeliveryJob → DeliveryJob → Type 0
NotBefore job other = job.created_at ≤ other.created_at

Ascending : List DeliveryJob → Type 0
Ascending [] = Unit
Ascending (job ∷ jobs) = All (NotBefore job) jobs × Ascending jobs

Ascending-insert :
    (job : DeliveryJob) (jobs : List DeliveryJob)
    → Ascending jobs
    → Ascending (insert created_before job jobs)
unfolding Ascending insert
Ascending-insert job [] h = (tt, tt)
Ascending-insert job (first ∷ rest) h = elim (Bool-cases (created_before first job)) [
  | inl e ↦
      let le : first.created_at ≤ job.created_at = unfold created_before in ground (arith, e) in
      rw e
        (All-insert created_before (NotBefore first) job rest le h.0, Ascending-insert job rest h.1)
  | inr e ↦
      let le : job.created_at ≤ first.created_at = unfold created_before in ground (arith, e) in
      rw e (
        (le, All-map (NotBefore first) (NotBefore job) (λ other m. omega (arith, le, m)) rest h.0),
        h,
      )
]

Ascending-sort : (jobs : List DeliveryJob) → Ascending (sort created_before jobs)
unfolding sort Ascending
Ascending-sort [] = tt
Ascending-sort (job ∷ jobs) = Ascending-insert job (sort created_before jobs) (Ascending-sort jobs)

module _ (test : DeliveryJob → Bool) where
  find-Ascending :
      (jobs : List DeliveryJob) (job : DeliveryJob)
      → Ascending jobs
      → find test jobs ≡ some job
      → All (λ other. test other ≡ true → NotBefore job other) jobs
  unfolding Ascending
  find-Ascending [] job h e = tt
  find-Ascending (first ∷ rest) job h e = elim (Bool-cases (test first)) [
    | inl t ↦
        let same : first ≡ job = ground (arith, t, e) in
        subst (λ j. All (λ other. test other ≡ true → NotBefore j other) (first ∷ rest)) same
          (
            λ m. omega arith,
            All-map (NotBefore first) (λ other. test other ≡ true → NotBefore first other)
                (λ other m x. m) rest h.0,
          )
    | inr t ↦ (λ m. ground (arith, t, m), find-Ascending rest job h.1 (ground (arith, t, e)))
  ]

  All-unselect :
      (Q : DeliveryJob → Type 0) (jobs : List DeliveryJob)
      → All Q (select test jobs)
      → All (λ job. test job ≡ true → Q job) jobs
  All-unselect Q [] = λ h. tt
  All-unselect Q (job ∷ jobs) = elim (Bool-cases (test job)) [
    | inl t ↦ rw t (λ h. (λ m. h.0, All-unselect Q jobs h.1))
    | inr t ↦ rw t (λ h. (λ m. ground (arith, m), All-unselect Q jobs h))
  ]

active-IsActive : (job : DeliveryJob) → IsActive job → is_active job.status ≡ true
active-IsActive job (inl e) = rw e refl
active-IsActive job (inr (inl e)) = rw e refl
active-IsActive job (inr (inr e)) = rw e refl

-- the first active job of its key is the oldest one
pub head-IsOldest :
    (s : JobStore) (job : DeliveryJob)
    → find (λ other. order_key other == order_key job) (active_jobs s) ≡ some job
    → IsOldest s job
unfolding active_jobs
head-IsOldest s job e =
    let test : DeliveryJob → Bool = λ other. order_key other == order_key job in
    let active : DeliveryJob → Bool = λ other. is_active other.status in
    let found = select active (values s.jobs) in
    let heads : All (λ other. test other ≡ true → NotBefore job other) (sort created_before found) =
      find-Ascending test (sort created_before found) job (Ascending-sort found) e in
    All-map _ _
      (λ other h a k.
        h (active-IsActive other a) (ap (λ key. key == order_key job) k ∙ ==_refl (order_key job)))
      (values s.jobs)
      (All-unselect active _ (values s.jobs) (All-unsort created_before _ found heads))
