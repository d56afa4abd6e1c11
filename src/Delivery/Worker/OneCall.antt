-- ===== src/Delivery/Worker/OneCall.antt =====
-- Runs of a delivery task that call an adapter once at most, put together from their parts.
use aura_claw.Prelude.{
  ◌≡◌, ap, ◌∙◌, ◌⊎◌, inl, inr, Bool, true, false, ◌∷◌, if◌then◌else◌, option_eq, pair_eq, triple_eq,
  string_eq, nat_eq, Result, ok, err,
}
use aura_claw.Delivery.Types.{DeliveryJob}
use aura_claw.Delivery.Store.{JobStore}
use aura_claw.Delivery.Worker.{Task, Call, Exec, proceed}
use aura_claw.Delivery.Worker.{◌>>=◌}
use aura_claw.Delivery.Worker.Runs.{IsGuarded, Quiet, Quietly}

module _ (I : JobStore → Type 0) (job : DeliveryJob) where
  -- at most one call, of an adapter for the job that the task has claimed, and the store as good as
  -- it was
  pub record OneCall (s t : Task) : Type 0 where
    pub kept : I s.shared.jobs → I t.shared.jobs
    pub calls :
        (t.calls ≡ s.calls) ⊎ ((call : Call) × (t.calls ≡ call ∷ s.calls) × IsGuarded job call)

  abbrev pub Calling : {A : Type 0} → Exec A → Type 0
  Calling m = (s : Task) → OneCall s (m s).0

  pub OneCall-Quiet : {s t : Task} → Quiet I s t → OneCall s t
  OneCall-Quiet q = record { kept = q.kept; calls = inl q.same }

  pub join_before : {s t u : Task} → Quiet I s t → OneCall t u → OneCall s u
  join_before q c = record {
    kept = λ i. c.kept (q.kept i);
    calls = elim c.calls [
      | inl e ↦ inl (e ∙ q.same)
      | inr (call, e, g) ↦ inr (call, e ∙ ap (λ cs. call ∷ cs) q.same, g)
    ];
  }

  pub join_after : {s t u : Task} → OneCall s t → Quiet I t u → OneCall s u
  join_after c q = record {
    kept = λ i. q.kept (c.kept i);
    calls = elim c.calls [
      | inl e ↦ inl (q.same ∙ e)
      | inr (call, e, g) ↦ inr (call, q.same ∙ e, g)
    ];
  }

  pub Calling-Quiet : {A : Type 0} (m : Exec A) → Quietly I m → Calling m
  Calling-Quiet m q s = OneCall-Quiet (q s)

  module _ {A B : Type 0} where
    pub proceed_before :
        (s : Task) (next : A → Exec B)
        → ((a : A) → Calling (next a))
        → (r : Task × Result A) → Quiet I s r.0
        → OneCall s (proceed next r).0
    unfolding proceed
    proceed_before s next c (t, err e) q = OneCall-Quiet q
    proceed_before s next c (t, ok a) q = join_before q (c a t)

    pub proceed_after :
        (s : Task) (next : A → Exec B)
        → ((a : A) → Quietly I (next a))
        → (r : Task × Result A) → OneCall s r.0
        → OneCall s (proceed next r).0
    unfolding proceed
    proceed_after s next q (t, err e) c = c
    proceed_after s next q (t, ok a) c = join_after c (q a t)

    pub call_next :
        (m : Exec A) (next : A → Exec B)
        → Quietly I m
        → ((a : A) → Calling (next a))
        → Calling (m >>= next)
    call_next m next q c s = proceed_before s next c (m s) (q s)

    pub call_first :
        (m : Exec A) (next : A → Exec B)
        → Calling m
        → ((a : A) → Quietly I (next a))
        → Calling (m >>= next)
    call_first m next c q s = proceed_after s next q (m s) (c s)

  pub Calling-if :
      {A : Type 0} (test : Bool) (m n : Exec A)
      → Calling m
      → Calling n
      → Calling (if test then m else n)
  Calling-if true m n p q = p
  Calling-if false m n p q = q
