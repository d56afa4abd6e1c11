-- ===== src/Budget/Charges.antt =====
-- The loop of `govern` in domain/runtime_budget.py that admits the reservations of a run.
use aura_claw.Prelude.{
  ℕ, ◌+◌, ◌≤◌, String, ◌≡◌, refl, sym, ap, ◌∙◌, subst, ◌⊎◌, inl, inr, Bool, true, false, ◌||◌,
  Option, none, some, List, [], ◌∷◌, arith, leb, leb→le, Bool-cases, Option-cases, ◌==◌, option_eq,
  pair_eq, triple_eq, string_eq, nat_eq, ==_refl, ==→eq, Error, Result, ok, ok-injective, >>=-eq-ok,
}
use aura_claw.Prelude.Dict
use aura_claw.Prelude.Dict.{
  Dict, get-put, get-remove, get-put_self, get-remove_self, put-put_self, dict_laws,
}
use aura_claw.Prelude.{guard-eq-ok}
use aura_claw.Contracts.{NewEvent}
use aura_claw.Budget.Types.{Amount, Budget, Reservation, BudgetEvent, reservation_eq}
use aura_claw.Budget.Usage.{Event, Turn, read_int, note_reservation, reservations, outstanding}
use aura_claw.Budget.Tallies.{steps_of, steps_of-append, outstanding-append}
use aura_claw.Budget.Govern.{Tally, tokens_of, admit, reserve, reserve_all, tally_of}

-- the stored events of the run are the proposed ones
abbrev pub Stored : String → List (NewEvent BudgetEvent) → List Event → Type 0
Stored run [] [] = Unit
Stored run (e ∷ es) (s ∷ ss) = (s.payload ≡ e.payload) × (s.run_id ≡ some run) × Stored run es ss
Stored run _ _ = ⊥

abbrev pub is_turn : BudgetEvent → Bool
is_turn (BudgetEvent.model_turn_completed _ _ _) = true
is_turn _ = false

-- the number is within the limit that the budget sets
abbrev pub AtMost : ℕ → ℕ → Option Amount → Type 0
AtMost n default limit = (m : ℕ) × (read_int default limit ≡ ok m) × (n ≤ m)

read_int-tokens_of :
    (r : Reservation) {tokens : ℕ}
    → tokens_of r ≡ ok tokens
    → read_int 0 r.output_tokens ≡ ok tokens
read_int-tokens_of r h = ground arith

own_run : (e : Event) (run : String) → e.run_id ≡ some run → (e.run_id == some run) ≡ true
own_run e run own = ap (λ r. r == some run) own ∙ ==_refl (some run)

module _ (budget : Budget) (output : ℕ) (turns : Dict String Turn) where
  -- the tally counts at least what the usage counts
  abbrev pub Covers : Tally → Type 0
  Covers t =
      (steps_of t.prior turns ≤ t.steps)
      × (w : ℕ) × (outstanding turns t.prior ≡ ok w)
      × (w ≤ t.reserved)

  -- nothing has been reserved, or the limits hold
  abbrev pub Charged : Tally → Tally → Type 0
  Charged old new =
      (new ≡ old)
      ⊎ (AtMost new.steps 48 budget.max_steps
          × AtMost (output + new.reserved) 8192 budget.max_output_tokens)

  Charged-trans : (s t u : Tally) → Charged s t → Charged t u → Charged s u
  Charged-trans s t u p (inr q) = inr q
  Charged-trans s t u (inl p) (inl q) = inl (q ∙ p)
  Charged-trans s t u (inr p) (inl q) = inr (
      subst
        (λ v.
          AtMost v.steps 48 budget.max_steps
          × AtMost (output + v.reserved) 8192 budget.max_output_tokens)
        (sym q) p)

  admit-eq-ok :
      (t t' : Tally) (r : Reservation)
      → admit budget output t r ≡ ok t'
      → (tokens : ℕ) × (tokens_of r ≡ ok tokens)
        × AtMost (t.steps + 1) 48 budget.max_steps
        × AtMost (output + t.reserved + tokens) 8192 budget.max_output_tokens
        × (tally_of (t.steps + 1) (t.reserved + tokens) (Dict.put r.reservation_id r t.prior) ≡ t')
  unfolding admit
  admit-eq-ok t t' r h =
      let (_, h1) =
        guard-eq-ok (r.kind == "model" || r.kind == "tool") Error.collaboration_validation _ h in
      let (tokens, known, h2) = >>=-eq-ok (tokens_of r) _ h1 in
      let (n, steps, h3) = >>=-eq-ok (read_int 48 budget.max_steps) _ h2 in
      let (few, h4) = guard-eq-ok (leb (t.steps + 1) n) Error.step_budget _ h3 in
      let (m, limit, h5) = >>=-eq-ok (read_int 8192 budget.max_output_tokens) _ h4 in
      let (short, h6) =
        guard-eq-ok (leb (output + t.reserved + tokens) m) Error.output_token_budget _ h5 in
      (tokens, known, (n, steps, leb→le _ _ few), (m, limit, leb→le _ _ short), ok-injective h6)

  reserve-eq-admit :
      (t : Tally) (r : Reservation)
      → Dict.get r.reservation_id t.prior ≡ none
      → reserve budget output t r ≡ admit budget output t r
  unfolding reserve
  reserve-eq-admit t r new = rw (new, reserve) refl

  reserve-Covers :
      (t t' : Tally) (r : Reservation)
      → reserve budget output t r ≡ ok t'
      → Covers t
      → Covers t' × Charged t t' × (t'.prior ≡ Dict.put r.reservation_id r t.prior)
  unfolding reserve
  reserve-Covers t t' r h covers = elim (Option-cases (Dict.get r.reservation_id t.prior)) [
    | inr (earlier, e) ↦ elim (Bool-cases (earlier == r)) [
      | inl same ↦
          let kept : t' ≡ t = ground arith in
          (
            subst Covers (sym kept) covers,
            inl kept,
            ap (λ v. v.prior) kept
                ∙ sym
                    (Dict.put_same r.reservation_id r t.prior (e ∙ ap some (==→eq earlier r same))),
          )
      | inr other ↦ ground arith
    ]
    | inl new ↦
        let (tokens, known, steps, short, made) =
          admit-eq-ok t t' r (sym (reserve-eq-admit t r new) ∙ h) in
        let last = Dict.put-eq-append r.reservation_id r t.prior new in
        let (more, waiting, le) =
          outstanding-append turns t.prior r.reservation_id r {waiting = covers.1} {tokens = tokens}
            covers.2 (read_int-tokens_of r known) in
        let t'' =
          tally_of (t.steps + 1) (t.reserved + tokens) (Dict.put r.reservation_id r t.prior) in
        (
          subst Covers made (
            subst (λ d. steps_of d turns ≤ t.steps + 1) (sym last)
                (omega (arith, steps_of-append t.prior turns r.reservation_id r)),
            more,
            ap (outstanding turns) last ∙ waiting,
            omega arith,
          ),
          inr (
              subst
                (λ v.
                  AtMost v.steps 48 budget.max_steps
                  × AtMost (output + v.reserved) 8192 budget.max_output_tokens)
                made (steps, (short.0, short.1, omega (arith, short.2)))),
          sym (ap (λ v. v.prior) made),
        )
  ]

  -- what one event of the loop does
  step : Tally → BudgetEvent → Result Tally
  step t payload = elim payload [
    | BudgetEvent.budget_reserved r ↦ reserve budget output t r
    | _ ↦ ok t
  ]

  step-Covers :
      (payload : BudgetEvent) (t t' : Tally)
      → step t payload ≡ ok t'
      → Covers t
      → Covers t' × Charged t t' × (t'.prior ≡ note_reservation true payload t.prior)
  unfolding step note_reservation
  step-Covers (BudgetEvent.budget_reserved r) t t' h covers = reserve-Covers t t' r h covers
  step-Covers payload t t' h covers =
      let same = sym (ok-injective h) in
      (subst Covers (sym same) covers, inl same, ap (λ v. v.prior) same)

  reservations-cons :
      (run : String) (e : Event) (events : List Event) (d : Dict String Reservation)
      → e.run_id ≡ some run
      → reservations (some run) (e ∷ events) d
        ≡ reservations (some run) events (note_reservation true e.payload d)
  unfolding reservations
  reservations-cons run e events d own =
      ap (λ b. reservations (some run) events (note_reservation b e.payload d)) (own_run e run own)

  pub reserve_all-Covers :
      (run : String) (events : List (NewEvent BudgetEvent)) (stored : List Event) (t t' : Tally)
      → Stored run events stored
      → reserve_all budget output t events ≡ ok t'
      → Covers t
      → Covers t' × Charged t t' × (t'.prior ≡ reservations (some run) stored t.prior)
  unfolding reserve_all reservations step
  reserve_all-Covers run [] [] t t' s h covers =
      let same = sym (ok-injective h) in
      (subst Covers (sym same) covers, inl same, ap (λ v. v.prior) same)
  reserve_all-Covers run [] (_ ∷ _) t t' s h covers = absurd s
  reserve_all-Covers run (_ ∷ _) [] t t' s h covers = absurd s
  reserve_all-Covers run (e ∷ events) (e' ∷ stored) t t' s h covers =
      let (u, first, rest) = >>=-eq-ok (step t e.payload) _ h in
      let (covers', charged, prior) = step-Covers e.payload t u first covers in
      let (covers'', charged', prior') =
        reserve_all-Covers run events stored u t' s.2 rest covers' in
      (
        covers'',
        Charged-trans t u t' charged charged',
        prior'
            ∙ ap (reservations (some run) stored)
                (prior ∙ ap (λ p. note_reservation true p t.prior) (sym s.0))
            ∙ sym (reservations-cons run e' stored t.prior s.1),
      )
