-- ===== src/Budget/Reservations.antt =====
-- `govern` of domain/runtime_budget.py keeps the reservations of a run within its budget.
use aura_claw.Prelude.{
  ℕ, ◌+◌, ◌≤◌, String, ◌≡◌, refl, sym, ap, ◌∙◌, subst, ◌⊎◌, inl, inr, Bool, false, Option, some,
  List, [], ◌∷◌, ◌++◌, arith, ◌==◌, option_eq, pair_eq, triple_eq, string_eq, nat_eq, all, All, ok,
  ◌>>=◌, ok-injective, >>=-eq-ok,
}
use aura_claw.Prelude.Dict.{Dict}
use aura_claw.Contracts.{NewEvent}
use aura_claw.Budget.Types.{Budget, Reservation, BudgetEvent, reservation_eq}
use aura_claw.Budget.Usage.{
  Event, Turn, Call, Usage, note_turn, reservations, models, tools, output_tokens, outstanding,
  counted, usage_of, usage,
}
use aura_claw.Budget.Tallies.{steps_of}
use aura_claw.Budget.Govern.{reserve_all, tally_of, govern_run}
use aura_claw.Budget.Charges.{Stored, is_turn, AtMost, Covers, reserve_all-Covers}

reservations-append :
    (run : Option String) (xs ys : List Event) (d : Dict String Reservation)
    → reservations run (xs ++ ys) d ≡ reservations run ys (reservations run xs d)
unfolding reservations
reservations-append run [] ys d = refl
reservations-append run (x ∷ xs) ys d = reservations-append run xs ys _

note_turn-quiet :
    (own : Bool) (payload : BudgetEvent) (d : Dict String Turn)
    → is_turn payload ≡ false
    → note_turn own payload d ≡ d
unfolding note_turn
note_turn-quiet own (BudgetEvent.model_turn_completed _ _ _) d h = cc
note_turn-quiet own payload d h = refl

models-append :
    (run : String) (xs : List Event) (events : List (NewEvent BudgetEvent)) (ys : List Event)
    (d : Dict String Turn)
    → Stored run events ys
    → All (λ e. is_turn e.payload ≡ false) events
    → models (some run) (xs ++ ys) d ≡ models (some run) xs d
unfolding models
models-append run (x ∷ xs) events ys d s quiet = models-append run xs events ys _ s quiet
models-append run [] [] [] d s quiet = refl
models-append run [] [] (_ ∷ _) d s quiet = absurd s
models-append run [] (_ ∷ _) [] d s quiet = absurd s
models-append run [] (e ∷ events) (y ∷ ys) d s quiet =
    ap (models (some run) ys)
      (note_turn-quiet (y.run_id == some run) y.payload d (ap is_turn s.0 ∙ quiet.0))
    ∙ models-append run [] events ys d s.2 quiet.1

-- what a usage says of the run's limits
abbrev pub KeepsLimits : Budget → Usage → Usage → Type 0
KeepsLimits budget before after =
    (after.output_tokens ≡ before.output_tokens)
    × (((after.steps_used ≤ before.steps_used)
          × (after.output_tokens_reserved ≤ before.output_tokens_reserved))
        ⊎ (AtMost after.steps_used 48 budget.max_steps
            × AtMost (after.output_tokens + after.output_tokens_reserved) 8192
                budget.max_output_tokens))

usage_of-eq-ok :
    (reserved : Dict String Reservation) (turns : Dict String Turn) (calls : Dict String Call)
    {used : Usage}
    → usage_of reserved turns calls ≡ ok used
    → (outstanding turns reserved ≡ ok used.output_tokens_reserved)
      × (used.steps_used ≡ steps_of reserved turns)
      × (used.output_tokens ≡ output_tokens turns)
unfolding usage_of
usage_of-eq-ok reserved turns calls {used} h =
    let (w, waiting, made) = >>=-eq-ok (outstanding turns reserved) _ h in
    let same = ok-injective made in
    (
      waiting ∙ ap (λ u. ok u.output_tokens_reserved) same,
      ap (λ u. u.steps_used) (sym same),
      ap (λ u. u.output_tokens) (sym same),
    )

usage_of_total :
    (reserved : Dict String Reservation) (turns : Dict String Turn) (calls : Dict String Call)
    {w : ℕ}
    → outstanding turns reserved ≡ ok w
    → (used : Usage) × (usage_of reserved turns calls ≡ ok used)
      × (used.output_tokens_reserved ≡ w)
      × (used.steps_used ≡ steps_of reserved turns)
      × (used.output_tokens ≡ output_tokens turns)
unfolding usage_of
usage_of_total reserved turns calls {w} h = (
  counted w reserved turns calls,
  ap (λ x. x >>= (λ n. ok (counted n reserved turns calls))) h,
  refl,
  refl,
  refl,
)

pub govern_run-KeepsLimits :
    (existing stored : List Event) (run : String) (budget : Budget)
    (proposed result : List (NewEvent BudgetEvent)) {before : Usage}
    → govern_run existing (some run) budget proposed ≡ ok result
    → Stored run proposed stored
    → All (λ e. is_turn e.payload ≡ false) proposed
    → usage existing run ≡ ok before
    → (after : Usage) × (usage (existing ++ stored) run ≡ ok after)
      × KeepsLimits budget before after
unfolding govern_run usage
govern_run-KeepsLimits existing stored run budget proposed result {before} h s quiet used =
    let (u, found, h') = >>=-eq-ok (usage existing run) _ h in
    let d = reservations (some run) existing [] in
    let turns = models (some run) existing [] in
    let start = tally_of u.steps_used u.output_tokens_reserved d in
    let (tally, all, _) = >>=-eq-ok (reserve_all budget u.output_tokens start proposed) _ h' in
    let (waiting, steps, output) = usage_of-eq-ok d turns (tools (some run) existing []) found in
    let covers : Covers budget u.output_tokens turns start =
      (omega (arith, steps), u.output_tokens_reserved, waiting, omega arith) in
    let ((fewer_steps, w, waiting', fewer_tokens), charged, prior) =
      reserve_all-Covers budget u.output_tokens turns run proposed stored start tally s all
        covers in
    let d' = reservations (some run) (existing ++ stored) [] in
    let turns' = models (some run) (existing ++ stored) [] in
    let same_d : d' ≡ tally.prior = reservations-append (some run) existing stored [] ∙ sym prior in
    let same_turns : turns' ≡ turns = models-append run existing proposed stored [] s quiet in
    let (after, made, reserved', steps', output') =
      usage_of_total d' turns' (tools (some run) (existing ++ stored) []) {w = w}
        (ap (λ x. outstanding x d') same_turns ∙ ap (outstanding turns) same_d ∙ waiting') in
    let steps'' : after.steps_used ≡ steps_of tally.prior turns =
      steps' ∙ ap (steps_of d') same_turns ∙ ap (λ x. steps_of x turns) same_d in
    let output'' : after.output_tokens ≡ u.output_tokens =
      output' ∙ ap output_tokens same_turns ∙ sym output in
    (
      after,
      made,
      subst (λ b. KeepsLimits budget b after) (ok-injective (sym found ∙ used))
          (
            output'',
            elim charged [
              | inl kept ↦ inl (
                omega (arith, steps'', ap (λ v. v.steps) kept),
                omega (arith, reserved', ap (λ v. v.reserved) kept),
              )
              | inr ((n, limit, le), (m, limit', le')) ↦ inr (
                (n, limit, omega (arith, steps'')),
                (m, limit', omega (arith, output'', reserved')),
              )
            ],
          ),
    )
