-- ===== src/Budget/Appends.antt =====
-- `append` of the event store under `govern` of domain/runtime_budget.py.
use aura_claw.Prelude.{
  ℕ, ◌+◌, String, ◌≡◌, refl, sym, ap, ◌∙◌, subst, false, Option, some, List, [], ◌∷◌, ◌++◌,
  if◌then◌else◌, ◌==◌, option_eq, pair_eq, triple_eq, string_eq, nat_eq, ==_refl, All, Result, ok,
  ok-injective, >>=-eq-ok,
}
use aura_claw.Contracts.{NewEvent}
use aura_claw.Budget.Types.{Budget, BudgetEvent}
use aura_claw.Budget.Usage.{Event, Usage, reservations, usage}
use aura_claw.Budget.Allocation.{allocate, text_of}
use aura_claw.Budget.Govern.{tally_of, reserve_all, budget_of, govern_run, govern_budget, govern}
use aura_claw.Budget.Charges.{Stored, is_turn}
use aura_claw.Budget.Reservations.{KeepsLimits, govern_run-KeepsLimits}
use aura_claw.Events.Governed.{append-governed}
use aura_claw.Events.Store.{
  CommandContext, CommandResult, AppendResult, EventStore, root_events, canonical, append,
}

govern_budget-eq :
    (existing : List Event) (run_id : Option String) (budget : Budget)
    (result : List (NewEvent BudgetEvent))
    → budget.policy_version ≡ some "2"
    → govern_budget existing run_id budget result ≡ govern_run existing run_id budget result
unfolding govern_budget
govern_budget-eq existing run_id budget result e =
    ap (λ v. if v == some "2" then govern_run existing run_id budget result else ok result) e
    ∙ ap (λ b. if b then govern_run existing run_id budget result else ok result)
        (==_refl {A = Option String} (some "2"))

pub govern_run_same :
    (existing : List Event) (run_id : Option String) (budget : Budget)
    (proposed result : List (NewEvent BudgetEvent))
    → govern_run existing run_id budget proposed ≡ ok result
    → result ≡ proposed
unfolding govern_run
govern_run_same existing run_id budget proposed result h =
    let (used, _, h') = >>=-eq-ok (usage existing (text_of run_id)) _ h in
    let (_, _, h'') =
      >>=-eq-ok
        (reserve_all budget used.output_tokens
          (tally_of used.steps_used used.output_tokens_reserved (reservations run_id existing []))
          proposed)
        _ h' in
    sym (ok-injective h'')

-- Where a run's budget has policy version 2, the events that govern returns for it keep its limits:
-- if none of them completes a turn of a model, then after they are stored either no more steps and
-- output tokens are used and reserved than before, or the steps are at most the budget's max_steps,
-- and the output tokens used and reserved at most its max_output_tokens.
pub govern-KeepsLimits :
    (existing : List Event) (proposed : List (NewEvent BudgetEvent))
    (session_id root_session_id run : String) (stored : List Event)
    {result : List (NewEvent BudgetEvent)} {before : Usage}
    → govern existing proposed session_id root_session_id (some run) ≡ ok result
    → (budget_of existing (some run)).policy_version ≡ some "2"
    → Stored run result stored
    → All (λ e. is_turn e.payload ≡ false) result
    → usage existing run ≡ ok before
    → (after : Usage) × (usage (existing ++ stored) run ≡ ok after)
      × KeepsLimits (budget_of existing (some run)) before after
unfolding govern
govern-KeepsLimits existing proposed session_id root_session_id run stored {result} {before} h
      policy s quiet used =
    let budget = budget_of existing (some run) in
    let (allocated, _, h') =
      >>=-eq-ok (allocate existing proposed session_id root_session_id) _ h in
    let h'' = sym (govern_budget-eq existing (some run) budget allocated policy) ∙ h' in
    let same = govern_run_same existing (some run) budget allocated result h'' in
    govern_run-KeepsLimits existing stored run budget allocated result h''
      (subst (λ r. Stored run r stored) same s)
      (subst (All (λ e. is_turn e.payload ≡ false)) same quiet) used

Stored-canonical :
    (g : List Event → List (NewEvent BudgetEvent) → Result (List (NewEvent BudgetEvent)))
    (hex : ℕ → String) (at : ℕ → ℕ) (root_session_id session_id run : String)
    (context : CommandContext) (offset : ℕ) (events : List (NewEvent BudgetEvent))
    → Stored run events
        (canonical g hex at root_session_id session_id (some run) context offset events)
unfolding canonical
Stored-canonical g hex at root_session_id session_id run context offset [] = tt
Stored-canonical g hex at root_session_id session_id run context offset (e ∷ events) = (
  refl,
  refl,
  Stored-canonical g hex at root_session_id session_id run context (offset + 1) events,
)

quiet_back :
    (run : String) (events : List (NewEvent BudgetEvent)) (stored : List Event)
    → Stored run events stored
    → All (λ (e : Event). is_turn e.payload ≡ false) stored
    → All (λ (e : NewEvent BudgetEvent). is_turn e.payload ≡ false) events
quiet_back run [] [] s quiet = tt
quiet_back run [] (_ ∷ _) s quiet = absurd s
quiet_back run (_ ∷ _) [] s quiet = absurd s
quiet_back run (e ∷ events) (e' ∷ stored) s quiet =
    (ap is_turn (sym s.0) ∙ quiet.0, quiet_back run events stored s.2 quiet.1)

-- the governance as `append` calls it
abbrev pub governs :
    (session_id root_session_id : String)
    → Option String
    → List Event
    → List (NewEvent BudgetEvent)
    → Result (List (NewEvent BudgetEvent))
governs session_id root_session_id run_id existing proposed =
    govern existing proposed session_id root_session_id run_id

module _ (hex : ℕ → String) (at : ℕ → ℕ) (root_session_id session_id run : String)
    (context : CommandContext) where
  -- Where a run's budget has policy version 2, an append for the run that is not a repetition keeps
  -- its limits: if none of the appended events completes a turn of a model, then with them either
  -- no more steps and output tokens are used and reserved than before, or the steps are at most the
  -- budget's max_steps, and the output tokens used and reserved at most its max_output_tokens. The
  -- usage is that of the root Session's events in the store.
  pub append-KeepsLimits :
      (events : List (NewEvent BudgetEvent)) (result : CommandResult) (s : EventStore BudgetEvent)
      {answer : AppendResult BudgetEvent} {before : Usage}
      → (append
          (governs session_id root_session_id (some run))
          hex
          at
          root_session_id
          session_id
          (some run)
          context
          events
          result
          s).1
        ≡ ok answer
      → answer.deduplicated ≡ false
      → let past = root_events context.tenant_id root_session_id s.streams in
        (budget_of past (some run)).policy_version ≡ some "2"
        → All (λ (e : Event). is_turn e.payload ≡ false) answer.events
        → usage past run ≡ ok before
        → (after : Usage) × (usage (past ++ answer.events) run ≡ ok after)
          × KeepsLimits (budget_of past (some run)) before after
  append-KeepsLimits events result s {answer} {before} h fresh policy quiet used =
      let g = governs session_id root_session_id (some run) in
      let past = root_events context.tenant_id root_session_id s.streams in
      let (evs, governed, made) =
        append-governed g hex at root_session_id session_id (some run) context events result s h
          fresh in
      let stored = canonical g hex at root_session_id session_id (some run) context 1 evs in
      let s' = Stored-canonical g hex at root_session_id session_id run context 1 evs in
      let (after, found, limits) =
        govern-KeepsLimits past events session_id root_session_id run stored governed policy s'
          (quiet_back run evs stored s'
            (subst (All (λ (e : Event). is_turn e.payload ≡ false)) made quiet))
          used in
      (after, ap (λ es. usage (past ++ es) run) made ∙ found, limits)
