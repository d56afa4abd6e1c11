-- ===== src/Events/Governed.antt =====
-- What a successful `append` of InMemoryEventStore has asked the governance of budgets.
use aura_claw.Prelude.{
  ℕ, String, ◌≡◌, refl, sym, ap, ◌∙◌, subst, inl, inr, false, Option, none, some, List, [], ◌∷◌,
  arith, Bool-cases, Option-cases, ◌==◌, option_eq, pair_eq, triple_eq, string_eq, nat_eq, length,
  select, Result, ok, err, ok-injective,
}
use aura_claw.Prelude.Dict
use aura_claw.Prelude.Dict.{
  Dict, get-put, get-remove, get-put_self, get-remove_self, put-put_self, dict_laws,
}
use aura_claw.Contracts.{NewEvent, CanonicalEvent}
use aura_claw.Events.Store.{
  CommandContext, CommandResult, AppendResult, EventStore, stream, root_events, canonical, commit,
  opened, append,
}

module _ {P : Type 0} where
  select_root : String → List (CanonicalEvent P) → List (CanonicalEvent P)
  select_root root = select (λ e. e.root_session_id == root)

  -- `setdefault` adds no event.
  root_events-put :
      (tenant_id root : String) (key : String × String)
      (streams : Dict (String × String) (List (CanonicalEvent P))) (rows : List (CanonicalEvent P))
      → (elim (Dict.get key streams) [ none ↦ [] | some events ↦ events ]) ≡ rows
      → root_events tenant_id root (Dict.put key rows streams) ≡ root_events tenant_id root streams
  unfolding root_events Dict.get Dict.put
  root_events-put tenant_id root (t, s) [] rows h =
      subst (λ r. root_events tenant_id root (((t, s), r) ∷ []) ≡ []) h (ground arith)
  root_events-put tenant_id root k ((j, old) ∷ streams) rows h =
      ground (arith, root_events-put tenant_id root k streams rows)

  module _ (govern : List (CanonicalEvent P) → List (NewEvent P) → Result (List (NewEvent P)))
      (hex : ℕ → String) (at : ℕ → ℕ) (root_session_id session_id : String) (run_id : Option String)
      (context : CommandContext) where
    commit-governed :
        (result : CommandResult) (s : EventStore P) (governed : Result (List (NewEvent P)))
        {answer : AppendResult P}
        → (commit govern hex at root_session_id session_id run_id context result s governed).1
          ≡ ok answer
        → (events : List (NewEvent P)) × (governed ≡ ok events)
          × (answer.events
              ≡ canonical govern hex at root_session_id session_id run_id context 1 events)
    unfolding commit
    commit-governed result s (err e) h = cc
    commit-governed result s (ok events) h =
        (events, refl, ap (λ r. r.events) (sym (ok-injective h)))

    pub append-governed :
        (events : List (NewEvent P)) (result : CommandResult) (s : EventStore P)
        {answer : AppendResult P}
        → (append govern hex at root_session_id session_id run_id context events result s).1
          ≡ ok answer
        → answer.deduplicated ≡ false
        → (events' : List (NewEvent P)) × (govern
              (root_events context.tenant_id root_session_id s.streams)
              events
            ≡ ok events')
          × (answer.events
              ≡ canonical govern hex at root_session_id session_id run_id context 1 events')
    unfolding append opened stream
    append-governed events result s {answer} =
        let j : String × String = (context.tenant_id, session_id) in
        let same =
          root_events-put context.tenant_id root_session_id j s.streams (stream j s) refl in
        elim (Option-cases
          (Dict.get (context.tenant_id, context.operation, context.command_id) s.commands)) [
            | inr (previous, e) ↦
                elim (Bool-cases (result.request_fingerprint == previous.request_fingerprint)) [
                  | inl b ↦ rw (append, e, b) (λ h fresh. cc (ok-injective h))
                  | inr b ↦ rw (append, e, b) (λ h fresh. ground arith)
                ]
            | inl e ↦ elim (Bool-cases (length (stream j s) == context.expected_version)) [
              | inl b ↦
                  rw (append, e, b)
                    (λ h fresh.
                      let (events', governed, made) =
                        commit-governed result
                          (opened govern hex at root_session_id session_id run_id context s) _ h in
                      (events', ap (λ past. govern past events) (sym same) ∙ governed, made))
              | inr b ↦ rw (append, e, b) (λ h fresh. ground arith)
            ]
          ]
