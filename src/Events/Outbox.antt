-- ===== src/Events/Outbox.antt =====
-- Proofs about what `append` of InMemoryEventStore adds to the outbox.
use aura_claw.Prelude.{
  ℕ, String, ◌≡◌, refl, sym, ap, ◌∙◌, subst, inl, inr, Option, List, [], ◌∷◌, ◌++◌, arith,
  if◌then◌else◌, Bool-cases, Option-cases, ◌==◌, contains, option_eq, pair_eq, triple_eq, string_eq,
  nat_eq, ==_refl, length, Error, Result, ok, err, ok-injective,
}
use aura_claw.Prelude.Dict
use aura_claw.Prelude.Dict.{
  Dict, get-put, get-remove, get-put_self, get-remove_self, put-put_self, dict_laws,
}
use mathlib.Core.List.{append-nil, append_assoc}
use aura_claw.Contracts.{NewEvent, CanonicalEvent}
use aura_claw.Events.Store.{
  is_projection, CommandContext, CommandResult, Destination, OutboxRecord, AppendResult, EventStore,
  stream, enlist, append_outbox_records, append_all_records, delivery_trigger_events,
  control_trigger_events, root_events, canonical, commit, opened, append,
}
use aura_claw.Events.Append.{stream-put, stream-opened}

module _ {P : Type 0} where
  -- the events that the outbox holds for the projections, in its order
  unfoldable pub projected : List (OutboxRecord P) → List (CanonicalEvent P)
  projected [] = []
  projected (r ∷ rs) =
      let rest = projected rs in if is_projection r.destination then r.event ∷ rest else rest

  projected-append :
      (xs ys : List (OutboxRecord P)) → projected (xs ++ ys) ≡ projected xs ++ projected ys
  unfolding projected
  projected-append [] ys = refl
  projected-append (x ∷ xs) ys = elim (Bool-cases (is_projection x.destination)) [
    | inl b ↦ rw b (ap (λ es. x.event ∷ es) (projected-append xs ys))
    | inr b ↦ rw b (projected-append xs ys)
  ]

  projected-enlist :
      (outbox : List (OutboxRecord P)) (e : CanonicalEvent P)
      → projected (enlist Destination.projection e outbox) ≡ projected outbox ++ e ∷ []
  unfolding enlist projected
  projected-enlist outbox e = projected-append outbox _

  delivery-enlist :
      (outbox : List (OutboxRecord P)) (e : CanonicalEvent P)
      → projected (enlist Destination.delivery e outbox) ≡ projected outbox
  unfolding enlist projected
  delivery-enlist outbox e = projected-append outbox _ ∙ append-nil (projected outbox)

  control-enlist :
      (outbox : List (OutboxRecord P)) (e : CanonicalEvent P)
      → projected (enlist Destination.control e outbox) ≡ projected outbox
  unfolding enlist projected
  control-enlist outbox e = projected-append outbox _ ∙ append-nil (projected outbox)

  projected-record :
      (outbox : List (OutboxRecord P)) (e : CanonicalEvent P)
      → projected (append_outbox_records outbox e) ≡ projected outbox ++ e ∷ []
  unfolding append_outbox_records
  projected-record outbox e =
      let p = enlist Destination.projection e outbox in
      let first = projected-enlist outbox e in
      elim (Bool-cases (contains control_trigger_events e.type)) [
        | inl c ↦ elim (Bool-cases (contains delivery_trigger_events e.type)) [
          | inl d ↦
              rw (append_outbox_records, c, d)
                (control-enlist (enlist Destination.delivery e p) e ∙ delivery-enlist p e ∙ first)
          | inr d ↦ rw (append_outbox_records, c, d) (control-enlist p e ∙ first)
        ]
        | inr c ↦ elim (Bool-cases (contains delivery_trigger_events e.type)) [
          | inl d ↦ rw (append_outbox_records, c, d) (delivery-enlist p e ∙ first)
          | inr d ↦ rw (append_outbox_records, c, d) first
        ]
      ]

  projected-records :
      (outbox : List (OutboxRecord P)) (events : List (CanonicalEvent P))
      → projected (append_all_records outbox events) ≡ projected outbox ++ events
  unfolding append_all_records
  projected-records outbox [] = sym (append-nil (projected outbox))
  projected-records outbox (e ∷ es) =
      projected-records (append_outbox_records outbox e) es
      ∙ ap (λ xs. xs ++ es) (projected-record outbox e)
      ∙ append_assoc (projected outbox) (e ∷ []) es

  module _ (govern : List (CanonicalEvent P) → List (NewEvent P) → Result (List (NewEvent P)))
      (hex : ℕ → String) (at : ℕ → ℕ) (root_session_id session_id : String) (run_id : Option String)
      (context : CommandContext) where
    -- both the Session's stream and the outbox for the projections have grown by these events
    abbrev pub Grown : EventStore P → List (CanonicalEvent P) → EventStore P → Type 0
    Grown s events t =
        (stream (context.tenant_id, session_id) t
          ≡ stream (context.tenant_id, session_id) s ++ events)
        × (projected t.outbox ≡ projected s.outbox ++ events)

    Grown-commit :
        (result : CommandResult) (s : EventStore P) (governed : Result (List (NewEvent P)))
        → (answer : AppendResult P)
        → (commit govern hex at root_session_id session_id run_id context result s governed).1
          ≡ ok answer
        → Grown s answer.events
            (commit govern hex at root_session_id session_id run_id context result s governed).0
    unfolding commit
    Grown-commit result s (err e) answer h = ground arith
    Grown-commit result s (ok events) answer h =
        let j : String × String = (context.tenant_id, session_id) in
        let new = canonical govern hex at root_session_id session_id run_id context 1 events in
        let same = ap (λ r. r.events) (ok-injective h) in
        subst
          (λ es.
            Grown s es
              (commit govern hex at root_session_id session_id run_id context result s
                (ok events)).0)
          same
          (
            stream-put j j (stream j s ++ new) s
                  (Dict.put (context.tenant_id, context.operation, context.command_id) result
                    s.commands)
                  (append_all_records s.outbox new)
                ∙ rw (==_refl j) refl,
            projected-records s.outbox new,
          )

    -- An append that succeeds answers with the events by which the Session's stream has grown, and
    -- the outbox for the projections has grown by the same events in the same order.
    pub append-Grown :
        (events : List (NewEvent P)) (result : CommandResult) (s : EventStore P)
        (answer : AppendResult P)
        → (append govern hex at root_session_id session_id run_id context events result s).1
          ≡ ok answer
        → Grown s answer.events
            (append govern hex at root_session_id session_id run_id context events result s).0
    unfolding append opened
    append-Grown events result s answer =
        let j : String × String = (context.tenant_id, session_id) in
        let s' = opened govern hex at root_session_id session_id run_id context s in
        elim (Option-cases
          (Dict.get (context.tenant_id, context.operation, context.command_id) s.commands)) [
            | inr (previous, e) ↦
                elim (Bool-cases (result.request_fingerprint == previous.request_fingerprint)) [
                  | inl b ↦
                      rw (append, e, b)
                        (λ h.
                          subst (λ es. Grown s es s) (ap (λ r. r.events) (ok-injective h))
                            (sym (append-nil (stream j s)), sym (append-nil (projected s.outbox))))
                  | inr b ↦ rw (append, e, b) (λ h. ground arith)
                ]
            | inl e ↦ elim (Bool-cases (length (stream j s) == context.expected_version)) [
              | inl b ↦
                  rw (append, e, b)
                    (λ h.
                      let grown =
                        Grown-commit result s'
                          (govern (root_events context.tenant_id root_session_id s'.streams) events)
                          answer h in
                      (
                        grown.0
                            ∙ ap (λ es. es ++ answer.events)
                                (stream-opened govern hex at root_session_id session_id run_id
                                  context j s),
                        grown.1,
                      ))
              | inr b ↦ rw (append, e, b) (λ h. ground arith)
            ]
          ]

    commit_refused :
        (result : CommandResult) (s : EventStore P) (governed : Result (List (NewEvent P)))
        (e : Error)
        → (commit govern hex at root_session_id session_id run_id context result s governed).1
          ≡ err e
        → (commit govern hex at root_session_id session_id run_id context result s governed).0 ≡ s
    unfolding commit
    commit_refused result s (err _) e h = refl
    commit_refused result s (ok events) e h = ground arith

    -- An append that raises leaves every stream, the recorded commands and the outbox as they were.
    pub append_refused :
        (events : List (NewEvent P)) (result : CommandResult) (s : EventStore P) (e : Error)
        → (append govern hex at root_session_id session_id run_id context events result s).1 ≡ err e
        → (key : String × String)
        → let t =
            (append govern hex at root_session_id session_id run_id context events result s).0 in
          (stream key t ≡ stream key s) × (t.commands ≡ s.commands) × (t.outbox ≡ s.outbox)
    unfolding append opened
    append_refused events result s error =
        let j : String × String = (context.tenant_id, session_id) in
        let s' = opened govern hex at root_session_id session_id run_id context s in
        let kept = λ (key : String × String).
          stream-opened govern hex at root_session_id session_id run_id context key s in
        elim (Option-cases
          (Dict.get (context.tenant_id, context.operation, context.command_id) s.commands)) [
            | inr (previous, e) ↦
                elim (Bool-cases (result.request_fingerprint == previous.request_fingerprint)) [
                  | inl b ↦ rw (append, e, b) (λ h key. ground arith)
                  | inr b ↦ rw (append, e, b) (λ h key. (refl, refl, refl))
                ]
            | inl e ↦ elim (Bool-cases (length (stream j s) == context.expected_version)) [
              | inl b ↦
                  rw (append, e, b)
                    (λ h key.
                      let same =
                        commit_refused result s'
                          (govern (root_events context.tenant_id root_session_id s'.streams) events)
                          error h in
                      (
                        ap (stream key) same ∙ kept key,
                        ap (λ t. t.commands) same,
                        ap (λ t. t.outbox) same,
                      ))
              | inr b ↦ rw (append, e, b) (λ h key. (kept key, refl, refl))
            ]
          ]
