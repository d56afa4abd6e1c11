-- ===== src/Events/Append.antt =====
-- Proofs about `append` of InMemoryEventStore.
use aura_claw.Prelude.{
  ℕ, ◌+◌, String, ◌≡◌, refl, sym, ap, ◌∙◌, subst, ◌⊎◌, inl, inr, true, false, Option, some, List,
  [], ◌∷◌, ◌++◌, arith, if◌then◌else◌, Bool-cases, Option-cases, ◌==◌, option_eq, pair_eq,
  triple_eq, string_eq, nat_eq, ==→eq, length, Error, Result, ok, err, ok-injective,
}
use aura_claw.Prelude.Dict
use aura_claw.Prelude.Dict.{
  Dict, get-put, get-remove, get-put_self, get-remove_self, put-put_self, dict_laws,
}
use aura_claw.Contracts.{NewEvent, CanonicalEvent}
use aura_claw.Events.Store.{
  CommandContext, CommandResult, OutboxRecord, AppendResult, EventStore, stream, append_all_records,
  canonical, commit, opened, append,
}

-- the two contexts name the same command
abbrev pub SameCommand : CommandContext → CommandContext → Type 0
SameCommand a b =
    (a.tenant_id ≡ b.tenant_id) × (a.operation ≡ b.operation) × (a.command_id ≡ b.command_id)

module _ {P : Type 0} where
  -- the versions of the events follow one another, from v + 1 on
  abbrev pub Numbered : ℕ → List (CanonicalEvent P) → Type 0
  Numbered v [] = Unit
  Numbered v (e ∷ es) = (e.aggregate_version ≡ v + 1) × Numbered (v + 1) es

  pub Numbered-append :
      (v : ℕ) (xs ys : List (CanonicalEvent P))
      → Numbered v xs
      → Numbered (v + length xs) ys
      → Numbered v (xs ++ ys)
  Numbered-append v [] ys p q = subst (λ n. Numbered n ys) (omega arith) q
  Numbered-append v (x ∷ xs) ys p q =
      (p.0, Numbered-append (v + 1) xs ys p.1 (subst (λ n. Numbered n ys) (omega arith) q))

  pub stream-put :
      (key j : String × String) (es : List (CanonicalEvent P)) (s : EventStore P)
      → (c : Dict (String × String × String) CommandResult) (o : List (OutboxRecord P))
      → stream key (record { streams = Dict.put j es s.streams; commands = c; outbox = o })
        ≡ (if key == j then es else stream key s)
  unfolding stream
  stream-put key j es s c o = ground (arith, Dict.get-put key j es s.streams)

  module _ (govern : List (CanonicalEvent P) → List (NewEvent P) → Result (List (NewEvent P)))
      (hex : ℕ → String) (at : ℕ → ℕ) (root_session_id session_id : String) (run_id : Option String)
      (context : CommandContext) where
    pub Numbered-canonical :
        (offset : ℕ) (events : List (NewEvent P))
        → Numbered
            (context.expected_version + offset)
            (canonical govern hex at root_session_id session_id run_id context (offset + 1) events)
    unfolding canonical
    Numbered-canonical offset [] = tt
    Numbered-canonical offset (event ∷ rest) = (
      omega arith,
      subst
          (λ n. Numbered n (
            canonical govern hex at root_session_id session_id run_id context (offset + 1 + 1)
              rest))
          (omega arith) (Numbered-canonical (offset + 1) rest),
    )

    pub stream-opened :
        (key : String × String) (s : EventStore P)
        → stream key (opened govern hex at root_session_id session_id run_id context s)
          ≡ stream key s
    unfolding opened
    stream-opened key s =
        let j : String × String = (context.tenant_id, session_id) in
        stream-put key j (stream j s) s s.commands s.outbox ∙ go (Bool-cases (key == j))
      where
        go :
            ((key == (context.tenant_id, session_id)) ≡ true)
              ⊎ ((key == (context.tenant_id, session_id)) ≡ false)
            → (if key == (context.tenant_id, session_id)
                then stream (context.tenant_id, session_id) s
                else stream key s)
              ≡ stream key s
        go (inl e) = rw e (ap (λ k. stream k s) (sym (==→eq key (context.tenant_id, session_id) e)))
        go (inr e) = rw e refl

    Numbered-commit :
        (result : CommandResult) (s : EventStore P) (governed : Result (List (NewEvent P)))
        → length (stream (context.tenant_id, session_id) s) ≡ context.expected_version
        → ((key : String × String) → Numbered 0 (stream key s))
        → (key : String × String)
        → Numbered 0 (
            stream key
              (commit govern hex at root_session_id session_id run_id context result s governed).0)
    unfolding commit
    Numbered-commit result s (err e) size h key = h key
    Numbered-commit result s (ok events) size h key =
        let j : String × String = (context.tenant_id, session_id) in
        let events' = canonical govern hex at root_session_id session_id run_id context 1 events in
        subst (Numbered 0)
          (sym (
            stream-put key j (stream j s ++ events') s
              (Dict.put (context.tenant_id, context.operation, context.command_id) result
                s.commands)
              (append_all_records s.outbox events')))
          (elim (Bool-cases (key == j)) [
            | inl e ↦ rw e (
                Numbered-append 0 (stream j s) events' (h j) (
                  subst (λ n. Numbered n events') (omega (arith, size))
                    (Numbered-canonical 0 events)))
            | inr e ↦ rw e (h key)
          ])

    -- Where the events of every stream are numbered from 1 on without a gap, they are so after an
    -- append, whatever it answers.
    pub append-Numbered :
        (events : List (NewEvent P)) (result : CommandResult) (s : EventStore P)
        → ((key : String × String) → Numbered 0 (stream key s))
        → (key : String × String)
        → Numbered 0 (
            stream key
              (append govern hex at root_session_id session_id run_id context events result s).0)
    unfolding append
    append-Numbered events result s h key =
        let j : String × String = (context.tenant_id, session_id) in
        let s' = opened govern hex at root_session_id session_id run_id context s in
        let h' : (k : String × String) → Numbered 0 (stream k s') =
          λ k. subst (Numbered 0) (sym (stream-opened k s)) (h k) in
        elim (Option-cases
          (Dict.get (context.tenant_id, context.operation, context.command_id) s.commands)) [
            | inr (previous, e) ↦
                elim (Bool-cases (result.request_fingerprint == previous.request_fingerprint)) [
                  | inl b ↦ rw (append, e, b) (h key)
                  | inr b ↦ rw (append, e, b) (h key)
                ]
            | inl e ↦ elim (Bool-cases (length (stream j s) == context.expected_version)) [
              | inl b ↦
                  rw (append, e, b)
                    (Numbered-commit result s' _
                      (ap length (stream-opened j s)
                        ∙ ==→eq (length (stream j s)) context.expected_version b)
                      h' key)
              | inr b ↦ rw (append, e, b) (h' key)
            ]
          ]

    -- the command has been recorded, with the result that was answered
    abbrev Recorded : CommandResult → AppendResult P → EventStore P → Type 0
    Recorded result answer t =
        (Dict.get (context.tenant_id, context.operation, context.command_id) t.commands
          ≡ some answer.command_result)
        × (result.request_fingerprint ≡ answer.command_result.request_fingerprint)

    Recorded-commit :
        (result : CommandResult) (s : EventStore P) (governed : Result (List (NewEvent P)))
        → (answer : AppendResult P)
        → (commit govern hex at root_session_id session_id run_id context result s governed).1
          ≡ ok answer
        → Recorded result answer
            (commit govern hex at root_session_id session_id run_id context result s governed).0
    unfolding commit
    Recorded-commit result s (err e) answer h = ground arith
    Recorded-commit result s (ok events) answer h =
        let same = ap (λ r. r.command_result) (ok-injective h) in
        (
          Dict.get-put_self (context.tenant_id, context.operation, context.command_id) result
                s.commands
              ∙ ap some same,
          ap (λ r. r.request_fingerprint) same,
        )

    Recorded-append :
        (events : List (NewEvent P)) (result : CommandResult) (s : EventStore P)
        (answer : AppendResult P)
        → (append govern hex at root_session_id session_id run_id context events result s).1
          ≡ ok answer
        → Recorded result answer
            (append govern hex at root_session_id session_id run_id context events result s).0
    unfolding append
    Recorded-append events result s answer =
        let j : String × String = (context.tenant_id, session_id) in
        elim (Option-cases
          (Dict.get (context.tenant_id, context.operation, context.command_id) s.commands)) [
            | inr (previous, e) ↦
                elim (Bool-cases (result.request_fingerprint == previous.request_fingerprint)) [
                  | inl b ↦
                      rw (append, e, b)
                        (λ h.
                          let same = ap (λ r. r.command_result) (ok-injective h) in
                          (
                            e ∙ ap some same,
                            ==→eq result.request_fingerprint previous.request_fingerprint b
                                ∙ ap (λ r. r.request_fingerprint) same,
                          ))
                  | inr b ↦ rw (append, e, b) (λ h. ground arith)
                ]
            | inl e ↦ elim (Bool-cases (length (stream j s) == context.expected_version)) [
              | inl b ↦
                  rw (append, e, b)
                    (λ h.
                      Recorded-commit result
                        (opened govern hex at root_session_id session_id run_id context s) _ answer
                        h)
              | inr b ↦ rw (append, e, b) (λ h. ground arith)
            ]
          ]

  append-Recorded :
      (govern : List (CanonicalEvent P) → List (NewEvent P) → Result (List (NewEvent P)))
      → (hex : ℕ → String) (at : ℕ → ℕ) (root_session_id session_id : String)
      → (run_id : Option String) (context : CommandContext)
      → (events : List (NewEvent P)) (result : CommandResult) (t : EventStore P)
      → (stored : CommandResult)
      → Dict.get (context.tenant_id, context.operation, context.command_id) t.commands ≡ some stored
      → append govern hex at root_session_id session_id run_id context events result t ≡ (
          if result.request_fingerprint == stored.request_fingerprint
          then (t, ok (record { events = []; command_result = stored; deduplicated = true }))
          else (t, err Error.version_conflict))
  unfolding append
  append-Recorded govern hex at root session run context events result t stored e =
      rw (append, e) refl

  -- A command whose append has succeeded can be sent again with its tenant, operation and id, with
  -- any events, for any Session and run, and from any version: as long as it has the same
  -- fingerprint it is answered with the stored result, and nothing is changed; with another
  -- fingerprint it is refused.
  pub append_once :
      (govern : List (CanonicalEvent P) → List (NewEvent P) → Result (List (NewEvent P)))
      → (hex : ℕ → String) (at : ℕ → ℕ) (root_session_id session_id : String)
      → (run_id : Option String) (context : CommandContext)
      → (events : List (NewEvent P)) (result : CommandResult) (s : EventStore P)
        {answer : AppendResult P}
      → (append govern hex at root_session_id session_id run_id context events result s).1
        ≡ ok answer
      → (hex' : ℕ → String) (at' : ℕ → ℕ) (root_session_id' session_id' : String)
      → (run_id' : Option String) (context' : CommandContext) → SameCommand context context'
      → (events' : List (NewEvent P)) (result' : CommandResult)
      → let t =
          (append govern hex at root_session_id session_id run_id context events result s).0 in
        append govern hex' at' root_session_id' session_id' run_id' context' events' result' t ≡ (
          if result'.request_fingerprint == result.request_fingerprint
          then (
            t,
            ok (record {
              events = [];
              command_result = answer.command_result;
              deduplicated = true;
            }),
          )
          else (t, err Error.version_conflict))
  append_once govern hex at root session run context events result s {answer} h hex' at' root'
        session' run' context' same events' result' =
      let t = (append govern hex at root session run context events result s).0 in
      let found = Recorded-append govern hex at root session run context events result s answer h in
      let key : Dict.get (context'.tenant_id, context'.operation, context'.command_id) t.commands
          ≡ some answer.command_result =
        rw (sym same.0, sym same.1, sym same.2) found.0 in
      subst
        (λ f. append govern hex' at' root' session' run' context' events' result' t ≡ (
          if result'.request_fingerprint == f
          then (
            t,
            ok (record {
              events = [];
              command_result = answer.command_result;
              deduplicated = true;
            }),
          )
          else (t, err Error.version_conflict)))
        (sym found.1)
        (append-Recorded govern hex' at' root' session' run' context' events' result' t
          answer.command_result key)
