-- ===== src/Events/Batch/Versions.antt =====
-- Proofs about `append_batch` of InMemoryEventStore: all of a batch is written or nothing.
use aura_claw.Prelude.{
  ℕ, String, ◌≡◌, refl, sym, ap, ◌∙◌, subst, ◌⊎◌, inl, inr, Bool, true, false, Option, List, [],
  ◌∷◌, ◌++◌, ◌||◌, &&-eq-true, not, arith, Bool-cases, Option-cases, ◌==◌, contains, all, select,
  option_eq, pair_eq, triple_eq, string_eq, nat_eq, ==→eq, ==_refl, length, Result, ok, err,
  >>=-eq-ok, ok-injective,
}
use aura_claw.Prelude.Dict
use aura_claw.Prelude.Dict.{Dict, dict_laws}
use aura_claw.Contracts.{NewEvent, CanonicalEvent}
use aura_claw.Events.Store.{
  CommandContext, CommandResult, AppendResult, EventStore, stream, append_all_records, root_events,
}
use aura_claw.Events.Append.{Numbered, Numbered-append, Numbered-canonical, stream-put}
use aura_claw.Events.Batch.Streams.{belongs, stream-extend, prepare-InStreams}
use aura_claw.Events.Batch.{
  StreamAppend, ByStream, unique, session_ids, extend, is_current, stored_events, prepare,
  commit_batch, append_locked, append_batch,
}

||-eq-false : (a b : Bool) → (a || b) ≡ false → (a ≡ false) × (b ≡ false)
||-eq-false a b h = ground arith

not-eq-true : {a : Bool} → not a ≡ true → a ≡ false
not-eq-true {a} h = ground arith

module _ {P : Type 0} where
  keys : ByStream P → List String
  keys [] = []
  keys ((id, _) ∷ rest) = id ∷ keys rest

  -- every part of the batch goes on from where its stream ends
  Fits : (tenant_id : String) → EventStore P → ByStream P → Type 0
  Fits tenant_id s [] = Unit
  Fits tenant_id s ((id, events) ∷ rest) =
      Numbered (length (stream (tenant_id, id) s)) events
      × (contains (keys rest) id ≡ false)
      × Fits tenant_id s rest

  -- the store after one part of the batch
  abbrev put : String × String → List (CanonicalEvent P) → EventStore P → EventStore P
  put key events s = record s { streams = Dict.put key (stream key s ++ events) s.streams }

  -- A stream of another Session of the tenant is as it was.
  stream-elsewhere :
      (tenant_id id other : String)
      → (id == other) ≡ false
      → (events : List (CanonicalEvent P)) (s : EventStore P)
      → stream (tenant_id, other) (put (tenant_id, id) events s) ≡ stream (tenant_id, other) s
  stream-elsewhere tenant_id id other h events s =
      let j : String × String = (tenant_id, other) in
      let k : String × String = (tenant_id, id) in
      stream-put j k (stream k s ++ events) s s.commands s.outbox ∙ elim (Bool-cases (j == k)) [
        | inl e ↦
            let same = ap (λ (p : String × String). p.1) (==→eq j k e) in
            let clash : false ≡ true = sym h ∙ ap (λ o. id == o) same ∙ ==_refl id in ground arith
        | inr e ↦ rw e refl
      ]

  Fits-put :
      (tenant_id id : String) (events : List (CanonicalEvent P)) (s : EventStore P)
      (rest : ByStream P)
      → contains (keys rest) id ≡ false
      → Fits tenant_id s rest
      → Fits tenant_id (put (tenant_id, id) events s) rest
  unfolding Fits keys
  Fits-put tenant_id id events s [] h fits = tt
  Fits-put tenant_id id events s ((other, es) ∷ rest) h fits =
      let tests = ||-eq-false (id == other) (contains (keys rest) id) h in
      (
        subst (λ n. Numbered n es)
            (sym (ap length (stream-elsewhere tenant_id id other tests.0 events s))) fits.0,
        fits.1,
        Fits-put tenant_id id events s rest tests.1 fits.2,
      )

  Numbered-put :
      (j : String × String) (events : List (CanonicalEvent P)) (s : EventStore P)
      → Numbered (length (stream j s)) events
      → ((key : String × String) → Numbered 0 (stream key s))
      → (key : String × String) → Numbered 0 (stream key (put j events s))
  Numbered-put j events s next h key =
      subst (Numbered 0) (sym (stream-put key j (stream j s ++ events) s s.commands s.outbox))
        (elim (Bool-cases (key == j)) [
          | inl e ↦ rw e (
              Numbered-append 0 (stream j s) events (h j)
                (subst (λ n. Numbered n events) (omega arith) next))
          | inr e ↦ rw e (h key)
        ])

  Numbered-extend :
      (tenant_id : String) (parts : ByStream P) (s : EventStore P)
      → Fits tenant_id s parts
      → ((key : String × String) → Numbered 0 (stream key s))
      → (key : String × String) → Numbered 0 (stream key (extend tenant_id parts s))
  unfolding extend Fits
  Numbered-extend tenant_id [] s fits h key = h key
  Numbered-extend tenant_id ((id, events) ∷ rest) s fits h key =
      Numbered-extend tenant_id rest (put (tenant_id, id) events s)
        (Fits-put tenant_id id events s rest fits.1 fits.2)
        (Numbered-put (tenant_id, id) events s fits.0 h) key

  module _
      (govern : (session_id root_session_id : String) (run_id : Option String)
        → List (CanonicalEvent P)
        → List (NewEvent P)
        → Result (List (NewEvent P)))
      (hex : String → ℕ → String) (at : String → ℕ → ℕ) (root_session_id : String)
      (context : CommandContext) where
    Numbered-stored_events :
        (item : StreamAppend P) (governed : List (NewEvent P))
        → Numbered item.expected_version
            (stored_events govern hex at root_session_id context item governed)
    unfolding stored_events
    Numbered-stored_events item governed =
        subst (λ n. Numbered n (stored_events govern hex at root_session_id context item governed))
          (omega arith)
          (Numbered-canonical (govern item.session_id root_session_id item.run_id)
            (hex item.session_id) (at item.session_id) root_session_id item.session_id item.run_id
            (record context { expected_version = item.expected_version }) 0 governed)

    prepare-Fits :
        (appends : List (StreamAppend P)) (past : List (CanonicalEvent P)) (s : EventStore P)
        → unique (session_ids appends) ≡ true
        → all (is_current context.tenant_id s) appends ≡ true
        → {parts : ByStream P}
        → prepare govern hex at root_session_id context past appends ≡ ok parts
        → Fits context.tenant_id s parts × (keys parts ≡ session_ids appends)
    unfolding prepare Fits keys unique is_current
    prepare-Fits [] past s u c {parts} h =
        subst (λ ps. Fits context.tenant_id s ps × (keys ps ≡ [])) (ok-injective h) (tt, refl)
    prepare-Fits (item ∷ rest) past s u c {parts} h =
        let fresh =
          &&-eq-true (not (contains (session_ids rest) item.session_id)) (unique (session_ids rest))
            u in
        let current =
          &&-eq-true (is_current context.tenant_id s item)
            (all (is_current context.tenant_id s) rest) c in
        let (governed, g, h') =
          >>=-eq-ok (govern item.session_id root_session_id item.run_id past item.events) _ h in
        let (more, m, same) =
          >>=-eq-ok
            (prepare govern hex at root_session_id context
              (past ++ stored_events govern hex at root_session_id context item governed) rest)
            _ h' in
        let (fits, ids) = prepare-Fits rest _ s fresh.1 current.1 m in
        subst (λ ps. Fits context.tenant_id s ps × (keys ps ≡ session_ids (item ∷ rest)))
          (ok-injective same)
          (
            (
              subst
                  (λ n.
                    Numbered n (stored_events govern hex at root_session_id context item governed))
                  (sym (
                    ==→eq (length (stream (context.tenant_id, item.session_id) s))
                      item.expected_version current.0))
                  (Numbered-stored_events item governed),
              ap (λ ks. contains ks item.session_id) ids ∙ not-eq-true fresh.0,
              fits,
            ),
            ap (λ ks. item.session_id ∷ ks) ids,
          )

    -- Nothing is written, or all events of the answer are: each stream goes on with those that
    -- belong to it, in their order, and the outbox with the records of all.
    pub AllOrNothing : EventStore P → EventStore P × Result (AppendResult P) → Type 0
    AllOrNothing s (t, answer) =
        (t ≡ s)
        ⊎ ((written : AppendResult P) × (answer ≡ ok written)
            × ((key : String × String)
                → stream key t ≡ stream key s ++ select (belongs key) written.events)
            × (t.outbox ≡ append_all_records s.outbox written.events))

    commit_batch_lem :
        (result : CommandResult) (s : EventStore P) (past : List (CanonicalEvent P))
        (appends : List (StreamAppend P))
        → unique (session_ids appends) ≡ true
        → all (is_current context.tenant_id s) appends ≡ true
        → ((key : String × String) → Numbered 0 (stream key s))
        → (prepared : Result (ByStream P))
        → prepare govern hex at root_session_id context past appends ≡ prepared
        → let done = commit_batch govern hex at root_session_id context result s prepared in
          AllOrNothing s done × ((key : String × String) → Numbered 0 (stream key done.0))
    unfolding commit_batch AllOrNothing extend stream
    commit_batch_lem result s past appends u c h (err e) p = (inl refl, h)
    commit_batch_lem result s past appends u c h (ok parts) p = (
      inr (
        _,
        refl,
        λ key.
            stream-extend context.tenant_id parts s key
              (prepare-InStreams govern hex at root_session_id context appends past parts p),
        refl,
      ),
      λ key. Numbered-extend context.tenant_id parts s (prepare-Fits appends past s u c p).0 h key,
    )

    append_locked_lem :
        (appends : List (StreamAppend P)) (result : CommandResult) (s : EventStore P)
        → unique (session_ids appends) ≡ true
        → ((key : String × String) → Numbered 0 (stream key s))
        → let done = append_locked govern hex at root_session_id context appends result s in
          AllOrNothing s done × ((key : String × String) → Numbered 0 (stream key done.0))
    unfolding append_locked AllOrNothing
    append_locked_lem appends result s u h =
        elim (Option-cases
          (Dict.get (context.tenant_id, context.operation, context.command_id) s.commands)) [
            | inr (previous, e) ↦
                elim (Bool-cases (result.request_fingerprint == previous.request_fingerprint)) [
                  | inl b ↦ rw (append_locked, e, b) (inl refl, h)
                  | inr b ↦ rw (append_locked, e, b) (inl refl, h)
                ]
            | inl e ↦ elim (Bool-cases (all (is_current context.tenant_id s) appends)) [
              | inl b ↦
                  rw (append_locked, e, b)
                    (commit_batch_lem result s
                      (root_events context.tenant_id root_session_id s.streams) appends u b h _
                      refl)
              | inr b ↦ rw (append_locked, e, b) (inl refl, h)
            ]
          ]

    -- Where the events of every stream are numbered from 1 on without a gap, append_batch either
    -- changes nothing, or it answers with the events it has written: every stream goes on with just
    -- those of them that carry its tenant and session, in their order, and the outbox with the
    -- records of all of them; in both cases every stream is numbered without a gap after it.
    pub append_batch_atomic :
        (appends : List (StreamAppend P)) (result : CommandResult) (s : EventStore P)
        → ((key : String × String) → Numbered 0 (stream key s))
        → let done = append_batch govern hex at root_session_id context appends result s in
          AllOrNothing s done × ((key : String × String) → Numbered 0 (stream key done.0))
    unfolding append_batch AllOrNothing
    append_batch_atomic [] result s h = (inl refl, h)
    append_batch_atomic (item ∷ rest) result s h =
        elim (Bool-cases (unique (session_ids (item ∷ rest)))) [
          | inl b ↦ rw b (append_locked_lem (item ∷ rest) result s b h)
          | inr b ↦ rw b (inl refl, h)
        ]
