-- ===== src/Events/Batch/Streams.antt =====
-- Proofs about `append_batch` of InMemoryEventStore: what every stream holds after the writes.
use aura_claw.Prelude.{
  ℕ, ◌+◌, String, ◌≡◌, refl, sym, ap, ◌∙◌, subst, inl, inr, Bool, if◌then◌else◌, Option, List, [],
  ◌∷◌, ◌++◌, arith, Bool-cases, ◌==◌, select, pair_eq, string_eq, ==→eq, Result, ok, >>=-eq-ok, All,
  ok-injective,
}
use aura_claw.Prelude.Dict
use aura_claw.Prelude.Dict.{Dict}
use mathlib.Core.List.{append-nil, append_assoc}
use aura_claw.Contracts.{NewEvent, CanonicalEvent}
use aura_claw.Events.Store.{CommandContext, EventStore, stream, canonical}
use aura_claw.Events.Append.{stream-put}
use aura_claw.Events.Batch.{StreamAppend, ByStream, extend, all_events, stored_events, prepare}

module _ {P : Type 0} where
  abbrev stream_key : CanonicalEvent P → String × String
  stream_key event = (event.tenant_id, event.session_id)

  -- whether the event is one of the stream
  abbrev pub belongs : String × String → CanonicalEvent P → Bool
  belongs key event = key == stream_key event

  InStream : String × String → CanonicalEvent P → Type 0
  InStream key event = stream_key event ≡ key

  -- every part of the batch holds events of its own stream
  pub InStreams : (tenant_id : String) → ByStream P → Type 0
  unfolding InStream
  InStreams tenant_id [] = Unit
  InStreams tenant_id ((id, events) ∷ rest) =
      All (InStream (tenant_id, id)) events × InStreams tenant_id rest

  select-append :
      (test : CanonicalEvent P → Bool) (first rest : List (CanonicalEvent P))
      → select test (first ++ rest) ≡ select test first ++ select test rest
  select-append test [] rest = refl
  select-append test (event ∷ first) rest = ground (arith, select-append test first rest)

  select-InStream :
      (key j : String × String) (events : List (CanonicalEvent P))
      → All (InStream j) events
      → select (belongs key) events ≡ (if key == j then events else [])
  unfolding InStream
  select-InStream key j [] h = ground arith
  select-InStream key j (event ∷ rest) h =
      let same : belongs key event ≡ (key == j) = ap (λ k. key == k) h.0 in
      ground (arith, same, select-InStream key j rest h.1)

  stream-part :
      (key j : String × String) (events : List (CanonicalEvent P)) (s : EventStore P)
      → All (InStream j) events
      → stream key (record s { streams = Dict.put j (stream j s ++ events) s.streams })
        ≡ stream key s ++ select (belongs key) events
  stream-part key j events s h =
      stream-put key j (stream j s ++ events) s s.commands s.outbox ∙ elim (Bool-cases (key == j)) [
        | inl e ↦
            let part : select (belongs key) events ≡ events =
              select-InStream key j events h ∙ ap (λ b. if b then events else []) e in
            rw (e, part) (ap (λ k. stream k s ++ events) (sym (==→eq key j e)))
        | inr e ↦
            let part : select (belongs key) events ≡ [] =
              select-InStream key j events h ∙ ap (λ b. if b then events else []) e in
            rw (e, part) (sym (append-nil (stream key s)))
      ]

  pub stream-extend :
      (tenant_id : String) (parts : ByStream P) (s : EventStore P) (key : String × String)
      → InStreams tenant_id parts
      → stream key (extend tenant_id parts s)
        ≡ stream key s ++ select (belongs key) (all_events parts)
  unfolding extend all_events InStreams
  stream-extend tenant_id [] s key h = sym (append-nil (stream key s))
  stream-extend tenant_id ((id, events) ∷ rest) s key h =
      let j : String × String = (tenant_id, id) in
      stream-extend tenant_id rest _ key h.1
      ∙ ap (λ es. es ++ select (belongs key) (all_events rest)) (stream-part key j events s h.0)
      ∙ append_assoc (stream key s) (select (belongs key) events)
          (select (belongs key) (all_events rest))
      ∙ ap (λ es. stream key s ++ es) (sym (select-append (belongs key) events (all_events rest)))

  module _
      (govern : (session_id root_session_id : String) (run_id : Option String)
        → List (CanonicalEvent P)
        → List (NewEvent P)
        → Result (List (NewEvent P)))
      (hex : String → ℕ → String) (at : String → ℕ → ℕ) (root_session_id : String)
      (context : CommandContext) where
    canonical-InStream :
        (item : StreamAppend P) (offset : ℕ) (events : List (NewEvent P))
        → All (InStream (context.tenant_id, item.session_id)) (
            canonical
              (govern item.session_id root_session_id item.run_id)
              (hex item.session_id)
              (at item.session_id)
              root_session_id
              item.session_id
              item.run_id
              (record context { expected_version = item.expected_version })
              offset
              events)
    unfolding canonical InStream
    canonical-InStream item offset [] = tt
    canonical-InStream item offset (event ∷ rest) =
        (refl, canonical-InStream item (offset + 1) rest)

    pub prepare-InStreams :
        (appends : List (StreamAppend P)) (past : List (CanonicalEvent P)) (parts : ByStream P)
        → prepare govern hex at root_session_id context past appends ≡ ok parts
        → InStreams context.tenant_id parts
    unfolding prepare InStreams stored_events
    prepare-InStreams [] past parts h = subst (InStreams context.tenant_id) (ok-injective h) tt
    prepare-InStreams (item ∷ rest) past parts h =
        let (governed, g, h') =
          >>=-eq-ok (govern item.session_id root_session_id item.run_id past item.events) _ h in
        let (more, m, same) =
          >>=-eq-ok
            (prepare govern hex at root_session_id context
              (past ++ stored_events govern hex at root_session_id context item governed) rest)
            _ h' in
        subst (InStreams context.tenant_id) (ok-injective same)
          (canonical-InStream item 1 governed, prepare-InStreams rest _ more m)
