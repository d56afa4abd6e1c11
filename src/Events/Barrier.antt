-- ===== src/Events/Barrier.antt =====
-- Proofs about the order in which `_claim_outbox_once` of InMemoryEventStore hands out records.
use aura_claw.Prelude.{
  ℕ, ◌+◌, ◌-◌, ◌≤◌, max, String, ◌≡◌, refl, ◌∙◌, subst, inl, inr, Bool, true, false, not, ◌&&◌,
  ◌||◌, none, some, List, [], ◌∷◌, ◌++◌, arith, leb, Bool-cases, ◌==◌, contains, option_eq, pair_eq,
  triple_eq, string_eq, nat_eq, ==_refl, ==→eq, length, find, All,
}
use mathlib.Core.List.{append_assoc}
use aura_claw.Prelude.{find-append_none}
use aura_claw.Events.Store.{Destination, OutboxRecord}
use aura_claw.Events.Relay.{
  ClaimedOutboxRecord, session_key, is_available, is_pending, claim_records, claim_outbox_once,
}

module _ {P : Type 0} (destination : Destination) where
  -- the record is still to be sent to the destination for the Session
  abbrev pub waits : String × String → OutboxRecord P → Bool
  waits key r = is_pending destination r && key == session_key r

  -- The claim is on the first record that waits for its Session, which is free and not poisoned.
  pub record IsFirst (now : ℕ) (outbox : List (OutboxRecord P)) (c : ClaimedOutboxRecord P)
      : Type 0 where
    pub original : OutboxRecord P
    pub first : find (waits (session_key original)) outbox ≡ some original
    pub event : original.event ≡ c.event
    pub free : (original.poisoned || not (is_available original now)) ≡ false

  abbrev Passed : List (OutboxRecord P) → List (String × String) → Type 0
  Passed seen blocked =
      (key : String × String) → contains blocked key ≡ false → find (waits key) seen ≡ none

  Passed-skip :
      (seen : List (OutboxRecord P)) (r : OutboxRecord P) (blocked : List (String × String))
      → (not (is_pending destination r) || contains blocked (session_key r)) ≡ true
      → Passed seen blocked
      → Passed (seen ++ r ∷ []) blocked
  Passed-skip seen r blocked skip h = λ key free.
      find-append_none (waits key) seen (r ∷ []) (h key free)
      ∙ ground (arith, skip, free, ==→eq key (session_key r))

  Passed-block :
      (seen : List (OutboxRecord P)) (r : OutboxRecord P) (blocked : List (String × String))
      → Passed seen blocked
      → Passed (seen ++ r ∷ []) (session_key r ∷ blocked)
  Passed-block seen r blocked h = λ key free.
      find-append_none (waits key) seen (r ∷ []) (h key (ground (arith, free)))
      ∙ ground (arith, free)

  first_found :
      (seen rs : List (OutboxRecord P)) (r : OutboxRecord P) (blocked : List (String × String))
      → (not (is_pending destination r) || contains blocked (session_key r)) ≡ false
      → Passed seen blocked
      → find (waits (session_key r)) (seen ++ r ∷ rs) ≡ some r
  first_found seen rs r blocked turn h =
      find-append_none (waits (session_key r)) seen (r ∷ rs)
        (h (session_key r) (ground (arith, turn)))
      ∙ ground (arith, turn, ==_refl (session_key r))

  module _ (worker_id : String) (claim_ttl now : ℕ) (token : ℕ → String) where
    IsFirst-claim_records :
        (seen : List (OutboxRecord P)) (blocked : List (String × String)) (i room : ℕ)
        → (rest : List (OutboxRecord P)) → Passed seen blocked
        → All
            (IsFirst now (seen ++ rest))
            (claim_records destination worker_id claim_ttl now token blocked i room rest).1
    unfolding claim_records
    IsFirst-claim_records seen blocked i room [] h = tt
    IsFirst-claim_records seen blocked i room (r ∷ rs) h =
        let key = session_key r in
        let on = λ (b : List (String × String)) (j m : ℕ) (p : Passed (seen ++ r ∷ []) b).
          subst
            (λ all.
              All (IsFirst now all)
                (claim_records destination worker_id claim_ttl now token b j m rs).1)
            (append_assoc seen (r ∷ []) rs) (IsFirst-claim_records (seen ++ r ∷ []) b j m rs p) in
        elim (Bool-cases (not (is_pending destination r) || contains blocked key)) [
          | inl skip ↦
              rw (claim_records, skip) (on blocked i room (Passed-skip seen r blocked skip h))
          | inr turn ↦ elim (Bool-cases (r.poisoned || not (is_available r now))) [
            | inl held ↦
                rw (claim_records, turn, held)
                  (on (key ∷ blocked) i room (Passed-block seen r blocked h))
            | inr free ↦
                (let found = first_found seen rs r blocked turn h in
                  elim (Bool-cases (leb room 1)) [
                    | inl last ↦
                        rw (claim_records, turn, free, last)
                          (record { original = r; first = found; event = refl; free = free }, tt)
                    | inr more ↦
                        rw (claim_records, turn, free, more)
                          (
                            record { original = r; first = found; event = refl; free = free },
                            on (key ∷ blocked) (i + 1) (room - 1) (Passed-block seen r blocked h),
                          )
                  ])
          ]
        ]

    length-claim_records :
        (blocked : List (String × String)) (i room : ℕ) (rest : List (OutboxRecord P))
        → length (claim_records destination worker_id claim_ttl now token blocked i room rest).1
          ≤ max room 1
    unfolding claim_records
    length-claim_records blocked i room [] = ground arith
    length-claim_records blocked i room (r ∷ rs) = ground (
      arith,
      length-claim_records blocked i room rs,
      length-claim_records (session_key r ∷ blocked) i room rs,
      length-claim_records (session_key r ∷ blocked) (i + 1) (room - 1) rs,
    )

    -- A claim hands out at most `limit` records (one, for a limit of 0), and each is the first that
    -- waits to be sent to the destination for its Session, is not poisoned, and has no live claim:
    -- no event overtakes an earlier one of its Session, and a poisoned one holds the later back.
    pub claim_outbox-IsFirst :
        (limit : ℕ) (outbox : List (OutboxRecord P))
        → let claims =
            (claim_outbox_once destination worker_id claim_ttl now token limit outbox).1 in
          (length claims ≤ max limit 1) × All (IsFirst now outbox) claims
    unfolding claim_outbox_once
    claim_outbox-IsFirst limit outbox = (
      length-claim_records [] 0 limit outbox,
      IsFirst-claim_records [] [] 0 limit outbox (λ key free. refl),
    )
