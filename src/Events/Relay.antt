-- ===== src/Events/Relay.antt =====
-- The relay's side of the outbox of InMemoryEventStore: `mark_outbox_published`,
-- `mark_outbox_failed`, `_claim_outbox_once`, `disposition_outbox` and `redrive_outbox`. Each holds
-- the store's lock, so it is one step. A relay names a record by its number here, not by the text
-- of it.
use aura_claw.Prelude.{
  select, ℕ, ◌+◌, ◌-◌, String, Bool, true, false, not, ◌&&◌, ◌||◌, Option, none, some, List, [],
  ◌∷◌, ltb, leb, if◌then◌else◌, is_some, ◌==◌, contains, option_eq, pair_eq, triple_eq, string_eq,
  nat_eq, find,
}
use aura_claw.Contracts.{CanonicalEvent}
use aura_claw.Events.Store.{is_projection, Destination, OutboxRecord}

abbrev pub same_destination : Destination → Destination → Bool
same_destination Destination.projection Destination.projection = true
same_destination Destination.delivery Destination.delivery = true
same_destination Destination.control Destination.control = true
same_destination _ _ = false

-- ClaimedOutboxRecord of session/ports.py
pub record ClaimedOutboxRecord (P : Type 0) : Type 0 where
  pub outbox_id : ℕ
  pub event_id : String
  pub event : CanonicalEvent P
  pub claim_token : String
  pub attempt : ℕ

pub data Disposition : Type 0 where
  ack poison nack : Disposition
  unknown : String → Disposition

module _ {P : Type 0} where
  -- the first record of a test is changed
  update_first :
      (OutboxRecord P → Bool)
      → (OutboxRecord P → OutboxRecord P)
      → List (OutboxRecord P)
      → List (OutboxRecord P)
  update_first p f [] = []
  update_first p f (r ∷ rs) = let rest = update_first p f rs in if p r then f r ∷ rs else r ∷ rest

  unfoldable pub pending_delivery_outbox : List (OutboxRecord P) → List (OutboxRecord P)
  pending_delivery_outbox = select (λ r.
      not r.published && not r.poisoned && same_destination r.destination Destination.delivery)

  unfoldable pub mark_outbox_published : ℕ → List (OutboxRecord P) → List (OutboxRecord P)
  unfolding update_first
  mark_outbox_published outbox_id =
      update_first (λ r. r.outbox_id == outbox_id) (λ r. record r { published = true })

  unfoldable pub mark_outbox_failed : ℕ → List (OutboxRecord P) → List (OutboxRecord P)
  unfolding update_first
  mark_outbox_failed outbox_id =
      update_first (λ r. r.outbox_id == outbox_id)
        λ r.
          let attempt = r.publish_attempt + 1 in
          record r {
            publish_attempt = attempt;
            poisoned = if is_projection r.destination && leb 5 attempt then true else r.poisoned;
          }

  abbrev pub session_key : OutboxRecord P → String × String
  session_key r = (r.event.tenant_id, r.event.session_id)

  -- `claimed_by is None or claim_expired`
  abbrev pub is_available : OutboxRecord P → ℕ → Bool
  is_available r now = not (is_some r.claimed_by) || has_passed r.claim_expires_at now
    where
      has_passed : Option ℕ → ℕ → Bool
      has_passed none now = false
      has_passed (some t) now = leb t now

  -- the record is to be sent to the destination still
  abbrev pub is_pending : Destination → OutboxRecord P → Bool
  is_pending destination r = same_destination r.destination destination && not r.published

  abbrev claim_of : OutboxRecord P → (token : String) → ClaimedOutboxRecord P
  claim_of r token = record {
    outbox_id = r.outbox_id;
    event_id = r.event_id;
    event = r.event;
    claim_token = token;
    attempt = r.publish_attempt + 1;
  }

  module _ (destination : Destination) (worker_id : String) (claim_ttl now : ℕ)
      (token : ℕ → String) where
    abbrev claimed_record : OutboxRecord P → String → OutboxRecord P
    claimed_record r token = record r {
      claimed_by = some worker_id;
      claim_token = some token;
      claim_expires_at = some (now + claim_ttl);
      publish_attempt = r.publish_attempt + 1;
    }

    -- The loop, with the sessions that are blocked; `token i` is fresh, and `room` is what `limit`
    -- leaves.
    unfoldable pub claim_records :
        (blocked : List (String × String))
        → ℕ
        → (room : ℕ) → List (OutboxRecord P)
        → List (OutboxRecord P) × List (ClaimedOutboxRecord P)
    claim_records blocked i room [] = ([], [])
    claim_records blocked i room (r ∷ rs) =
        elim (not (is_pending destination r) || contains blocked (session_key r)) [
          | true ↦ (let (rest, claims) = claim_records blocked i room rs in (r ∷ rest, claims))
          | false ↦ elim (r.poisoned || not (is_available r now)) [
            | true ↦
                (let (rest, claims) = claim_records (session_key r ∷ blocked) i room rs in
                  (r ∷ rest, claims))
            | false ↦ elim (leb room 1) [
              | true ↦ (claimed_record r (token i) ∷ rs, claim_of r (token i) ∷ [])
              | false ↦
                  (let (rest, claims) =
                      claim_records (session_key r ∷ blocked) (i + 1) (room - 1) rs in
                    (claimed_record r (token i) ∷ rest, claim_of r (token i) ∷ claims))
            ]
          ]
        ]

    unfoldable pub claim_outbox_once :
        (limit : ℕ) → List (OutboxRecord P) → List (OutboxRecord P) × List (ClaimedOutboxRecord P)
    unfolding claim_records
    claim_outbox_once limit outbox = claim_records [] 0 limit outbox

  -- the claim is the caller's, and it has not run out
  abbrev holds : OutboxRecord P → Destination → (worker_id claim_token : String) → (now : ℕ) → Bool
  holds r destination worker_id claim_token now =
      same_destination r.destination destination
      && r.claimed_by == some worker_id
      && r.claim_token == some claim_token
      && runs r.claim_expires_at now
    where
      runs : Option ℕ → ℕ → Bool
      runs none now = false
      runs (some t) now = ltb now t

  abbrev unclaimed : OutboxRecord P → OutboxRecord P
  unclaimed r = record r { claimed_by = none; claim_token = none; claim_expires_at = none }

  -- what a disposition makes of a record whose claim is held
  unfoldable pub disposed : Destination → OutboxRecord P → Disposition → Option (OutboxRecord P)
  disposed destination r ack = some (unclaimed (record r { published = true }))
  disposed destination r poison = some (unclaimed (record r { poisoned = true }))
  disposed destination r nack = some (
      unclaimed (record r {
        poisoned =
            if is_projection destination && leb 5 r.publish_attempt then true else r.poisoned;
      }))
  disposed destination r (unknown _) = none

  abbrev or_same : OutboxRecord P → Option (OutboxRecord P) → OutboxRecord P
  or_same r none = r
  or_same r (some r') = r'

  unfoldable pub disposition_outbox :
      Destination
      → (worker_id : String) → (outbox_id : ℕ) → (claim_token : String) → Disposition
      → (now : ℕ) → List (OutboxRecord P)
      → List (OutboxRecord P) × Bool
  unfolding update_first disposed
  disposition_outbox destination worker_id outbox_id claim_token disposition now outbox =
      elim (find (λ r. r.outbox_id == outbox_id) outbox) [
        | none ↦ (outbox, false)
        | some r ↦
            if holds r destination worker_id claim_token now
            then (
              update_first (λ q. q.outbox_id == outbox_id)
                  (λ q. or_same q (disposed destination q disposition)) outbox,
              is_some (disposed destination r disposition),
            )
            else (outbox, false)
      ]

  abbrev is_driven : Destination → String → OutboxRecord P → Bool
  is_driven destination event_id r =
      same_destination r.destination destination
      && r.event_id == event_id
      && r.poisoned
      && not r.published

  unfoldable pub redrive_outbox :
      Destination → (event_id : String) → List (OutboxRecord P) → List (OutboxRecord P) × Bool
  unfolding update_first
  redrive_outbox destination event_id outbox = (
    update_first (is_driven destination event_id)
        (λ r. unclaimed (record r { poisoned = false; publish_attempt = 0 })) outbox,
    is_some (find (is_driven destination event_id) outbox),
  )
