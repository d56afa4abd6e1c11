-- ===== src/Session/Snapshot/Roundtrip.antt =====
-- Proofs about `snapshot_state`, `from_snapshot` and `replay` of SessionAggregate.
use aura_claw.Prelude.{
  ℕ, ◌+◌, String, ◌≡◌, refl, sym, ap, ◌∙◌, subst, ◌≢◌, ◌⊎◌, inl, inr, Bool, false, Option, none,
  some, List, [], ◌∷◌, ◌++◌, arith, Option-cases, option_eq, pair_eq, triple_eq, string_eq, nat_eq,
  All, ok, ok-injective,
}
use aura_claw.Contracts.{CanonicalEvent}
use aura_claw.Session.Types.{SessionStatus, RunStatus, SessionEvent}
use aura_claw.Session.Aggregate.{Session, empty, apply, from_events, restore, replay}
use aura_claw.Session.Raises.{pending-apply}
use aura_claw.Session.Snapshot.{
  SnapshotState, snapshot_state, from_snapshot, same_value, is_run_end,
}

abbrev pub ends : Option SessionStatus → Bool
ends none = false
ends (some status) = is_run_end status

abbrev pub run_value : Option SessionStatus → Option RunStatus
run_value none = none
run_value (some status) = same_value status

-- What a root Session keeps once it exists: it does not rest in the end of a run, and it has a run
-- in every status that a run can have.
pub record IsRootState (s : Session) : Type 0 where
  pub root : s.role ≡ "root"
  pub exists : s.status ≢ none
  pub rests : ends s.status ≡ false
  pub runs : s.run_status ≡ none → run_value s.status ≡ none

-- the events of a root Session's own stream
abbrev pub ForRoot : SessionEvent → Type 0
ForRoot (SessionEvent.session_created p) = ⊥
ForRoot (SessionEvent.child_created p) = ⊥
ForRoot (SessionEvent.dependency_changed ids) = ⊥
ForRoot (SessionEvent.child_result_published p) = ⊥
ForRoot (SessionEvent.review_completed d t) = ⊥
ForRoot _ = Unit

abbrev pub IsRootCreation : SessionEvent → Type 0
IsRootCreation (SessionEvent.session_created p) = (p.role ≡ none) ⊎ (p.role ≡ some "root")
IsRootCreation _ = ⊥

creation-IsRootState :
    (event : SessionEvent) (session_id tenant_id : String)
    → IsRootCreation event
    → IsRootState (apply event (empty session_id tenant_id))
unfolding apply empty same_value is_run_end
creation-IsRootState (SessionEvent.session_created p) i t h = ground arith
creation-IsRootState _ i t h = absurd h

apply-IsRootState :
    (event : SessionEvent) (s : Session)
    → ForRoot event
    → IsRootState s
    → IsRootState (apply event s)
unfolding apply same_value is_run_end
apply-IsRootState (SessionEvent.session_created p) s f h = absurd f
apply-IsRootState (SessionEvent.run_requested p) s f h = ground arith
apply-IsRootState _ s f h = ground arith

-- The snapshot of a root Session restores it, with nothing pending.
pub from_snapshot-snapshot_state :
    (s : Session) (state : SnapshotState)
    → IsRootState s
    → snapshot_state s ≡ ok state
    → from_snapshot state s.version ≡ record s { pending = [] }
unfolding snapshot_state from_snapshot
from_snapshot-snapshot_state s state h e = elim (Option-cases s.status) [
  | inl missing ↦ absurd (h.exists missing)
  | inr (status, there) ↦ ground (arith, h.root, h.rests, h.runs, there, e)
]

-- each event carries the version after the one before it
abbrev pub Contiguous : ℕ → List (CanonicalEvent SessionEvent) → Type 0
Contiguous v [] = Unit
Contiguous v (e ∷ es) = (e.aggregate_version ≡ v + 1) × Contiguous (v + 1) es

replay-eq-restore :
    (es : List (CanonicalEvent SessionEvent)) (s : Session) (v : ℕ)
    → s.version ≡ v
    → Contiguous v es
    → replay es s ≡ ok (restore es s)
unfolding replay restore
replay-eq-restore [] s v e c = refl
replay-eq-restore (x ∷ es) s v e c =
    let next = record (apply x.payload s) { version = x.aggregate_version } in
    ground (arith, c.0, e, replay-eq-restore es next (v + 1) c.0 c.1)

restore-append :
    (xs ys : List (CanonicalEvent SessionEvent)) (s : Session)
    → restore (xs ++ ys) s ≡ restore ys (restore xs s)
unfolding restore
restore-append [] ys s = refl
restore-append (x ∷ xs) ys s =
    restore-append xs ys (record (apply x.payload s) { version = x.aggregate_version })

-- a root Session's stream: its creation, and then events of its own
abbrev pub IsRootStream : List (CanonicalEvent SessionEvent) → Type 0
IsRootStream [] = ⊥
IsRootStream (first ∷ rest) = IsRootCreation first.payload × All (λ e. ForRoot e.payload) rest

restore-IsRootState :
    (es : List (CanonicalEvent SessionEvent)) (s : Session)
    → All (λ e. ForRoot e.payload) es
    → IsRootState s × (s.pending ≡ [])
    → IsRootState (restore es s) × ((restore es s).pending ≡ [])
unfolding restore
restore-IsRootState [] s a h = h
restore-IsRootState (x ∷ es) s a h =
    let next = record (apply x.payload s) { version = x.aggregate_version } in
    let k = apply-IsRootState x.payload s a.0 h.0 in
    restore-IsRootState es next a.1 (
      record { root = k.root; exists = k.exists; rests = k.rests; runs = k.runs },
      pending-apply x.payload s ∙ h.1,
    )

-- A Session is recovered from a snapshot and the events after it exactly as from all its events:
-- wherever the snapshot of a root Session's stream is taken, the replay gives the same Session.
pub recover :
    (before after : List (CanonicalEvent SessionEvent)) (s : Session) (state : SnapshotState)
    → IsRootStream before
    → from_events before ≡ ok s
    → snapshot_state s ≡ ok state
    → Contiguous s.version after
    → replay after (from_snapshot state s.version) ≡ from_events (before ++ after)
unfolding from_events
recover [] after s state r e snap c = absurd r
recover (first ∷ rest) after s state r e snap c =
    let s0 = record (apply first.payload (empty first.session_id first.tenant_id)) {
      version = first.aggregate_version;
    } in
    let k = creation-IsRootState first.payload first.session_id first.tenant_id r.0 in
    let eq : restore rest s0 ≡ s = ok-injective e in
    let nothing : s0.pending ≡ [] =
      pending-apply first.payload (empty first.session_id first.tenant_id) ∙ unfold empty in refl in
    let (root, pending) =
      restore-IsRootState rest s0 r.1
        (record { root = k.root; exists = k.exists; rests = k.rests; runs = k.runs }, nothing) in
    let back = from_snapshot-snapshot_state s state (subst IsRootState eq root) snap in
    let whole = ap (λ p. record s { pending = p }) (sym (ap (λ t. t.pending) (sym eq) ∙ pending)) in
    ap (replay after) (back ∙ whole)
    ∙ replay-eq-restore after s s.version refl c
    ∙ ap ok (ap (restore after) (sym eq) ∙ sym (restore-append rest after s0))
