-- ===== src/Approval/Quorum.antt =====
-- Proofs about `request`, `vote` and `validate` of ApprovalAggregate.
use aura_claw.Prelude.{
  none, some, Option-cases, ◌⊎◌, inl, inr, ℕ, ◌≤◌, ◌<◌, String, ◌≡◌, refl, sym, ap, subst, ◌≢◌, ◌↔◌,
  Bool, true, false, not, ◌||◌, Option, some, List, [], ◌∷◌, ◌++◌, arith, ◌==◌, contains, option_eq,
  pair_eq, triple_eq, distinct, string_eq, nat_eq, length, any, count_where, count_where-append,
  Result, ok, err,
}
use aura_claw.Approval.Aggregate.{
  ApprovalStatus, Vote, ApprovalRecord, Request, request, is_open, by_actor, approves, new_vote,
  counted, vote, validate,
}

abbrev pub rejects : Vote → Bool
rejects v = v.decision == "rejected"

-- no actor has voted twice
abbrev pub Distinct : List Vote → Type 0
Distinct [] = Unit
Distinct (v ∷ vs) = (any (by_actor v.actor_id) vs ≡ false) × Distinct vs

-- While an approval is open its quorum is not reached and nobody has rejected it; when it is
-- approved the quorum is reached and nobody has rejected it.
pub record IsValid (r : ApprovalRecord) : Type 0 where
  pub positive : 0 < r.required_approvals
  pub one_each : Distinct r.votes
  pub undecided :
      is_open r.status ≡ true
      → (any rejects r.votes ≡ false) × (count_where approves r.votes < r.required_approvals)
  pub quorum :
      r.status ≡ ApprovalStatus.approved
      → (any rejects r.votes ≡ false) × (r.required_approvals ≤ count_where approves r.votes)
  pub veto : r.status ≡ ApprovalStatus.rejected → any rejects r.votes ≡ true

-- A new request is valid and waits; its quorum can be reached by its approvers, it expires later
-- than now, and it escalates before it expires.
pub request-IsValid :
    (q : Request) (hex : String) (now : ℕ) (r : ApprovalRecord)
    → request q hex now ≡ ok r
    → IsValid r
      × (r.status ≡ ApprovalStatus.waiting)
      × (now < r.expires_at)
      × ((r.assigned_approvers ≡ [])
          ⊎ (r.required_approvals ≤ length (distinct r.assigned_approvers)))
      × ((r.escalation_at ≡ none) ⊎ ((at : ℕ) × (r.escalation_at ≡ some at) × (at < r.expires_at)))
unfolding request
request-IsValid q hex now r e = (
  ground (arith, e),
  ground (arith, e),
  ground (arith, e),
  ground (arith, e),
  elim (Option-cases r.escalation_at) [
    | inl n ↦ inl n
    | inr (at, h) ↦ inr (at, h, ground (arith, e, h))
  ],
)

any-append :
    (p : Vote → Bool) (vs : List Vote) (v : Vote) → any p (vs ++ v ∷ []) ≡ (any p vs || p v)
any-append p [] v = ground arith
any-append p (x ∷ vs) v = ground (arith, any-append p vs v)

Distinct-append :
    (vs : List Vote) (v : Vote)
    → Distinct vs
    → any (by_actor v.actor_id) vs ≡ false
    → Distinct (vs ++ v ∷ [])
Distinct-append [] v d n = (refl, tt)
Distinct-append (x ∷ vs) v d n = (
  ground (arith, d, n, any-append (by_actor x.actor_id) vs v),
  Distinct-append vs v d.1 (ground (arith, n)),
)

module _ (r : ApprovalRecord) (v : Vote) (h : IsValid r)
    (unvoted : any (by_actor v.actor_id) r.votes ≡ false) where
  counted-IsValid : is_open r.status ≡ true → IsValid (counted r v).0
  unfolding counted
  counted-IsValid o = record {
    positive = h.positive;
    one_each = Distinct-append r.votes v h.one_each unvoted;
    undecided = λ o'. ground (
      arith,
      h.undecided o,
      any-append rejects r.votes v,
      count_where-append approves r.votes (v ∷ []),
    );
    quorum = λ q. ground (
      arith,
      h.undecided o,
      any-append rejects r.votes v,
      count_where-append approves r.votes (v ∷ []),
    );
    veto = λ q. ground (
      arith,
      h.undecided o,
      any-append rejects r.votes v,
      count_where-append approves r.votes (v ∷ []),
    );
  }

-- A vote is counted only while the approval is open and has not expired, for an assigned approver
-- (if any are assigned) who has not voted, and for a decision that the record allows.
pub vote-counted :
    (r : ApprovalRecord) (actor_id decision : String) (feedback : Option String) (now : ℕ)
    → (outcome : ApprovalRecord × Bool) → vote r actor_id decision feedback now ≡ ok outcome
    → (outcome ≡ counted r (new_vote actor_id decision feedback now))
      × (is_open r.status ≡ true)
      × (now < r.expires_at)
      × ((r.assigned_approvers ≡ []) ⊎ (contains r.assigned_approvers actor_id ≡ true))
      × (contains r.allowed_decisions decision ≡ true)
      × (any (by_actor actor_id) r.votes ≡ false)
unfolding vote
vote-counted r a d f now outcome e = (
  ground (arith, e),
  ground (arith, e),
  ground (arith, e),
  ground (arith, e),
  ground (arith, e),
  ground (arith, e),
)

-- A vote that is counted keeps a record valid, and it decides the record exactly when it rejects,
-- or when it approves or not and the approvals with it reach the quorum.
pub vote-IsValid :
    (r : ApprovalRecord) (actor_id decision : String) (feedback : Option String) (now : ℕ)
    → (r' : ApprovalRecord) (terminal : Bool) → IsValid r
    → vote r actor_id decision feedback now ≡ ok (r', terminal)
    → IsValid r'
      × (terminal ≡ not (is_open r'.status))
      × (r'.status ≡ ApprovalStatus.rejected ↔ decision ≡ "rejected")
      × (r'.status ≡ ApprovalStatus.approved
          ↔ ((decision ≢ "rejected") × (r.required_approvals ≤ count_where approves r'.votes)))
vote-IsValid r a d f now r' t h e =
    let facts = vote-counted r a d f now (r', t) e in
    let v = new_vote a d f now in
    let eq : (r', t) ≡ counted r v = facts.0 in
    (
      subst IsValid (sym (ap (λ o. o.0) eq)) (counted-IsValid r v h facts.5 facts.1),
      unfold counted in ground (arith, eq),
      unfold counted in ground (arith, eq),
      unfold counted in ground (arith, eq),
    )

pub record Ballot : Type 0 where
  pub actor_id : String
  pub decision : String
  pub feedback : Option String
  pub at : ℕ

abbrev outcome_or : ApprovalRecord → Result (ApprovalRecord × Bool) → ApprovalRecord
outcome_or r (ok (r', _)) = r'
outcome_or r (err _) = r

-- one ballot after another; a refused one changes nothing
unfoldable pub cast_all : List Ballot → ApprovalRecord → ApprovalRecord
cast_all [] r = r
cast_all (b ∷ rest) r = cast_all rest (outcome_or r (vote r b.actor_id b.decision b.feedback b.at))

outcome_or-IsValid :
    (r : ApprovalRecord) (b : Ballot) (o : Result (ApprovalRecord × Bool))
    → vote r b.actor_id b.decision b.feedback b.at ≡ o
    → IsValid r
    → IsValid (outcome_or r o)
outcome_or-IsValid r b (err e) v h = h
outcome_or-IsValid r b (ok (r', t)) v h =
    (vote-IsValid r b.actor_id b.decision b.feedback b.at r' t h v).0

cast_all-IsValid : (bs : List Ballot) (r : ApprovalRecord) → IsValid r → IsValid (cast_all bs r)
unfolding cast_all
cast_all-IsValid [] r h = h
cast_all-IsValid (b ∷ rest) r h =
    cast_all-IsValid rest (outcome_or r (vote r b.actor_id b.decision b.feedback b.at))
      (outcome_or-IsValid r b (vote r b.actor_id b.decision b.feedback b.at) refl h)

-- An action is cleared by an approval only for the tenant, Session, action digest and policy version
-- that were asked about, before the approval expires, and after a quorum of approvals by different
-- actors of which none rejected it, whatever ballots were cast on the request.
pub validate_cleared :
    (q : Request) (hex : String) (asked : ℕ) (bs : List Ballot) (r : ApprovalRecord)
    → (tenant_id session_id digest policy_version : String) (now : ℕ) → request q hex asked ≡ ok r
    → validate (cast_all bs r) tenant_id session_id digest policy_version now ≡ ok tt
    → let r' = cast_all bs r in
      (r'.tenant_id ≡ tenant_id)
      × (r'.session_id ≡ session_id)
      × (r'.action_digest ≡ digest)
      × (r'.policy_version ≡ policy_version)
      × (now < r'.expires_at)
      × Distinct r'.votes
      × (any rejects r'.votes ≡ false)
      × (r'.required_approvals ≤ count_where approves r'.votes)
unfolding validate
validate_cleared q hex asked bs r t s d p now made cleared =
    let h = cast_all-IsValid bs r (request-IsValid q hex asked r made).0 in
    (
      ground (arith, cleared),
      ground (arith, cleared),
      ground (arith, cleared),
      ground (arith, cleared),
      ground (arith, cleared),
      h.one_each,
      ground (arith, cleared, h.quorum),
      ground (arith, cleared, h.quorum),
    )
