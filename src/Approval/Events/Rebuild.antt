-- ===== src/Approval/Events/Rebuild.antt =====
-- Proofs about `from_events` of ApprovalAggregate after a vote.
use aura_claw.Prelude.{
  subst, sym, count_where, count_where-append, ℕ, String, ◌≡◌, refl, ap, ◌∙◌, ◌≢◌, ◌⊎◌, Bool, true,
  false, Option, none, some, List, [], ◌∷◌, ◌++◌, arith, if◌then◌else◌, option_eq, pair_eq,
  triple_eq, string_eq, nat_eq, any, ok, ◌>>=◌, >>=_split,
}
use aura_claw.Contracts.{CanonicalEvent}
use aura_claw.Approval.Aggregate.{
  ApprovalStatus, ApprovalRecord, new_vote, counted, vote, by_actor, approves,
}
use text.Mathlib.TextEquality.{eq_iff}
use aura_claw.Approval.Quorum.{vote-counted}
use aura_claw.Approval.Events.{
  Body, vote_recorded, decided, foreign, parse_status, concerns, ApprovalEvent, amend, absorb,
  rebuild, from_events,
}

module _ (tenant_id session_id approval_id : String) where
  -- an event of the approval, with its body
  pub record Says (e : CanonicalEvent ApprovalEvent) (body : Body) : Type 0 where
    pub tenant : e.tenant_id ≡ tenant_id
    pub session : e.session_id ≡ session_id
    pub approval : e.payload.approval_id ≡ approval_id
    pub body_is : e.payload.body ≡ body

  rebuild-append :
      (xs ys : List (CanonicalEvent ApprovalEvent)) (r : Option ApprovalRecord)
      → rebuild tenant_id session_id approval_id (xs ++ ys) r ≡ (
          rebuild tenant_id session_id approval_id xs r
          >>= rebuild tenant_id session_id approval_id ys)
  unfolding rebuild
  rebuild-append [] ys r = refl
  rebuild-append (x ∷ xs) ys r =
      >>=_split
        (if concerns tenant_id session_id approval_id x then absorb x x.payload.body r else ok r) _
        _ _ (rebuild-append xs ys)

  rebuild-Says :
      (e : CanonicalEvent ApprovalEvent) (rest : List (CanonicalEvent ApprovalEvent))
      → (body : Body) (r : Option ApprovalRecord) → Says e body
      → rebuild tenant_id session_id approval_id (e ∷ rest) r
        ≡ (absorb e body r >>= rebuild tenant_id session_id approval_id rest)
  unfolding rebuild
  rebuild-Says e rest body r h =
      let rest' = rebuild tenant_id session_id approval_id rest in
      let all : concerns tenant_id session_id approval_id e ≡ true = ground (arith, h) in
      ap (λ b. (if b then absorb e e.payload.body r else ok r) >>= rest') all
      ∙ ap (λ b. absorb e b r >>= rest') h.body_is

-- the two events that `record_human_response` of a Session raises for a vote
abbrev pub response_body : (terminal : Bool) → (actor_id decision : String) → Option String → Body
response_body true actor_id decision feedback =
    decided decision (some actor_id) (some decision) feedback
response_body false actor_id decision feedback = vote_recorded actor_id decision feedback

parse_decisions :
    (parse_status "approved" ≡ ok ApprovalStatus.approved)
    × (parse_status "rejected" ≡ ok ApprovalStatus.rejected)
unfolding parse_status string_eq
parse_decisions = (refl, refl)

approved≢rejected : ◌≢◌ {A = String} "approved" "rejected"
approved≢rejected = ground (arith, eq_iff "approved" "rejected")

amend-vote :
    (r r' : ApprovalRecord) (actor_id decision : String) (feedback : Option String)
    → (terminal : Bool) (now : ℕ)
    → (r.status ≡ ApprovalStatus.waiting) × (r.decision ≡ none) × (r.feedback ≡ none)
    → (decision ≡ "approved") ⊎ (decision ≡ "rejected")
    → ◌≡◌ {A = ApprovalRecord × Bool}
        (r', terminal)
        (counted r (new_vote actor_id decision feedback now))
    → any (by_actor actor_id) r.votes ≡ false
    → amend (response_body terminal actor_id decision feedback) now r ≡ ok r'
unfolding amend counted
amend-vote r r' a d f true now o e c n =
    ground (arith, o, e, c, n, parse_decisions, approved≢rejected)
amend-vote r r' a d f false now o e c n = ground (arith, o, e, c, n, approved≢rejected)

absorb-response :
    (e : CanonicalEvent ApprovalEvent) (terminal : Bool) (actor_id decision : String)
    → (feedback : Option String) (r : ApprovalRecord)
    → let body = response_body terminal actor_id decision feedback in
      absorb e body (some r) ≡ (amend body e.occurred_at r >>= λ r'. ok (some r'))
unfolding absorb
absorb-response e true a d f r = refl
absorb-response e false a d f r = refl

-- the record of a vote, with the time of the vote as it is given
abbrev pub voted_at :
    ApprovalRecord
    → ApprovalRecord
    → (actor_id decision : String) (feedback : Option String) (at : ℕ) → ApprovalRecord
voted_at r r' actor_id decision feedback at = record r' {
  votes = r.votes ++ new_vote actor_id decision feedback at ∷ [];
}

-- the time of a vote decides nothing
counted-voted_at :
    (r r' : ApprovalRecord) (actor_id decision : String) (feedback : Option String)
    → (terminal : Bool) (now at : ℕ)
    → ◌≡◌ {A = ApprovalRecord × Bool}
        (r', terminal)
        (counted r (new_vote actor_id decision feedback now))
    → ◌≡◌ {A = ApprovalRecord × Bool}
        (voted_at r r' actor_id decision feedback at, terminal)
        (counted r (new_vote actor_id decision feedback at))
unfolding counted
counted-voted_at r r' a d f terminal now at c =
    let same : count_where approves (r.votes ++ new_vote a d f now ∷ [])
        ≡ count_where approves (r.votes ++ new_vote a d f at ∷ []) =
      count_where-append approves r.votes (new_vote a d f now ∷ [])
      ∙ sym (count_where-append approves r.votes (new_vote a d f at ∷ [])) in
    let base : ◌≡◌ {A = ApprovalRecord × Bool}
        (voted_at r (counted r (new_vote a d f now)).0 a d f at, (counted r (new_vote a d f now)).1)
        (counted r (new_vote a d f at)) =
      rw same refl in
    subst
      (λ (q : ApprovalRecord × Bool).
        ◌≡◌ {A = ApprovalRecord × Bool} (voted_at r q.0 a d f at, q.1)
          (counted r (new_vote a d f at)))
      (sym c) base

-- After a vote on a waiting approval, the two events that the Session raises for it, whenever they
-- are stored, rebuild the record that the vote has returned, whether it decides the approval or
-- not, except that the vote's time is that of its event.
pub vote_rebuild :
    (tenant_id session_id approval_id : String) (es : List (CanonicalEvent ApprovalEvent))
    → (r r' : ApprovalRecord) (actor_id decision : String) (feedback : Option String)
    → (terminal : Bool) (now : ℕ) (response decision' : CanonicalEvent ApprovalEvent)
    → from_events tenant_id session_id approval_id es ≡ ok (some r)
    → (r.status ≡ ApprovalStatus.waiting) × (r.decision ≡ none) × (r.feedback ≡ none)
    → (decision ≡ "approved") ⊎ (decision ≡ "rejected")
    → vote r actor_id decision feedback now ≡ ok (r', terminal)
    → Says tenant_id session_id approval_id response foreign
    → Says tenant_id session_id approval_id decision'
        (response_body terminal actor_id decision feedback)
    → from_events tenant_id session_id approval_id (es ++ response ∷ decision' ∷ [])
      ≡ ok (some (voted_at r r' actor_id decision feedback decision'.occurred_at))
unfolding from_events
vote_rebuild t s a es r r' actor d f terminal now e1 e2 built open' either voted s1 s2 =
    let facts = vote-counted r actor d f now (r', terminal) voted in
    let at = e2.occurred_at in
    rebuild-append t s a es (e1 ∷ e2 ∷ []) none
    ∙ ap (λ o. o >>= rebuild t s a (e1 ∷ e2 ∷ [])) built
    ∙ rebuild-Says t s a e1 (e2 ∷ []) foreign (some r) s1
    ∙ unfold absorb in
      refl
      ∙ rebuild-Says t s a e2 [] (response_body terminal actor d f) (some r) s2
      ∙ ap (λ o. o >>= rebuild t s a [])
          (absorb-response e2 terminal actor d f r
            ∙ ap (λ o. o >>= λ x. ok (some x))
                (amend-vote r (voted_at r r' actor d f at) actor d f terminal at open' either
                  (counted-voted_at r r' actor d f terminal now at facts.0) facts.5))
      ∙ unfold rebuild in refl
