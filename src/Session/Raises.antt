-- ===== src/Session/Raises.antt =====
-- Proofs about the commands of SessionAggregate: the events that they raise, and their effects.
use aura_claw.Prelude.{
  ℕ, String, ◌≡◌, refl, sym, ap, ◌∙◌, subst, ◌≢◌, inl, inr, Bool, true, false, Option, none, some,
  List, [], ◌∷◌, ◌++◌, arith, if◌then◌else◌, Option-cases, option_eq, pair_eq, triple_eq, string_eq,
  nat_eq, Result, ok, ◌>>=◌, ok-injective, >>=-eq-ok,
}
use aura_claw.Session.Types.{
  CreatedPayload, ApprovalConfiguration, SessionStatus, ApprovalMode, SessionEvent,
}
use aura_claw.Session.Aggregate.{Session, apply, raise}
use aura_claw.Session.Commands.{
  CreateArgs, Command, creates, cancels, appends_message, closes, resumes, requests_run,
  records_response, delegates, escalates, expires, refused, existing, change_mode, create, cancel,
  append_message, request_run, close, resume, record_human_response, delegate_approval,
  escalate_approval, expire_approval, execute,
}

-- a Session with nothing pending
abbrev pub clean : Session → Session
clean s = record s { pending = [] }

abbrev pub effects : List SessionEvent → Session → Session
effects [] s = s
effects (event ∷ rest) s = effects rest (apply event s)

effects-append :
    (xs : List SessionEvent) (event : SessionEvent) (s : Session)
    → effects (xs ++ event ∷ []) s ≡ apply event (effects xs s)
effects-append [] event s = refl
effects-append (x ∷ xs) event s = effects-append xs event (apply x s)

-- `apply` neither reads nor writes the version and the pending events
pub apply-frame :
    (event : SessionEvent) (s : Session) (version : ℕ) (pending : List SessionEvent)
    → apply event (record s { version = version; pending = pending })
      ≡ record (apply event s) { version = version; pending = pending }
unfolding apply
apply-frame (SessionEvent.run_requested p) s v q = refl
apply-frame _ s v q = ground arith

pub version-apply : (event : SessionEvent) (s : Session) → (apply event s).version ≡ s.version
version-apply event s = ap (λ t. t.version) (apply-frame event s s.version s.pending)

pub pending-apply : (event : SessionEvent) (s : Session) → (apply event s).pending ≡ s.pending
pending-apply event s = ap (λ t. t.pending) (apply-frame event s s.version s.pending)

clean-raise : (event : SessionEvent) (s : Session) → clean (raise event s) ≡ apply event (clean s)
unfolding raise
clean-raise event s = sym (
    apply-frame event s s.version []
    ∙ ap (λ v. record (apply event s) { version = v; pending = [] }) (sym (version-apply event s)))

pending-raise :
    (event : SessionEvent) (s : Session) → (raise event s).pending ≡ s.pending ++ event ∷ []
unfolding raise
pending-raise event s = ap (λ p. p ++ event ∷ []) (pending-apply event s)

-- `s` is what its pending events make of `origin`
abbrev pub Sourced : Session → Session → Type 0
Sourced origin s = clean s ≡ effects s.pending origin

raise-Sourced :
    (origin s : Session) (event : SessionEvent) → Sourced origin s → Sourced origin (raise event s)
raise-Sourced origin s event h =
    clean-raise event s
    ∙ ap (apply event) h
    ∙ sym (effects-append s.pending event origin)
    ∙ sym (ap (λ p. effects p origin) (pending-raise event s))

-- `t` is `s` after some events are raised
data Raises (s : Session) : Session → Type 0 where
  none_yet : Raises s s
  one_more : {t : Session} (event : SessionEvent) → Raises s t → Raises s (raise event t)

Raises-Sourced :
    (origin s : Session) {t : Session} → Sourced origin s → Raises s t → Sourced origin t
Raises-Sourced origin s h none_yet = h
Raises-Sourced origin s h (one_more event r) =
    raise-Sourced origin _ event (Raises-Sourced origin s h r)

accepted : (b : Bool) {t s' : Session} → (if b then ok t else refused) ≡ ok s' → t ≡ s'
accepted true h = cc
accepted false h = cc

not_refused : (b : Bool) {t s' : Session} → (if b then refused else ok t) ≡ ok s' → t ≡ s'
not_refused true h = cc
not_refused false h = cc

if-Raises :
    (b : Bool) (s : Session) (event : SessionEvent) → Raises s (if b then raise event s else s)
if-Raises true s event = one_more event none_yet
if-Raises false s event = none_yet

mode-Raises : (mode : Option ApprovalMode) (s : Session) → Raises s (change_mode mode s)
unfolding change_mode
mode-Raises mode s = if-Raises _ s _

module _ {s' : Session} where
  existing-Raises :
      (s : Session) (o : Option SessionStatus) (next : SessionStatus → Result Session)
      → ((status : SessionStatus) → next status ≡ ok s' → Raises s s')
      → existing o next ≡ ok s'
      → Raises s s'
  existing-Raises s none next k h = cc
  existing-Raises s (some status) next k h = k status h

  one : (s : Session) (event : SessionEvent) → raise event s ≡ s' → Raises s s'
  one s event e = subst (Raises s) e (one_more event none_yet)

  -- Every command but `create` raises events and does nothing else.
  execute-Raises : (c : Command) (s : Session) → execute c s ≡ ok s' → s.status ≢ none → Raises s s'
  unfolding execute
  execute-Raises (creates args) s h e = elim (Option-cases s.status) [
    | inl missing ↦ absurd (e missing)
    | inr (status, there) ↦ absurd (unfold create in ground (arith, h, there))
  ]
  execute-Raises (cancels reason) s h e =
      unfold cancel in existing-Raises s s.status _ (λ status k. one s _ (not_refused _ k)) h
  execute-Raises (appends_message message) s h e =
      unfold append_message in
      existing-Raises s s.status _ (λ status k. one s _ (not_refused _ k)) h
  execute-Raises (closes reason) s h e =
      unfold close in existing-Raises s s.status _ (λ status k. one s _ (not_refused _ k)) h
  execute-Raises (resumes run_id) s h e =
      unfold resume in existing-Raises s s.status _ (λ status k. one s _ (accepted _ k)) h
  execute-Raises (requests_run args) s h e =
      unfold request_run in
      existing-Raises s s.status _
        (λ status k.
          subst (Raises s) (accepted _ k) (one_more _ (mode-Raises args.approval_mode s)))
        h
  execute-Raises (records_response response true) s h e =
      unfold record_human_response in
      existing-Raises s s.status _
        (λ status k. subst (Raises s) (accepted _ k) (one_more _ (one_more _ none_yet))) h
  execute-Raises (records_response response false) s h e =
      unfold record_human_response in
      existing-Raises s s.status _
        (λ status k. subst (Raises s) (accepted _ k) (one_more _ (one_more _ none_yet))) h
  execute-Raises (delegates a f t d r) s h e =
      unfold delegate_approval in
      existing-Raises s s.status _ (λ status k. one s _ (accepted _ k)) h
  execute-Raises (escalates a approvers level by r n) s h e =
      unfold escalate_approval in
      existing-Raises s s.status _ (λ status k. one s _ (accepted _ k)) h
  execute-Raises (expires a at) s h e =
      unfold expire_approval in existing-Raises s s.status _ (λ status k. one s _ (accepted _ k)) h

first-Sourced :
    (p : CreatedPayload) (s : Session) (dept_id : Option String) (skill_names : List String)
    → (approval : ApprovalConfiguration) → p.approval ≡ some approval
    → s.pending ≡ []
    → Sourced (clean s) (
        raise
          (SessionEvent.session_created p)
          (record s { dept_id = dept_id; skill_names = skill_names; approval = approval }))
first-Sourced p s dept names approval pa pe =
    let event = SessionEvent.session_created p in
    let t = record s { dept_id = dept; skill_names = names; approval = approval } in
    let same : apply event (clean t) ≡ apply event (clean s) = unfold apply in ground (arith, pa) in
    let queue : (raise event t).pending ≡ event ∷ [] =
      pending-raise event t ∙ ap (λ q. q ++ event ∷ []) pe in
    clean-raise event t ∙ same ∙ sym (ap (λ q. effects q (clean s)) queue)

-- The first event of `create` carries all that `create` has set before.
create-Sourced :
    (args : CreateArgs) (s : Session) {s' : Session}
    → s.pending ≡ []
    → create args s ≡ ok s'
    → Sourced (clean s) s'
unfolding create
create-Sourced args s e h =
    subst (Sourced (clean s)) (not_refused _ h)
      (raise-Sourced (clean s) _ _ (first-Sourced _ s _ _ _ refl e))

-- One command after another, as long as none is refused.
unfoldable pub run : List Command → Session → Result Session
run [] s = ok s
run (c ∷ rest) s = execute c s >>= run rest

raise_exists :
    (event : SessionEvent) (s : Session) → s.status ≢ none → (raise event s).status ≢ none
unfolding raise apply
raise_exists (SessionEvent.run_requested p) s e = ground arith
raise_exists _ s e = ground arith

Raises-exists : (s : Session) {t : Session} → s.status ≢ none → Raises s t → t.status ≢ none
Raises-exists s e none_yet = e
Raises-exists s e (one_more event r) = raise_exists event _ (Raises-exists s e r)

pub run-Sourced :
    (origin : Session) (cs : List Command) (s : Session) {s' : Session}
    → s.status ≢ none
    → Sourced origin s
    → run cs s ≡ ok s'
    → Sourced origin s'
unfolding run
run-Sourced origin [] s e src h = subst (Sourced origin) (ok-injective h) src
run-Sourced origin (c ∷ rest) s e src h =
    let (t, first, later) = >>=-eq-ok (execute c s) (run rest) h in
    let r = execute-Raises c s first e in
    run-Sourced origin rest t (Raises-exists s e r) (Raises-Sourced origin s src r) later

-- only `create` is accepted for a Session that is not there
pub first_command :
    (c : Command) (s : Session) {t : Session}
    → s.status ≡ none
    → s.pending ≡ []
    → execute c s ≡ ok t
    → Sourced (clean s) t × (t.status ≢ none)
unfolding execute
first_command (creates args) s none_yet' p h =
    (create-Sourced args s p h, unfold create raise apply in ground (arith, h))
first_command (cancels r) s n p h = absurd (unfold cancel in ground (arith, n, h))
first_command (appends_message r) s n p h = absurd (unfold append_message in ground (arith, n, h))
first_command (closes r) s n p h = absurd (unfold close in ground (arith, n, h))
first_command (resumes r) s n p h = absurd (unfold resume in ground (arith, n, h))
first_command (requests_run r) s n p h = absurd (unfold request_run in ground (arith, n, h))
first_command (records_response r x) s n p h =
    absurd (unfold record_human_response in ground (arith, n, h))
first_command (delegates a f t d r) s n p h =
    absurd (unfold delegate_approval in ground (arith, n, h))
first_command (escalates a b c d e f) s n p h =
    absurd (unfold escalate_approval in ground (arith, n, h))
first_command (expires a b) s n p h = absurd (unfold expire_approval in ground (arith, n, h))
