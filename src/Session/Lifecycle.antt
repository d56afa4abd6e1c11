-- ===== src/Session/Lifecycle.antt =====
-- Proofs about the commands of SessionAggregate in the life of a Session.
use aura_claw.Prelude.{
  String, ◌≡◌, refl, ◌≢◌, ◌⊎◌, inl, inr, true, false, some, arith, Bool-cases, option_eq, pair_eq,
  triple_eq, string_eq, nat_eq, ok,
}
use aura_claw.Session.Types.{
  SessionStatus, RunStatus, ApprovalMode, InteractionMode, is_terminal_run, SessionEvent,
}
use aura_claw.Session.Aggregate.{Session, apply, raise}
use aura_claw.Session.Commands.{
  Command, creates, cancels, appends_message, closes, resumes, requests_run, records_response,
  delegates, escalates, expires, refused, create, cancel, append_message, request_run, RequestArgs,
  close, resume, record_human_response, delegate_approval, escalate_approval, expire_approval,
  execute,
}
use aura_claw.Session.Snapshot.Roundtrip.{IsRootState}
use aura_claw.Session.Snapshot.{is_run_end}

-- A closed Session refuses every command, so nothing is ever raised for it again.
pub closed_refuses :
    (c : Command) (s : Session) → s.status ≡ some SessionStatus.closed → execute c s ≡ refused
unfolding execute
closed_refuses (creates args) s h = unfold create in ground (arith, h)
closed_refuses (cancels reason) s h = unfold cancel in ground (arith, h)
closed_refuses (appends_message message) s h = unfold append_message in ground (arith, h)
closed_refuses (closes reason) s h = unfold close in ground (arith, h)
closed_refuses (resumes run_id) s h = unfold resume in ground (arith, h)
closed_refuses (requests_run args) s h = unfold request_run in ground (arith, h)
closed_refuses (records_response r t) s h = unfold record_human_response in ground (arith, h)
closed_refuses (delegates a f t d r) s h = unfold delegate_approval in ground (arith, h)
closed_refuses (escalates a b c d e f) s h = unfold escalate_approval in ground (arith, h)
closed_refuses (expires a b) s h = unfold expire_approval in ground (arith, h)

-- what cancelling the run of a root Session leaves
pub record IsCancelled (s : Session) : Type 0 where
  pub status : s.status ≡ some SessionStatus.ready
  pub run : s.run_status ≡ some RunStatus.cancelled

-- A root Session that is not closed can either cancel its run or be closed, and never both: it is
-- cancelled while the run has not ended, and closed only when it has.
pub cancel_or_close :
    (s : Session) (reason : String)
    → IsRootState s
    → s.status ≢ some SessionStatus.closed
    → (is_terminal_run s.run_status ≡ false
        × ((t : Session) × (cancel reason s ≡ ok t) × IsCancelled t)
        × (close reason s ≡ refused))
      ⊎ (is_terminal_run s.run_status ≡ true
          × (cancel reason s ≡ refused)
          × ((t : Session) × (close reason s ≡ ok t) × (t.status ≡ some SessionStatus.closed)))
unfolding cancel close is_run_end
cancel_or_close s reason h open' = elim (Bool-cases (is_terminal_run s.run_status)) [
  | inl ended ↦ inr (
    ended,
    ground (arith, ended, h.exists),
    (
      raise (SessionEvent.session_closed reason) s,
      ground (arith, ended, h.exists, h.rests, open'),
      unfold raise apply in refl,
    ),
  )
  | inr runs ↦ inl (
    runs,
    (
      raise (SessionEvent.run_cancelled s.run_id reason) s,
      ground (arith, runs, h.exists, h.rests, open'),
      unfold raise apply in ground (arith, h.root),
    ),
    ground (arith, runs, h.exists),
  )
]

-- A run that is requested for a Session without an interactive channel never needs an approval by
-- hand: whatever mode is asked for, the Session ends in full access.
pub request_run-full_access :
    (args : RequestArgs) (s s' : Session)
    → s.approval.interaction_mode ≡ some InteractionMode.non_streaming
    → request_run args s ≡ ok s'
    → (s'.approval.interaction_mode ≡ some InteractionMode.non_streaming)
      × (s'.approval.effective_approval_mode ≡ some ApprovalMode.full_access)
unfolding request_run raise apply
request_run-full_access args s s' h e = ground (arith, h, e)
