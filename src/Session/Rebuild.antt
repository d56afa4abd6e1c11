-- ===== src/Session/Rebuild.antt =====
-- Proofs about `from_events` of SessionAggregate after any commands.
use aura_claw.Prelude.{
  ℕ, suc, ◌+◌, String, ◌≡◌, refl, sym, ap, ◌∙◌, ◌≢◌, none, List, [], ◌∷◌, arith, option_eq, pair_eq,
  triple_eq, string_eq, nat_eq, length, ok, ok-injective, >>=-eq-ok,
}
use aura_claw.Contracts.{CanonicalEvent}
use aura_claw.Session.Types.{SessionEvent}
use aura_claw.Session.Aggregate.{Session, empty, apply, restore, from_events}
use aura_claw.Session.Commands.{Command, execute}
use aura_claw.Session.Raises.{
  effects, apply-frame, pending-apply, Sourced, run, run-Sourced, first_command,
}

-- The canonical events of a Session that record the given ones after version `v`, as the event
-- store numbers them.
abbrev pub Recorded :
    (session_id tenant_id : String) (v : ℕ)
    → List SessionEvent
    → List (CanonicalEvent SessionEvent)
    → Type 0
Recorded session_id tenant_id v [] [] = Unit
Recorded session_id tenant_id v (x ∷ xs) (e ∷ es) =
    (e.session_id ≡ session_id)
    × (e.tenant_id ≡ tenant_id)
    × (e.aggregate_version ≡ v + 1)
    × (e.payload ≡ x)
    × Recorded session_id tenant_id (v + 1) xs es
Recorded session_id tenant_id v _ _ = ⊥

abbrev at_version : ℕ → Session → Session
at_version v s = record s { version = v }

effects-at_version :
    (v : ℕ) (xs : List SessionEvent) (s : Session)
    → effects xs (at_version v s) ≡ at_version v (effects xs s)
effects-at_version v [] s = refl
effects-at_version v (x ∷ xs) s =
    ap (effects xs) (
      apply-frame x s v s.pending
      ∙ ap (λ p. record (apply x s) { version = v; pending = p }) (sym (pending-apply x s)))
    ∙ effects-at_version v xs (apply x s)

module _ (session_id tenant_id : String) where
  restore-effects :
      (v : ℕ) (xs : List SessionEvent) (es : List (CanonicalEvent SessionEvent)) (s : Session)
      → s.version ≡ v
      → Recorded session_id tenant_id v xs es
      → restore es s ≡ at_version (v + length xs) (effects xs s)
  unfolding restore
  restore-effects v [] [] s e r = ap (λ n. at_version n s) (omega arith)
  restore-effects v [] (_ ∷ _) s e r = absurd r
  restore-effects v (_ ∷ _) [] s e r = absurd r
  restore-effects v (x ∷ xs) (c ∷ es) s e r =
      let u = at_version c.aggregate_version (apply c.payload s) in
      let sum : v + 1 + length xs ≡ v + suc (length xs) = omega arith in
      restore-effects (v + 1) xs es u r.2 r.4
      ∙ ap (at_version (v + 1 + length xs))
          (effects-at_version c.aggregate_version xs (apply c.payload s))
      ∙ ap (λ y. at_version (v + 1 + length xs) (effects xs (apply y s))) r.3
      ∙ ap (λ n. at_version n (effects xs (apply x s))) sum

  from_events-effects :
      (xs : List SessionEvent) (es : List (CanonicalEvent SessionEvent))
      → xs ≢ []
      → Recorded session_id tenant_id 0 xs es
      → from_events es ≡ ok (at_version (length xs) (effects xs (empty session_id tenant_id)))
  unfolding from_events
  from_events-effects [] es ne r = absurd (ne refl)
  from_events-effects (x ∷ xs) [] ne r = absurd r
  from_events-effects (x ∷ xs) (c ∷ es) ne r = ap ok (
      ap (λ z. restore (c ∷ es) z) (cc (r.0, r.1))
      ∙ restore-effects 0 (x ∷ xs) (c ∷ es) (empty session_id tenant_id) refl r
      ∙ ap (λ n. at_version n (effects (x ∷ xs) (empty session_id tenant_id))) (omega arith))

  run-empty :
      (cs : List Command) {s : Session}
      → run cs (empty session_id tenant_id) ≡ ok s
      → s.status ≢ none
      → Sourced (empty session_id tenant_id) s
  unfolding run empty
  run-empty [] h e = absurd (e (ap (λ t. t.status) (sym (ok-injective h))))
  run-empty (c ∷ rest) h e =
      let (u, first, later) = >>=-eq-ok (execute c (empty session_id tenant_id)) (run rest) h in
      let (src, there) = first_command c (empty session_id tenant_id) refl refl first in
      run-Sourced (empty session_id tenant_id) rest u there src later

-- What any commands have made of a Session that was not there is what the recorded form of its
-- pending events restores, with their number as its version and nothing pending.
pub run_rebuild :
    (session_id tenant_id : String) (cs : List Command) {s : Session}
    → (es : List (CanonicalEvent SessionEvent)) → run cs (empty session_id tenant_id) ≡ ok s
    → s.status ≢ none
    → Recorded session_id tenant_id 0 s.pending es
    → from_events es ≡ ok (record s { version = length s.pending; pending = [] })
unfolding empty
run_rebuild i t cs {s} es h e r =
    let src = run-empty i t cs h e in
    let some_event : s.pending ≢ [] =
      λ none_yet'. e (ap (λ u. u.status) (src ∙ ap (λ p. effects p (empty i t)) none_yet')) in
    from_events-effects i t s.pending es some_event r
    ∙ ap (λ u. ok (at_version (length s.pending) u)) (sym src)
