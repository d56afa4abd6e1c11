-- ===== src/Delivery/Worker.antt =====
-- delivery/worker.py: the state of a delivery task, and its awaits. A task runs alone between two
-- awaits; at each await, other tasks may change what they share with it, and the await may raise.
-- An await that raises has not had its effect. Metrics are left out, with the awaits that write
-- them, and the effect of a heartbeat on the task is what the awaits raise and what the others do.
pub mod Status
pub mod Deliver
pub mod Runs
pub mod Quiet
pub mod OneCall
pub mod Calls
pub mod Abandoned
pub mod Ingest
pub mod Ingested
mod Tests
use aura_claw.Prelude.{
  ℕ, zero, suc, ◌+◌, ◌-◌, ◌*◌, ◌≤◌, ◌<◌, max, min, String, ◌<>◌, ◌≡◌, refl, sym, ap, ◌∙◌, subst,
  ◌≢◌, ◌↔◌, ◌⊎◌, inl, inr, Bool, true, false, not, ◌&&◌, ◌||◌, Option, none, some, List, [], ◌∷◌,
  ◌++◌, map, arith, ltb, leb, if◌then◌else◌, leb→le, leb_false→lt, le→leb, ltb→lt, lt→ltb,
  Bool-cases, Option-cases, &&-eq-true, is_some, Eq, ◌==◌, contains, option_eq, pair_eq, triple_eq,
  distinct, distinct_from, string_eq, nat_eq, ==_refl, ==→eq, length, take, any, all, select, find,
  count_where, length-append, count_where-append, length-take_le, All, All-append, All-select,
  Error, Result, ok, err, ok-injective,
}
use aura_claw.Prelude.Dict
use aura_claw.Prelude.Dict.{
  Dict, get-put, get-remove, get-put_self, get-remove_self, put-put_self, dict_laws,
}
use aura_claw.Contracts.{CanonicalEvent, NewEvent, Value}
use aura_claw.Delivery.Types.{DeliveryJob, ResultSinkConfig, SinkResponse}
use aura_claw.Delivery.Store.{JobStore}
use aura_claw.Delivery.LocalCircuit.{CircuitBreaker}
use aura_claw.Events.Store.{EventStore}

abbrev pub Payload : Type 0
Payload = Dict String Value

-- what the tasks of the process share
pub record Shared : Type 0 where
  pub jobs : JobStore
  pub events : EventStore Payload
  -- `self._local_circuit`
  pub local_circuit : Option CircuitBreaker

-- what `adapter.deliver` does; the text is the name of an exception's class
pub data Answer : Type 0 where
  answered : (response : SinkResponse) → Answer
  raised : (name : String) → Answer
  interrupted : Answer

-- The worker's settings, the largest `timedelta` and `datetime` that Python has, the adapters, which are third parties here, and what surrounds a task: at
-- the await `i`, `others i` is what the other tasks have done, `fails i` what the await raises,
-- `clock i` the reading of the clock, `token i` a fresh `uuid4().hex`, and `lease_lost i` is set
-- when the heartbeat has lost the claim. `govern`, `hex` and `at` are those of an append, and
-- the hash and the date format those of `create_job`.
pub record World : Type 0 where
  pub worker_id : String
  pub max_attempts : ℕ
  pub base_retry_delay : ℕ
  pub longest_delay : ℕ
  pub last_instant : ℕ
  pub claim_ttl : ℕ
  pub circuit_failure_threshold : ℕ
  pub circuit_reset_after : ℕ
  pub circuit_probe_ttl : ℕ
  pub adapters : Dict String (ℕ → DeliveryJob → ResultSinkConfig → Answer)
  pub others : ℕ → Shared → Shared
  pub fails : ℕ → Option Error
  pub clock : ℕ → ℕ
  -- a second reading in the same call
  pub clock_again : ℕ → ℕ
  pub token : ℕ → String
  pub lease_lost : ℕ → Bool
  pub govern :
      List (CanonicalEvent Payload) → List (NewEvent Payload) → Result (List (NewEvent Payload))
  pub sha256_hexdigest : String → String
  pub isoformat : ℕ → String
  pub hex : ℕ → ℕ → String
  pub at : ℕ → ℕ → ℕ

-- a call of an adapter, and the job store at that time
pub record Call : Type 0 where
  pub job : DeliveryJob
  pub config : ResultSinkConfig
  pub jobs : JobStore
  pub called_at : ℕ

-- a task: its awaits so far, its variable `side_effect_started` and the adapters it has called
pub record Task : Type 0 where
  pub shared : Shared
  pub tick : ℕ
  pub side_effect_started : Bool
  pub calls : List Call

abbrev pub Exec : Type 0 → Type 0
Exec A = Task → Task × Result A

unfoldable pub proceed : {A B : Type 0} → (A → Exec B) → Task × Result A → Task × Result B
proceed next (s, err e) = (s, err e)
proceed next (s, ok a) = next a s

infixl 5 ◌>>=◌ ◌>>◌
abbrev pub ◌>>=◌ : {A B : Type 0} → Exec A → (A → Exec B) → Exec B
◌>>=◌ m next s = proceed next (m s)

abbrev pub ◌>>◌ : {A B : Type 0} → Exec A → Exec B → Exec B
◌>>◌ m next = m >>= (λ _. next)

abbrev pub return_value : {A : Type 0} → A → Exec A
return_value a s = (s, ok a)

abbrev pub throw : {A : Type 0} → Error → Exec A
throw e s = (s, err e)

unfoldable pub handle : {A : Type 0} → (Error → Exec A) → Task × Result A → Task × Result A
handle handler (s, err e) = handler e s
handle handler (s, ok a) = (s, ok a)

-- `try: m except error: handler(error)`
abbrev pub catch : {A : Type 0} → Exec A → (Error → Exec A) → Exec A
catch m handler s = handle handler (m s)

-- a step on what is shared, without an await
unfoldable pub at_once : {A : Type 0} → (Shared → Shared × A) → Exec A
at_once op s = let (sh, a) = op s.shared in (record s { shared = sh }, ok a)

module _ (w : World) where
  -- the others have acted, and the call of the await is next
  abbrev pub resumed : Task → Task
  resumed s = record s { shared = w.others s.tick s.shared; tick = s.tick + 1 }

  unfoldable pub await_call : {A : Type 0} → (Shared → (now : ℕ) → Shared × Result A) → Exec A
  await_call op s =
      let next = resumed s in
      elim (w.fails s.tick) [
        | some e ↦ (next, err e)
        | none ↦ let (sh, r) = op next.shared (w.clock s.tick) in (record next { shared = sh }, r)
      ]

  -- an await of a method of the job store
  unfoldable pub await_jobs : {A : Type 0} → (JobStore → (now : ℕ) → JobStore × A) → Exec A
  unfolding await_call
  await_jobs op =
      await_call (λ sh now. let (jobs, a) = op sh.jobs now in (record sh { jobs = jobs }, ok a))

  unfoldable pub read_clock : Exec ℕ
  read_clock s = (s, ok (w.clock s.tick))
