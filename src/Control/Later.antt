-- ===== src/Control/Later.antt =====
-- How the state of InMemoryControlStateStore may go on, as far as fencing goes: `Later s t` says
-- that counters only grow, that no lease of an outlived token appears, and that no checkpoint is
-- lost to one of an older lease.
pub mod Grants
pub mod Frames
pub mod Ends
use aura_claw.Prelude.{
  ℕ, zero, suc, ◌+◌, ◌-◌, ◌*◌, ◌≤◌, ◌<◌, max, min, String, ◌<>◌, ◌≡◌, refl, sym, ap, ◌∙◌, subst,
  ◌≢◌, ◌↔◌, ◌⊎◌, inl, inr, Bool, true, false, not, ◌&&◌, ◌||◌, Option, none, some, List, [], ◌∷◌,
  ◌++◌, map, arith, ltb, leb, if◌then◌else◌, leb→le, leb_false→lt, le→leb, ltb→lt, lt→ltb,
  Bool-cases, Option-cases, &&-eq-true, is_some, Eq, ◌==◌, contains, option_eq, pair_eq, triple_eq,
  distinct, distinct_from, string_eq, nat_eq, ==_refl, ==→eq, length, take, any, all, select, find,
  count_where, length-append, count_where-append, length-take_le, All, All-append, All-select,
  Error, Result, ok, err, ◌>>=◌, ◌>>◌, ok-injective, >>=-eq-ok, >>=_split,
}
use aura_claw.Prelude.Dict
use aura_claw.Prelude.Dict.{
  Dict, get-put, get-remove, get-put_self, get-remove_self, put-put_self, dict_laws,
}
use aura_claw.Control.Store.{RuntimeLease, RuntimeCheckpoint, ControlStore}
use aura_claw.Control.Leases.{counter}

-- a lease of the resource, if there is one, has a token above n
unfoldable pub Above : String → ℕ → Dict String RuntimeLease → Type 0
Above r n leases = (l : RuntimeLease) → Dict.get r leases ≡ some l → n < l.fencing_token

abbrev pub Key : Type 0
Key = String × String × String

-- a checkpoint of the key is stored, of a lease no older than n
unfoldable pub Stored : Key → ℕ → Dict Key RuntimeCheckpoint → Type 0
Stored k n d = (c : RuntimeCheckpoint) × (Dict.get k d ≡ some c) × (n ≤ c.fencing_token)

pub record Later (s t : ControlStore) : Type 0 where
  pub counters : (r : String) → counter r s ≤ counter r t
  pub above : (r : String) (n : ℕ) → n < counter r s → Above r n s.leases → Above r n t.leases
  pub stored : (k : Key) (n : ℕ) → Stored k n s.checkpoints → Stored k n t.checkpoints

pub Later-refl : (s : ControlStore) → Later s s
Later-refl s = record { counters = λ r. omega arith; above = λ r n m h. h; stored = λ k n h. h }

pub Later-trans : {s t u : ControlStore} → Later s t → Later t u → Later s u
Later-trans {s} {t} {u} p q = record {
  counters = λ r. omega (arith, p.counters r, q.counters r);
  above = λ r n m h. q.above r n (omega (arith, p.counters r)) (p.above r n m h);
  stored = λ k n h. q.stored k n (p.stored k n h);
}

-- A write that leaves the counters and the checkpoints alone.
pub Later-leases :
    (s : ControlStore) (leases : Dict String RuntimeLease)
    → ((r : String) (n : ℕ) → Above r n s.leases → Above r n leases)
    → (t : ControlStore) → t.lease_counters ≡ s.lease_counters
    → t.leases ≡ leases
    → t.checkpoints ≡ s.checkpoints
    → Later s t
Later-leases s leases f t c l k = record {
  counters = λ r.
      subst (λ d. counter r s ≤ elim (Dict.get r d) [ none ↦ 0 | some n ↦ n ]) (sym c)
        (omega arith);
  above = λ r n m h. subst (Above r n) (sym l) (f r n h);
  stored = λ key n h. subst (Stored key n) (sym k) h;
}

module _ (r : String) (n : ℕ) where
  pub Above-put :
      (q : String) (l : RuntimeLease) (d : Dict String RuntimeLease)
      → (r ≡ q → n < l.fencing_token)
      → Above r n d
      → Above r n (Dict.put q l d)
  unfolding Above
  Above-put q l d p h = λ m e. ground (arith, Dict.get-put r q l d, p, h m)

  pub Above-remove :
      (q : String) (d : Dict String RuntimeLease) → Above r n d → Above r n (Dict.remove q d)
  unfolding Above
  Above-remove q d h = λ m e. ground (arith, Dict.get-remove r q d, h m)

  pub Above-get :
      (q : String) (l : RuntimeLease) (d : Dict String RuntimeLease)
      → Dict.get q d ≡ some l
      → Above r n d
      → r ≡ q
      → n < l.fencing_token
  unfolding Above
  Above-get q l d e h same = h l (subst (λ x. Dict.get x d ≡ some l) (sym same) e)

  pub Above-none : (d : Dict String RuntimeLease) → Dict.get r d ≡ none → Above r n d
  unfolding Above
  Above-none d e = λ l g. cc

pub Stored-put :
    (k : Key) (n : ℕ) (j : Key) (c : RuntimeCheckpoint) (d : Dict Key RuntimeCheckpoint)
    → ((b : RuntimeCheckpoint) → Dict.get j d ≡ some b → b.fencing_token ≤ c.fencing_token)
    → Stored k n d
    → Stored k n (Dict.put j c d)
unfolding Stored
Stored-put k n j c d p (b, e, m) = elim (Bool-cases (k == j)) [
  | inl same ↦ (c, ground (arith, Dict.get-put k j c d), newer (==→eq k j same))
  | inr differ ↦ (b, ground (arith, Dict.get-put k j c d), m)
]
  where
    newer : k ≡ j → n ≤ c.fencing_token
    newer h = omega (arith, p b (subst (λ x. Dict.get x d ≡ some b) h e))
