-- ===== src/Prelude/Dict.antt =====
-- Python's `dict` in insertion order. Proofs elsewhere go by the laws.
use mathlib.Core.Path.{◌≡◌, refl}
use mathlib.Core.Option.{Option, none, some}
use mathlib.Core.List.{List, [], ◌∷◌, ◌++◌, map}
use native.Mathlib.Omega.{arith}
use mathlib.Core.Path.{subst}
use mathlib.Core.Logic.{inl, inr}
use aura_claw.Prelude.Tests.{if◌then◌else◌, Bool-cases}
use aura_claw.Prelude.Lists.{All}
use aura_claw.Prelude.Equality.{Eq, ◌==◌}

abbrev pub Dict {ℓ κ} : Type ℓ → Type κ → Type (ℓ ⊔ κ)
Dict K V = List (K × V)

unfoldable pub keys {ℓ κ} : {K : Type ℓ} {V : Type κ} → Dict K V → List K
keys = map (λ (k, _). k)

unfoldable pub values {ℓ κ} : {K : Type ℓ} {V : Type κ} → Dict K V → List V
values = map (λ (_, v). v)

module _ {ℓ κ} {K : Type ℓ} {V : Type κ} ⦃e : Eq K⦄ where
  -- `d.get(k)`
  unfoldable pub get : K → Dict K V → Option V
  get k [] = none
  get k ((j, v) ∷ d) = if k == j then some v else get k d

  -- `d[k] = v`
  unfoldable pub put : K → V → Dict K V → Dict K V
  put k v [] = (k, v) ∷ []
  put k v ((j, w) ∷ d) = if k == j then (k, v) ∷ d else (j, w) ∷ put k v d

  -- `d.pop(k, None)`. Every entry of the key goes; a real dict has at most one.
  unfoldable pub remove : K → Dict K V → Dict K V
  remove k [] = []
  remove k ((j, w) ∷ d) = let rest = remove k d in if k == j then rest else (j, w) ∷ rest

  pub get-put :
      (j k : K) (v : V) (d : Dict K V) → get j (put k v d) ≡ (if j == k then some v else get j d)
  unfolding get put
  get-put j k v [] = ground arith
  get-put j k v (_ ∷ d) = ground (arith, get-put j k v d)

  pub get-remove :
      (j k : K) (d : Dict K V) → get j (remove k d) ≡ (if j == k then none else get j d)
  unfolding get remove
  get-remove j k [] = ground arith
  get-remove j k (_ ∷ d) = ground (arith, get-remove j k d)

  pub get-put_self : (k : K) (v : V) (d : Dict K V) → get k (put k v d) ≡ some v
  get-put_self k v d = ground (arith, get-put k k v d)

  pub get-remove_self : (k : K) (d : Dict K V) → get k (remove k d) ≡ none
  get-remove_self k d = ground (arith, get-remove k k d)

  -- An absent key that is set does not lose its place to another.
  pub put-put_self : (k : K) (v w : V) (d : Dict K V) → put k w (put k v d) ≡ put k w d
  unfolding put
  put-put_self k v w [] = ground arith
  put-put_self k v w (_ ∷ d) = ground (arith, put-put_self k v w d)

  -- A new key comes last.
  pub put-eq-append : (k : K) (v : V) (d : Dict K V) → get k d ≡ none → put k v d ≡ d ++ (k, v) ∷ []
  unfolding get put
  put-eq-append k v [] h = refl
  put-eq-append k v (_ ∷ d) h = ground (arith, put-eq-append k v d)

  pub put_same : (k : K) (v : V) (d : Dict K V) → get k d ≡ some v → put k v d ≡ d
  unfolding get put
  put_same k v [] h = cc
  put_same k v (_ ∷ d) h = ground (arith, put_same k v d)

  -- A predicate on the values survives a write of a value that satisfies it, and holds of what a
  -- lookup returns.
  module _ {ι} (P : V → Type ι) where
    pub All-put :
        (k : K) (v : V) (d : Dict K V) → P v → All P (values d) → All P (values (put k v d))
    unfolding put values
    All-put k v [] p h = (p, tt)
    All-put k v (_ ∷ d) p h = ground (arith, All-put k v d p h.1)

    pub All-get : (k : K) (v : V) (d : Dict K V) → All P (values d) → get k d ≡ some v → P v
    unfolding get values
    All-get k v [] h g = cc
    All-get k v ((j, w) ∷ d) h g = elim (Bool-cases (k == j)) [
      | inl same ↦ subst P (ground arith) h.0
      | inr differ ↦ All-get k v d h.1 (ground arith)
    ]

pub ruleset dict_laws = (get-put, get-remove, get-put_self, get-remove_self)
