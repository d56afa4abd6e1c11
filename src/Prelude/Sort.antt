-- ===== src/Prelude/Sort.antt =====
-- Python's stable `sorted` by a key, as an insertion sort.
use mathlib.Core.Bool.{Bool}
use mathlib.Core.List.{List, [], ◌∷◌}
use mathlib.Core.Logic.{inl, inr}
use aura_claw.Prelude.Lists.{All}
use aura_claw.Prelude.Tests.{if◌then◌else◌, Bool-cases}

module _ {ℓ} {A : Type ℓ} (before : A → A → Bool) where
  -- `before y x` says that `y`'s key is strictly less than `x`'s: only then does `y` pass `x`.
  unfoldable pub insert : A → List A → List A
  insert x [] = x ∷ []
  insert x (y ∷ ys) = if before y x then y ∷ insert x ys else x ∷ y ∷ ys

  unfoldable pub sort : List A → List A
  unfolding insert
  sort [] = []
  sort (x ∷ xs) = insert x (sort xs)

  module _ {κ} (P : A → Type κ) where
    pub All-insert : (x : A) (xs : List A) → P x → All P xs → All P (insert x xs)
    unfolding insert
    All-insert x [] p h = (p, tt)
    All-insert x (y ∷ ys) p h = elim (Bool-cases (before y x)) [
      | inl less ↦ rw less (h.0, All-insert x ys p h.1)
      | inr more ↦ rw more (p, h)
    ]

    pub All-sort : (xs : List A) → All P xs → All P (sort xs)
    unfolding sort
    All-sort [] h = tt
    All-sort (x ∷ xs) h = All-insert x (sort xs) h.0 (All-sort xs h.1)

    All-uninsert : (x : A) (xs : List A) → All P (insert x xs) → P x × All P xs
    unfolding insert
    All-uninsert x [] = λ h. h
    All-uninsert x (y ∷ ys) = elim (Bool-cases (before y x)) [
      | inl less ↦ rw less (λ h. let rest = All-uninsert x ys h.1 in (rest.0, (h.0, rest.1)))
      | inr more ↦ rw more (λ h. h)
    ]

    pub All-unsort : (xs : List A) → All P (sort xs) → All P xs
    unfolding sort
    All-unsort [] h = tt
    All-unsort (x ∷ xs) h =
        let parts = All-uninsert x (sort xs) h in (parts.0, All-unsort xs parts.1)
