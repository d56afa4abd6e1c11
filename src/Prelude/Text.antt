-- ===== src/Prelude/Text.antt =====
-- Python's operations on texts that the modelled code uses.
use Prim.Native.Nat.{ℕ, zero, suc, ◌+◌, ◌/◌, ◌%◌}
use Prim.Native.String.{String, [], ◌∷◌, ◌++◌ as ◌<>◌, compare, slice}
use mathlib.Core.Bool.{Bool}
use mathlib.Core.Option.{Option, none, some}
use text.Mathlib.Text.{is_lt}
use Prim.Native.Char.{code}
use mathlib.Core.Bool.{true, false, ◌&&◌}
use aura_claw.Prelude.Tests.{leb, if◌then◌else◌}
use aura_claw.Prelude.Space.{is_space}

-- `s[:n]`
unfoldable pub take_chars : ℕ → String → String
take_chars zero s = []
take_chars (suc n) [] = []
take_chars (suc n) (c ∷ s) = c ∷ take_chars n s

-- the digits of `n`, of which there are at most `rounds`
digits_from : (rounds : ℕ) → ℕ → String
digits_from zero n = []
digits_from (suc rounds) n =
    let before = digits_from rounds (n / 10) in
    (if leb n 9 then [] else before) <> slice "0123456789" (n % 10) (n % 10 + 1)

-- `str(n)`
unfoldable pub decimal : ℕ → String
unfolding digits_from
decimal n = digits_from (suc n) n

-- `s < t`, by code points
abbrev pub text_lt : String → String → Bool
text_lt s t = is_lt (compare s t)

left_strip : String → String
left_strip [] = []
left_strip (c ∷ s) = let rest = left_strip s in if is_space (code c) then rest else c ∷ s

is_empty : String → Bool
is_empty [] = true
is_empty (c ∷ s) = false

right_strip : String → String
unfolding is_empty
right_strip [] = []
right_strip (c ∷ s) =
    let rest = right_strip s in if is_space (code c) && is_empty rest then [] else c ∷ rest

-- `s.strip()`
unfoldable pub strip : String → String
unfolding left_strip right_strip is_space
strip s = left_strip (right_strip s)

-- a text that is not empty
unfoldable pub is_truthy : String → Bool
is_truthy [] = false
is_truthy (c ∷ s) = true

-- the first character and the rest
unfoldable pub uncons : String → Option (String × String)
uncons [] = none
uncons (c ∷ s) = some (c ∷ [], s)

unfoldable pub char_count : String → ℕ
char_count [] = 0
char_count (c ∷ s) = char_count s + 1
