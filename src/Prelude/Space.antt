-- ===== src/Prelude/Space.antt =====
-- Python's white space.
use Prim.Native.Nat.{ℕ}
use mathlib.Core.Bool.{Bool, ◌&&◌, ◌||◌}
use mathlib.Core.List.{List, [], ◌∷◌}
use aura_claw.Prelude.Tests.{leb}
use aura_claw.Prelude.Lists.{any}

abbrev spaces : List ℕ
spaces = 0x85 ∷ 0xa0 ∷ 0x1680 ∷ 0x2028 ∷ 0x2029 ∷ 0x202f ∷ 0x205f ∷ 0x3000 ∷ []

-- the characters that `str.isspace` accepts
unfoldable pub is_space : ℕ → Bool
is_space c =
    (leb 9 c && leb c 13)
    || (leb 28 c && leb c 32)
    || leb 0x2000 c && leb c 0x200a
    || any (λ w. leb w c && leb c w) spaces
