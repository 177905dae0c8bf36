-- ===== src/Base/Text.antt =====
-- Text by the numbers of its characters.
use Prim.Native.Nat.{ℕ, zero, suc, ◌+◌, ◌/◌, ◌%◌}
use Prim.Native.Char.{code}
use Prim.Native.String.{String}
use mathlib.Core.List.{List, [], ◌∷◌, ◌++◌}
use mathlib.Core.Bool.{Bool, true, false}
use mathlib.Core.Path.{◌≡◌}
use mathlib.Core.Logic.{◌↔◌}
use native.Mathlib.Omega.{arith}
use stakan.Base.Tests.{ltb, ◌==◌, if◌then◌else◌}

-- ASCII only: a character is one byte.
abbrev pub codes : String → List ℕ
codes String.[] = []
codes (String.◌∷◌ letter others) = let tail = codes others in code letter ∷ tail

-- The numeral of a number with `rounds` digits at most.
numeral : ℕ → ℕ → List ℕ
numeral zero value = []
numeral (suc rounds) value =
    let last = (48 + value % 10) ∷ [] in
    let front = numeral rounds (value / 10) in if ltb value 10 then last else front ++ last

-- `std::to_string` of an unsigned number: one of 64 bits has no more than 20 digits.
unfoldable pub decimal : ℕ → List ℕ
unfolding numeral
decimal value = numeral 20 value

-- Equality of two texts.
unfoldable pub same_text : List ℕ → List ℕ → Bool
same_text [] [] = true
same_text [] (b ∷ bs) = false
same_text (a ∷ as_) [] = false
same_text (a ∷ as_) (b ∷ bs) = let rest = same_text as_ bs in if a == b then rest else false

pub same_text_iff : (s t : List ℕ) → (same_text s t ≡ true) ↔ (s ≡ t)
unfolding same_text
same_text_iff [] [] = ground arith
same_text_iff [] (b ∷ bs) = ground arith
same_text_iff (a ∷ as_) [] = ground arith
same_text_iff (a ∷ as_) (b ∷ bs) = ground (arith, same_text_iff as_ bs)
