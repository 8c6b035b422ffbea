-- ===== src/Base/Integers.antt =====
-- Integers over the native numbers, Go's 64-bit `int`, and the text of numbers.
use Prim.Native.Nat.{ℕ, zero, suc, ◌+◌, ◌-◌, ◌*◌, ◌/◌, ◌%◌, ◌^◌}
use mathlib.Core.Bool.{◌&&◌}
use mathlib.Core.Option.{Option, none, some}
use mathlib.Core.List.{[], ◌∷◌, ◌++◌}
use dk_agent_memory.Base.Tests.{ltb, leb, ◌==◌, if◌then◌else◌}
use dk_agent_memory.Base.Bytes.{Text}

pub data ℤ : Type 0 where
  pos : ℕ → ℤ
  negsuc : ℕ → ℤ

abbrev pub negative : ℕ → ℤ
negative zero = pos 0
negative (suc n) = negsuc n

-- The value of a text of digits behind a value already read; no digit at all is `none` for the caller.
unfoldable pub digits_from : ℕ → Text → Option ℕ
digits_from n [] = some n
digits_from n (c ∷ s) =
    if leb b'0' c && leb c b'9' then digits_from (n * 10 + (c - b'0')) s else none

abbrev pub digits_value : Text → Option ℕ
digits_value [] = none
digits_value (c ∷ s) = digits_from 0 (c ∷ s)

abbrev pub signed : (ℕ → ℤ) → ℕ → Option ℕ → Option ℤ
signed sign limit none = none
signed sign limit (some n) = if leb n limit then some (sign n) else none

-- `strconv.Atoi`
unfoldable pub atoi : Text → Option ℤ
unfolding digits_from
atoi [] = none
atoi (c ∷ s) =
    if c == b'-'
    then signed negative (2 ^ 63) (digits_value s)
    else if c == b'+'
    then signed pos (2 ^ 63 - 1) (digits_value s)
    else signed pos (2 ^ 63 - 1) (digits_value (c ∷ s))

-- `%d` of a number with at most `fuel` digits_value.
unfoldable pub decimal_from : ℕ → ℕ → Text
decimal_from zero n = []
decimal_from (suc fuel) n =
    let rest = decimal_from fuel (n / 10) in
    if ltb n 10 then (b'0' + n) ∷ [] else rest ++ ((b'0' + n % 10) ∷ [])

unfoldable pub show : ℕ → Text
unfolding decimal_from
show n = decimal_from 20 n
