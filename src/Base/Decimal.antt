-- ===== src/Base/Decimal.antt =====
-- Numbers in decimal, as `format!` prints them and `parse::<u16>` reads them.
use Prim.Native.Nat.{ℕ, zero, suc, ◌+◌, ◌-◌, ◌*◌, ◌/◌, ◌%◌}
use mathlib.Core.Bool.{Bool}
use mathlib.Core.Option.{Option, none, some}
use mathlib.Core.List.{[], ◌∷◌, ◌++◌}
use secd.Base.Bools.{ltb, ◌==◌, if◌then◌else◌, between}
use secd.Base.Lists.{all}
use secd.Base.Text.{Str, is_empty}

-- The fuel is more than the number of digits.
unfoldable pub digits : ℕ → ℕ → Str
digits zero n = []
digits (suc f) n =
    let high = digits f (n / 10) in
    if ltb n 10 then (b'0' + n) ∷ [] else high ++ (b'0' + n % 10) ∷ []

unfoldable pub decimal : ℕ → Str
unfolding digits
decimal n = digits (suc n) n

unfoldable pub value_from : ℕ → Str → ℕ
value_from acc [] = acc
value_from acc (d ∷ ds) = value_from (acc * 10 + (d - b'0')) ds

abbrev pub is_digit : ℕ → Bool
is_digit = between b'0' b'9'

abbrev without_plus : Str → Str
without_plus [] = []
without_plus (c ∷ s) = if c == b'+' then s else c ∷ s

-- `s.parse::<u16>().ok()`: digits behind at most one plus sign, below 2^16.
unfoldable pub parse_u16 : Str → Option ℕ
unfolding value_from
parse_u16 s =
    let ds = without_plus s in
    if is_empty ds
    then none
    else if all is_digit ds
    then (if ltb (value_from 0 ds) 65536 then some (value_from 0 ds) else none)
    else none
