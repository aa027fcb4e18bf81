-- ===== src/Core/Hex.antt =====
-- `to_hex`, `from_hex` and `hex_val` of crates/secd-core/src/wrap.rs.
pub mod RoundTrip
pub mod Accepts
use Prim.Native.Nat.{bit_or}
use secd.Base.{
  ℕ, suc, ◌+◌, ◌-◌, ◌*◌, ◌/◌, ◌%◌, not, List, [], ◌∷◌, length, get_or, ◌==◌, between, if◌then◌else◌,
}
use secd.Base.Text.{Str, codes}
use secd.Base.Result.{Result, ok, err, ◌>>=◌}
use secd.Core.Error.{Error, hex}

-- `HEX[i]`; every index that `to_hex` makes of a byte is below 16.
unfoldable pub hex_digit : ℕ → ℕ
hex_digit i = get_or (codes "0123456789abcdef") i 0

-- `b >> 4` is `b / 16`, and `b & 0x0f` is `b % 16`.
unfoldable pub to_hex : List ℕ → Str
to_hex [] = []
to_hex (b ∷ bytes) = hex_digit (b / 16) ∷ hex_digit (b % 16) ∷ to_hex bytes

unfoldable pub hex_val : ℕ → Result Error ℕ
hex_val b =
    if between b'0' b'9' b
    then ok (b - b'0')
    else if between b'a' b'f' b
    then ok (b - b'a' + 10)
    else if between b'A' b'F' b
    then ok (b - b'A' + 10)
    else err hex

-- The loop; `(hi << 4) | lo` on `u8`. An odd byte at the end would be a panic, and the length test
-- before the loop excludes it.
unfoldable pub from_pairs : Str → Result Error (List ℕ)
unfolding hex_val
from_pairs [] = ok []
from_pairs (_ ∷ []) = err hex
from_pairs (h ∷ l ∷ s) = do
  hi ← hex_val h
  lo ← hex_val l
  rest ← from_pairs s
  ok (bit_or (hi * 16 % 256) lo ∷ rest)

unfoldable pub from_hex : Str → Result Error (List ℕ)
unfolding from_pairs
from_hex s = if not (length s % 2 == 0) then err hex else from_pairs s
