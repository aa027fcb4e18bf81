-- ===== src/Core/Hex/RoundTrip.antt =====
-- Decoding what was encoded, and which texts decode.
use Prim.Native.Nat.{bit_or}
use secd.Base.{
  ℕ, zero, suc, ◌*◌, ◌/◌, ◌%◌, ◌<◌, Bool, true, false, ◌≡◌, refl, ap, List, [], ◌∷◌, length, All,
  all, arith, ◌==◌, ==_iff, and_true, Bool-cases, inl, inr, subst, sym,
}
use secd.Base.Result.{Result, ok, err}
use secd.Core.Error.{Error}
use secd.Core.Hex.{hex_digit, to_hex, hex_val, from_pairs, from_hex}

abbrev pub IsByte : ℕ → Type 0
IsByte b = b < 256

unfoldable pub below : ℕ → List ℕ
below zero = []
below (suc n) = n ∷ below n

-- A test of all numbers below a bound, which evaluation decides.
abbrev pub every_below : ℕ → (ℕ → Bool) → Bool
every_below bound test = all test (below bound)

pub every_below_at :
    (bound : ℕ) (test : ℕ → Bool) (i : ℕ)
    → every_below bound test ≡ true
    → i < bound
    → test i ≡ true
unfolding below
every_below_at zero test i table inside = absurd (omega arith)
every_below_at (suc top) test i table inside =
    let (at_top, under) = (and_true (test top) (every_below top test)).0 table in
    elim (Bool-cases (i == top)) [
      | inl e ↦ subst (λ j. test j ≡ true) (sym ((==_iff i top).0 e)) at_top
      | inr e ↦ every_below_at top test i under (ground arith)
    ]

is_val : ℕ → Result Error ℕ → Bool
is_val n (ok m) = m == n
is_val n (err _) = false

is_val_eq : (n : ℕ) (r : Result Error ℕ) → is_val n r ≡ true → r ≡ ok n
unfolding is_val
is_val_eq n (ok m) h = ap ok ((==_iff m n).0 h)
is_val_eq n (err _) h = absurd (cc)

digit_table : every_below 16 (λ i. is_val i (hex_val (hex_digit i))) ≡ true
unfolding below is_val hex_val hex_digit
digit_table = refl

hex_val-hex_digit : (i : ℕ) → i < 16 → hex_val (hex_digit i) ≡ ok i
hex_val-hex_digit i h =
    is_val_eq i _ (every_below_at 16 (λ i. is_val i (hex_val (hex_digit i))) i digit_table h)

nibbles_table : every_below 256 (λ b. bit_or (b / 16 * 16 % 256) (b % 16) == b) ≡ true
unfolding below
nibbles_table = refl

join_nibbles : (b : ℕ) → IsByte b → bit_or (b / 16 * 16 % 256) (b % 16) ≡ b
join_nibbles b h =
    (==_iff _ b).0
      (every_below_at 256 (λ b. bit_or (b / 16 * 16 % 256) (b % 16) == b) b nibbles_table h)

pub length-to_hex : (bytes : List ℕ) → length (to_hex bytes) ≡ 2 * length bytes
unfolding to_hex
length-to_hex [] = refl
length-to_hex (b ∷ bytes) = omega (arith, length-to_hex bytes)

from_pairs-to_hex : (bytes : List ℕ) → All IsByte bytes → from_pairs (to_hex bytes) ≡ ok bytes
unfolding from_pairs to_hex
from_pairs-to_hex [] h = refl
from_pairs-to_hex (b ∷ bytes) (h, hs) = rw (hex_val-hex_digit (b / 16) (omega arith)) (
    rw (hex_val-hex_digit (b % 16) (omega arith))
      (rw (from_pairs-to_hex bytes hs) (rw (join_nibbles b h))))

-- Decoding gives back the bytes that were encoded.
pub from_hex-to_hex : (bytes : List ℕ) → All IsByte bytes → from_hex (to_hex bytes) ≡ ok bytes
unfolding from_hex
from_hex-to_hex bytes h =
    let even : (length (to_hex bytes) % 2 == 0) ≡ true = ground (arith, length-to_hex bytes) in
    rw even (from_pairs-to_hex bytes h)
