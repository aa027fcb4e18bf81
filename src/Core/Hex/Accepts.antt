-- ===== src/Core/Hex/Accepts.antt =====
-- Which texts `from_hex` decodes, and what it returns.
use Prim.Native.Nat.{bit_or}
use secd.Base.{
  ℕ, suc, ◌+◌, ◌-◌, ◌*◌, ◌%◌, ◌<◌, Bool, true, ◌&&◌, ◌||◌, ◌≡◌, refl, ◌↔◌, inl, inr, List, [], ◌∷◌,
  length, all, All, arith, ltb, between, Bool-cases, and_true,
}
use secd.Base.Text.{Str}
use secd.Base.Result.{ok, ok-bind, ok-injective}
use secd.Core.Hex.{hex_val, from_pairs, from_hex}
use secd.Core.Hex.RoundTrip.{below, IsByte, every_below, every_below_at}

-- A hexadecimal digit in either case.
abbrev pub is_hex : ℕ → Bool
is_hex b = between b'0' b'9' b || between b'a' b'f' b || between b'A' b'F' b

hex_val_lt : (b v : ℕ) → hex_val b ≡ ok v → (v < 16) × (is_hex b ≡ true)
unfolding hex_val
hex_val_lt b v h = ground arith

hex_val_total : (b : ℕ) → is_hex b ≡ true → (v : ℕ) × (hex_val b ≡ ok v)
unfolding hex_val
hex_val_total b h = elim (Bool-cases (between b'0' b'9' b)) [
  | inl d ↦ (b - b'0', rw d)
  | inr d ↦ elim (Bool-cases (between b'a' b'f' b)) [
    | inl e ↦ (b - b'a' + 10, rw d (rw e))
    | inr e ↦ (b - b'A' + 10, rw d (rw e (ground arith)))
  ]
]

nibbles_table : every_below 16 (λ h. every_below 16 (λ l. ltb (bit_or (h * 16 % 256) l) 256)) ≡ true
unfolding below
nibbles_table = refl

ltb→lt : (a b : ℕ) → ltb a b ≡ true → a < b
ltb→lt a b h = ground arith

nibble_lt : (hi lo : ℕ) → hi < 16 → lo < 16 → bit_or (hi * 16 % 256) lo < 256
nibble_lt hi lo h k = ltb→lt _ 256 (
    every_below_at 16 (λ l. ltb (bit_or (hi * 16 % 256) l) 256) lo
      (every_below_at 16 (λ i. every_below 16 (λ l. ltb (bit_or (i * 16 % 256) l) 256)) hi
        nibbles_table h)
      k)

-- The pairs that decode are pairs of digits, and each gives one byte.
abbrev Decoded : Str → List ℕ → Type 0
Decoded s bytes = (all is_hex s ≡ true) × (length s ≡ 2 * length bytes) × All IsByte bytes

Decoded-cons :
    (a b hi lo : ℕ) (s : Str) (rest : List ℕ)
    → hex_val a ≡ ok hi
    → hex_val b ≡ ok lo
    → Decoded s rest
    → Decoded (a ∷ b ∷ s) (bit_or (hi * 16 % 256) lo ∷ rest)
Decoded-cons a b hi lo s rest p q d =
    let (u, x) = hex_val_lt a hi p in
    let (v, y) = hex_val_lt b lo q in
    (
      (and_true _ _).1 (x, (and_true _ _).1 (y, d.0)),
      omega (arith, d.1),
      (nibble_lt hi lo u v, d.2),
    )

from_pairs_sound : (s : Str) (bytes : List ℕ) → from_pairs s ≡ ok bytes → Decoded s bytes
unfolding from_pairs
from_pairs_sound [] bytes h = rw (ok-injective h) (refl, refl, tt)
from_pairs_sound (_ ∷ []) bytes h = absurd (cc)
from_pairs_sound (a ∷ b ∷ s) bytes h =
    let (hi, p, h₁) = ok-bind (hex_val a) _ h in
    let (lo, q, h₂) = ok-bind (hex_val b) _ h₁ in
    let (rest, r, h₃) = ok-bind (from_pairs s) _ h₂ in
    rw (ok-injective h₃) (Decoded-cons a b hi lo s rest p q (from_pairs_sound s rest r))

even_step : (n : ℕ) → suc (suc n) % 2 ≡ 0 → n % 2 ≡ 0
even_step n h = omega arith

from_pairs_total :
    (s : Str)
    → length s % 2 ≡ 0
    → all is_hex s ≡ true
    → (bytes : List ℕ) × (from_pairs s ≡ ok bytes)
unfolding from_pairs
from_pairs_total [] even h = ([], refl)
from_pairs_total (a ∷ []) even h = absurd (omega arith)
from_pairs_total (a ∷ b ∷ s) even h =
    let (x, h₁) = (and_true (is_hex a) (is_hex b && all is_hex s)).0 h in
    let (y, h₂) = (and_true (is_hex b) (all is_hex s)).0 h₁ in
    let (hi, p) = hex_val_total a x in
    let (lo, q) = hex_val_total b y in
    let (rest, r) = from_pairs_total s (even_step (length s) even) h₂ in
    (bit_or (hi * 16 % 256) lo ∷ rest, rw p (rw q (rw r)))

-- What decodes has an even length and hexadecimal digits only, and gives half as many bytes.
pub from_hex_sound : (s : Str) (bytes : List ℕ) → from_hex s ≡ ok bytes → Decoded s bytes
unfolding from_hex
from_hex_sound s bytes h = from_pairs_sound s bytes (ground arith)

-- `from_hex` decodes a text exactly if its length is even and every byte of it is a hexadecimal
-- digit, in either case.
pub from_hex_accepts_iff :
    (s : Str)
    → ((bytes : List ℕ) × (from_hex s ≡ ok bytes)) ↔ ((length s % 2 ≡ 0) × (all is_hex s ≡ true))
unfolding from_hex
from_hex_accepts_iff s = (
  (λ p. let d = from_hex_sound s p.0 p.1 in (omega (arith, d.1), d.0)),
  λ h. let (bytes, r) = from_pairs_total s h.0 h.1 in (bytes, ground arith),
)
