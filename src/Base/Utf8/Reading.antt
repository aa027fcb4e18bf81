-- ===== src/Base/Utf8/Reading.antt =====
-- What the reader makes of the encoding of a character.
use Prim.Native.Nat.{ℕ, suc, ◌+◌, ◌-◌, ◌*◌, ◌/◌, ◌%◌, ◌<◌, ◌≤◌}
use mathlib.Core.Path.{◌≡◌, ◌∙◌}
use mathlib.Core.Logic.{inl, inr}
use mathlib.Core.List.{◌∷◌, ◌++◌}
use native.Mathlib.Omega.{arith}
use secd.Base.Bools.{ltb, ◌==◌, if◌then◌else◌, Bool-cases}
use secd.Base.Text.{Str}
use secd.Base.Utf8.{IsScalar, encode_char, ready, within, lead, then_char, read}

pub read-lead : (b : ℕ) (s : Str) → 128 ≤ b → read ready (b ∷ s) ≡ read (lead b) s
unfolding read
read-lead b s h = ground arith

pub read_last :
    (acc lo hi b : ℕ) (s : Str)
    → lo ≤ b
    → b ≤ hi
    → read (within 0 acc lo hi) (b ∷ s) ≡ then_char (acc * 64 + (b - 0x80)) (read ready s)
unfolding read
read_last acc lo hi b s h k = ground arith

pub read_more :
    (n acc lo hi b : ℕ) (s : Str)
    → lo ≤ b
    → b ≤ hi
    → read (within (suc n) acc lo hi) (b ∷ s) ≡ read (within n (acc * 64 + (b - 0x80)) 0x80 0xbf) s
unfolding read
read_more n acc lo hi b s h k = ground arith

pub read_one : (c : ℕ) (s : Str) → c < 0x80 → read ready (c ∷ s) ≡ then_char c (read ready s)
unfolding read
read_one c s h = ground arith

pub lead_two : (b : ℕ) → 0xc2 ≤ b → b ≤ 0xdf → lead b ≡ within 0 (b - 0xc0) 0x80 0xbf
unfolding lead
lead_two b h k = ground arith

-- The range of the second byte keeps out what two bytes encode, and the surrogates.
pub lead_three :
    (b : ℕ)
    → 0xe0 ≤ b
    → b ≤ 0xef
    → lead b
      ≡ within 1 (b - 0xe0) (if b == 0xe0 then 0xa0 else 0x80) (if b == 0xed then 0x9f else 0xbf)
unfolding lead
lead_three b h k = ground arith

pub lead_four :
    (b : ℕ)
    → 0xf0 ≤ b
    → b ≤ 0xf4
    → lead b
      ≡ within 2 (b - 0xf0) (if b == 0xf0 then 0x90 else 0x80) (if b == 0xf4 then 0x8f else 0xbf)
unfolding lead
lead_four b h k = ground arith

-- Reading `a ∷ b ∷ s`, with the number that the two bytes give.
read_two :
    (a b c : ℕ) (s : Str)
    → 0xc2 ≤ a
    → a ≤ 0xdf
    → 0x80 ≤ b
    → b ≤ 0xbf
    → (a - 0xc0) * 64 + (b - 0x80) ≡ c
    → read ready (a ∷ b ∷ s) ≡ then_char c (read ready s)
read_two a b c s h k l r e =
    read-lead a (b ∷ s) (omega arith)
    ∙ rw (lead_two a h k, read_last (a - 0xc0) 0x80 0xbf b s l r, e)

read_three :
    (a b d c : ℕ) (s : Str)
    → 0xe0 ≤ a
    → a ≤ 0xef
    → (if a == 0xe0 then 0xa0 else 0x80) ≤ b
    → b ≤ (if a == 0xed then 0x9f else 0xbf)
    → 0x80 ≤ d
    → d ≤ 0xbf
    → ((a - 0xe0) * 64 + (b - 0x80)) * 64 + (d - 0x80) ≡ c
    → read ready (a ∷ b ∷ d ∷ s) ≡ then_char c (read ready s)
read_three a b d c s h k l r l' r' e =
    read-lead a (b ∷ d ∷ s) (omega arith)
    ∙ rw (
      lead_three a h k,
      read_more 0 (a - 0xe0) _ _ b (d ∷ s) l r,
      read_last ((a - 0xe0) * 64 + (b - 0x80)) 0x80 0xbf d s l' r',
      e,
    )

read_four :
    (a b d f c : ℕ) (s : Str)
    → 0xf0 ≤ a
    → a ≤ 0xf4
    → (if a == 0xf0 then 0x90 else 0x80) ≤ b
    → b ≤ (if a == 0xf4 then 0x8f else 0xbf)
    → 0x80 ≤ d
    → d ≤ 0xbf
    → 0x80 ≤ f
    → f ≤ 0xbf
    → (((a - 0xf0) * 64 + (b - 0x80)) * 64 + (d - 0x80)) * 64 + (f - 0x80) ≡ c
    → read ready (a ∷ b ∷ d ∷ f ∷ s) ≡ then_char c (read ready s)
read_four a b d f c s h k l r l' r' m n e =
    read-lead a (b ∷ d ∷ f ∷ s) (omega arith)
    ∙ rw (
      lead_four a h k,
      read_more 1 (a - 0xf0) _ _ b (d ∷ f ∷ s) l r,
      read_more 0 ((a - 0xf0) * 64 + (b - 0x80)) 0x80 0xbf d (f ∷ s) l' r',
      read_last (((a - 0xf0) * 64 + (b - 0x80)) * 64 + (d - 0x80)) 0x80 0xbf f s m n,
      e,
    )

pub read-encode_char :
    (c : ℕ) (s : Str) → IsScalar c → read ready (encode_char c ++ s) ≡ then_char c (read ready s)
unfolding encode_char
read-encode_char c s h = elim (Bool-cases (ltb c 0x80)) [
  | inl e ↦ rw e (read_one c s (ground arith))
  | inr e ↦ elim (Bool-cases (ltb c 0x800)) [
    | inl f ↦
        rw (e, f)
          (read_two (0xc0 + c / 64) (0x80 + c % 64) c s (ground arith) (ground arith) (ground arith)
            (ground arith) (ground arith))
    | inr f ↦ elim (Bool-cases (ltb c 0x10000)) [
      | inl g ↦
          rw (e, f, g)
            (read_three (0xe0 + c / 4096) (0x80 + c / 64 % 64) (0x80 + c % 64) c s (ground arith)
              (ground arith) (ground arith) (ground arith) (ground arith) (ground arith)
              (ground arith))
      | inr g ↦
          rw (e, f, g)
            (read_four (0xf0 + c / 262144) (0x80 + c / 4096 % 64) (0x80 + c / 64 % 64)
              (0x80 + c % 64) c s (ground arith) (ground arith) (ground arith) (ground arith)
              (ground arith) (ground arith) (ground arith) (ground arith) (ground arith))
    ]
  ]
]
