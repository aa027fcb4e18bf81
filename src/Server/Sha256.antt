-- ===== src/Server/Sha256.antt =====
-- `sha256` of crates/secd-web/src/audit.rs, on 32-bit words as numbers below 2 ^ 32.
mod Tests
use Prim.Native.Nat.{bit_and, bit_xor, bit_or, min}
use secd.Base.{
  ℕ, zero, suc, ◌+◌, ◌-◌, ◌*◌, ◌/◌, ◌%◌, ◌^◌, not, List, [], ◌∷◌, ◌++◌, length, get_or, take, drop,
  replicate, ltb, ◌==◌, if◌then◌else◌,
}
use secd.Base.Text.{Str}

abbrev u32 : ℕ → ℕ
u32 n = n % 2 ^ 32

abbrev rotate_right : ℕ → ℕ → ℕ
rotate_right n x = bit_or (x / 2 ^ n) (u32 (x * 2 ^ (32 - n)))

abbrev xor_three : ℕ → ℕ → ℕ → ℕ
xor_three a b c = bit_xor (bit_xor a b) c

abbrev k : List ℕ
k =
    0x428a2f98 ∷ 0x71374491 ∷ 0xb5c0fbcf ∷ 0xe9b5dba5 ∷ 0x3956c25b ∷ 0x59f111f1 ∷ 0x923f82a4
    ∷ 0xab1c5ed5 ∷ 0xd807aa98 ∷ 0x12835b01 ∷ 0x243185be ∷ 0x550c7dc3 ∷ 0x72be5d74 ∷ 0x80deb1fe
    ∷ 0x9bdc06a7 ∷ 0xc19bf174 ∷ 0xe49b69c1 ∷ 0xefbe4786 ∷ 0x0fc19dc6 ∷ 0x240ca1cc ∷ 0x2de92c6f
    ∷ 0x4a7484aa ∷ 0x5cb0a9dc ∷ 0x76f988da ∷ 0x983e5152 ∷ 0xa831c66d ∷ 0xb00327c8 ∷ 0xbf597fc7
    ∷ 0xc6e00bf3 ∷ 0xd5a79147 ∷ 0x06ca6351 ∷ 0x14292967 ∷ 0x27b70a85 ∷ 0x2e1b2138 ∷ 0x4d2c6dfc
    ∷ 0x53380d13 ∷ 0x650a7354 ∷ 0x766a0abb ∷ 0x81c2c92e ∷ 0x92722c85 ∷ 0xa2bfe8a1 ∷ 0xa81a664b
    ∷ 0xc24b8b70 ∷ 0xc76c51a3 ∷ 0xd192e819 ∷ 0xd6990624 ∷ 0xf40e3585 ∷ 0x106aa070 ∷ 0x19a4c116
    ∷ 0x1e376c08 ∷ 0x2748774c ∷ 0x34b0bcb5 ∷ 0x391c0cb3 ∷ 0x4ed8aa4a ∷ 0x5b9cca4f ∷ 0x682e6ff3
    ∷ 0x748f82ee ∷ 0x78a5636f ∷ 0x84c87814 ∷ 0x8cc70208 ∷ 0x90befffa ∷ 0xa4506ceb ∷ 0xbef9a3f7
    ∷ 0xc67178f2 ∷ []

abbrev init : List ℕ
init =
    0x6a09e667 ∷ 0xbb67ae85 ∷ 0x3c6ef372 ∷ 0xa54ff53a ∷ 0x510e527f ∷ 0x9b05688c ∷ 0x1f83d9ab
    ∷ 0x5be0cd19 ∷ []

-- `to_be_bytes` of a number of `n` bytes
unfoldable pub to_be_bytes : ℕ → ℕ → List ℕ
to_be_bytes zero x = []
to_be_bytes (suc n) x = x / 256 ^ n % 256 ∷ to_be_bytes n x

abbrev from_be_bytes : ℕ → ℕ → ℕ → ℕ → ℕ
from_be_bytes a b c d = ((a * 256 + b) * 256 + c) * 256 + d

-- `while msg.len() % 64 != 56 { msg.push(0) }`, on the length: how many zeros it pushes. The first
-- argument bounds the rounds; 64 are enough.
unfoldable pub zeros : ℕ → ℕ → ℕ
zeros zero len = 0
zeros (suc fuel) len = let rest = zeros fuel (len + 1) in if len % 64 == 56 then 0 else suc rest

-- The message with the byte 0x80, the zeros and the length in bits, whose multiplication saturates.
unfoldable pub padded : List ℕ → List ℕ
unfolding to_be_bytes zeros
padded input =
    input
    ++ (0x80 ∷ replicate (zeros 64 (length input + 1)) 0
        ++ to_be_bytes 8 (min (length input * 8) (2 ^ 64 - 1)))

-- The first 16 words of the schedule, from a chunk of 64 bytes.
words : List ℕ → List ℕ
words (a ∷ b ∷ c ∷ d ∷ rest) = from_be_bytes a b c d ∷ words rest
words _ = []

abbrev at : List ℕ → ℕ → ℕ
at w i = get_or w i 0

-- `w[i]` for `i` from 16 on, from the `i` words before it.
schedule_word : List ℕ → ℕ → ℕ
schedule_word w i =
    let a = at w (i - 15) in
    let b = at w (i - 2) in
    let s0 = xor_three (rotate_right 7 a) (rotate_right 18 a) (a / 2 ^ 3) in
    let s1 = xor_three (rotate_right 17 b) (rotate_right 19 b) (b / 2 ^ 10) in
    u32 (at w (i - 16) + s0 + at w (i - 7) + s1)

schedule : ℕ → List ℕ → List ℕ
unfolding schedule_word
schedule zero w = w
schedule (suc rounds) w = schedule rounds (w ++ schedule_word w (length w) ∷ [])

record Vars : Type 0 where
  a : ℕ
  b : ℕ
  c : ℕ
  d : ℕ
  e : ℕ
  f : ℕ
  g : ℕ
  hh : ℕ

round : ℕ → ℕ → Vars → Vars
round ki wi v =
    let s1 = xor_three (rotate_right 6 v.e) (rotate_right 11 v.e) (rotate_right 25 v.e) in
    let ch = bit_xor (bit_and v.e v.f) (bit_and (2 ^ 32 - 1 - v.e) v.g) in
    let t1 = u32 (v.hh + s1 + ch + ki + wi) in
    let s0 = xor_three (rotate_right 2 v.a) (rotate_right 13 v.a) (rotate_right 22 v.a) in
    let maj = xor_three (bit_and v.a v.b) (bit_and v.a v.c) (bit_and v.b v.c) in
    let t2 = u32 (s0 + maj) in
    record {
      a = u32 (t1 + t2);
      b = v.a;
      c = v.b;
      d = v.c;
      e = u32 (v.d + t1);
      f = v.e;
      g = v.f;
      hh = v.g;
    }

rounds : List ℕ → List ℕ → Vars → Vars
unfolding round
rounds (ki ∷ ks) (wi ∷ ws) v = rounds ks ws (round ki wi v)
rounds _ _ v = v

start : List ℕ → Vars
start h = record {
  a = at h 0;
  b = at h 1;
  c = at h 2;
  d = at h 3;
  e = at h 4;
  f = at h 5;
  g = at h 6;
  hh = at h 7;
}

compress : List ℕ → List ℕ → List ℕ
unfolding words schedule rounds start
compress h chunk =
    let v = rounds k (schedule 48 (words chunk)) (start h) in
    u32 (at h 0 + v.a)
    ∷ u32 (at h 1 + v.b)
    ∷ u32 (at h 2 + v.c)
    ∷ u32 (at h 3 + v.d)
    ∷ u32 (at h 4 + v.e)
    ∷ u32 (at h 5 + v.f)
    ∷ u32 (at h 6 + v.g)
    ∷ u32 (at h 7 + v.hh)
    ∷ []

-- `for chunk in msg.chunks_exact(64)`; the first argument bounds the number of chunks.
chunks : ℕ → List ℕ → List ℕ → List ℕ
unfolding compress
chunks zero h msg = h
chunks (suc fuel) h msg =
    let rest = chunks fuel (compress h (take 64 msg)) (drop 64 msg) in
    if ltb (length msg) 64 then h else rest

-- `to_be_bytes` of each word
digest : List ℕ → List ℕ
digest [] = []
digest (w ∷ ws) = to_be_bytes 4 w ++ digest ws

unfoldable pub sha256 : List ℕ → List ℕ
unfolding padded chunks digest
sha256 input = let msg = padded input in digest (chunks (length msg) init msg)
