-- ===== src/Base/Utf8.antt =====
-- UTF-8 as the standard library of Rust has it: `char::encode_utf8`, `str::chars`, `str::from_utf8`,
-- `String::push` and `String::pop`. A `char` is its number, a text the list of its bytes.
pub mod Reading
pub mod RoundTrip
use Prim.Native.Nat.{ℕ, zero, suc, ◌+◌, ◌-◌, ◌*◌, ◌/◌, ◌%◌, ◌<◌, ◌≤◌}
use mathlib.Core.Logic.{◌⊎◌}
use mathlib.Core.Bool.{Bool, true, false}
use mathlib.Core.Option.{Option, none, some}
use mathlib.Core.List.{List, [], ◌∷◌, ◌++◌, reverse}
use secd.Base.Bools.{ltb, ◌==◌, if◌then◌else◌, between}
use secd.Base.Text.{Str}

-- A Unicode scalar value: every code point but the surrogates.
abbrev pub IsScalar : ℕ → Type 0
IsScalar c = (c < 0xd800) ⊎ ((0xe000 ≤ c) × (c < 0x110000))

unfoldable pub encode_char : ℕ → Str
encode_char c =
    if ltb c 0x80
    then c ∷ []
    else if ltb c 0x800
    then (0xc0 + c / 64) ∷ (0x80 + c % 64) ∷ []
    else if ltb c 0x10000
    then (0xe0 + c / 4096) ∷ (0x80 + c / 64 % 64) ∷ (0x80 + c % 64) ∷ []
    else (0xf0 + c / 262144) ∷ (0x80 + c / 4096 % 64) ∷ (0x80 + c / 64 % 64) ∷ (0x80 + c % 64) ∷ []

-- `iter().collect::<String>()`
unfoldable pub collect : List ℕ → Str
collect [] = []
collect (c ∷ cs) = encode_char c ++ collect cs

-- Where a reader stands: before a character, or behind the bytes that gave `acc`, with `more` bytes to
-- come after the next, which lies in a range.
pub data Reader : Type 0 where
  ready : Reader
  within : (more acc lo hi : ℕ) → Reader
  refused : Reader

-- What the first byte of a character says: the well-formed sequences of the standard's table.
unfoldable pub lead : ℕ → Reader
lead b =
    if between 0xc2 0xdf b
    then within 0 (b - 0xc0) 0x80 0xbf
    else if b == 0xe0
    then within 1 0 0xa0 0xbf
    else if b == 0xed
    then within 1 0xd 0x80 0x9f
    else if between 0xe1 0xef b
    then within 1 (b - 0xe0) 0x80 0xbf
    else if b == 0xf0
    then within 2 0 0x90 0xbf
    else if between 0xf1 0xf3 b
    then within 2 (b - 0xf0) 0x80 0xbf
    else if b == 0xf4
    then within 2 4 0x80 0x8f
    else refused

abbrev pub then_char : ℕ → Option (List ℕ) → Option (List ℕ)
then_char c none = none
then_char c (some cs) = some (c ∷ cs)

unfoldable pub read : Reader → Str → Option (List ℕ)
unfolding lead
read ready [] = some []
read (within _ _ _ _) [] = none
read refused s = none
read ready (b ∷ s) = elim (ltb b 0x80) [
  | true ↦ then_char b (read ready s)
  | false ↦ read (lead b) s
]
read (within zero acc lo hi) (b ∷ s) = elim (between lo hi b) [
  | true ↦ then_char (acc * 64 + (b - 0x80)) (read ready s)
  | false ↦ none
]
read (within (suc n) acc lo hi) (b ∷ s) = elim (between lo hi b) [
  | true ↦ read (within n (acc * 64 + (b - 0x80)) 0x80 0xbf) s
  | false ↦ none
]

-- The characters of a byte sequence, if it is well-formed.
unfoldable pub decode : Str → Option (List ℕ)
unfolding read
decode s = read ready s

abbrev keep_bytes : Str → Option (List ℕ) → Option Str
keep_bytes s none = none
keep_bytes s (some _) = some s

-- `std::str::from_utf8(bytes).ok()`
unfoldable pub from_utf8 : Str → Option Str
unfolding decode
from_utf8 bytes = keep_bytes bytes (decode bytes)

abbrev or_nothing : Option (List ℕ) → List ℕ
or_nothing none = []
or_nothing (some cs) = cs

-- `s.chars().collect::<Vec<char>>()`; a `str` is well-formed.
unfoldable pub chars : Str → List ℕ
unfolding decode
chars s = or_nothing (decode s)

-- `s.push(c)`
unfoldable pub push_char : Str → ℕ → Str
unfolding encode_char
push_char s c = s ++ encode_char c

unfoldable pub drop_char : Str → Str
drop_char [] = []
drop_char (b ∷ s) = let rest = drop_char s in if between 0x80 0xbf b then rest else s

-- `s.pop()`: the last byte that continues no character goes, and all behind it.
unfoldable pub pop_char : Str → Str
unfolding drop_char
pop_char s = reverse (drop_char (reverse s))
