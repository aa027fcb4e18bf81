-- ===== src/Base/Trim.antt =====
-- `str::trim`: Unicode white space at both ends, by its UTF-8 encodings.
use Prim.Native.Nat.{ℕ}
use mathlib.Core.Bool.{Bool, ◌&&◌, ◌||◌}
use mathlib.Core.List.{[], ◌∷◌, reverse}
use secd.Base.Bools.{◌==◌, if◌then◌else◌, between}
use secd.Base.Text.{Str}

abbrev pub is_space : ℕ → Bool
is_space b = between 9 13 b || b == 32

abbrev is_space_pair : ℕ → ℕ → Bool
is_space_pair a b = a == 0xc2 && (b == 0x85 || b == 0xa0)

abbrev is_space_triple : ℕ → ℕ → ℕ → Bool
is_space_triple a b c =
    a == 0xe1 && b == 0x9a && c == 0x80
    || a == 0xe2 && b == 0x80 && (between 0x80 0x8a c || c == 0xa8 || c == 0xa9 || c == 0xaf)
    || a == 0xe2 && b == 0x81 && c == 0x9f
    || a == 0xe3 && b == 0x80 && c == 0x80

unfoldable pub trim_start : Str → Str
trim_start [] = []
trim_start (a ∷ []) = if is_space a then [] else a ∷ []
trim_start (a ∷ b ∷ []) =
    let one = trim_start (b ∷ []) in
    if is_space a then one else if is_space_pair a b then [] else a ∷ b ∷ []
trim_start (a ∷ b ∷ c ∷ s) =
    let one = trim_start (b ∷ c ∷ s) in
    let two = trim_start (c ∷ s) in
    let three = trim_start s in
    if is_space a
    then one
    else if is_space_pair a b
    then two
    else if is_space_triple a b c
    then three
    else a ∷ b ∷ c ∷ s

-- The same over the reversed text, where an encoding is read from its last byte.
unfoldable pub trim_end_reversed : Str → Str
trim_end_reversed [] = []
trim_end_reversed (a ∷ []) = if is_space a then [] else a ∷ []
trim_end_reversed (a ∷ b ∷ []) =
    let one = trim_end_reversed (b ∷ []) in
    if is_space a then one else if is_space_pair b a then [] else a ∷ b ∷ []
trim_end_reversed (a ∷ b ∷ c ∷ s) =
    let one = trim_end_reversed (b ∷ c ∷ s) in
    let two = trim_end_reversed (c ∷ s) in
    let three = trim_end_reversed s in
    if is_space a
    then one
    else if is_space_pair b a
    then two
    else if is_space_triple c b a
    then three
    else a ∷ b ∷ c ∷ s

unfoldable pub trim : Str → Str
unfolding trim_start trim_end_reversed
trim s = trim_start (reverse (trim_end_reversed (reverse s)))
