-- ===== src/Base/Text.antt =====
-- A Rust `str` is its UTF-8 bytes. Every method below is exact on valid UTF-8: the separators that
-- the program searches for are ASCII, and `trim` knows the encodings of Unicode's white space.
use Prim.Native.Nat.{ℕ, ◌+◌}
use Prim.Native.Char.{code}
use Prim.Native.String.{String}
use mathlib.Core.Path.{◌≡◌, refl}
use mathlib.Core.Logic.{◌↔◌}
use mathlib.Core.Bool.{Bool, true, false, ◌&&◌, ◌||◌}
use mathlib.Core.Option.{Option, none, some}
use mathlib.Core.List.{List, [], ◌∷◌}
use native.Mathlib.Omega.{arith}
use secd.Base.Bools.{◌==◌, if◌then◌else◌, between}

abbrev pub Str : Type 0
Str = List ℕ

-- The bytes of an ASCII literal.
abbrev pub codes : String → Str
codes String.[] = []
codes (String.◌∷◌ c s) = code c ∷ codes s

unfoldable pub str_eq : Str → Str → Bool
str_eq [] [] = true
str_eq [] (_ ∷ _) = false
str_eq (_ ∷ _) [] = false
str_eq (a ∷ s) (b ∷ t) = a == b && str_eq s t

pub str_eq_iff : (s t : Str) → (str_eq s t ≡ true) ↔ (s ≡ t)
unfolding str_eq
str_eq_iff [] [] = ((λ _. refl), λ _. refl)
str_eq_iff [] (b ∷ t) = ((λ h. cc), λ h. cc)
str_eq_iff (a ∷ s) [] = ((λ h. cc), λ h. cc)
str_eq_iff (a ∷ s) (b ∷ t) = ground (arith, str_eq_iff s t)

pub str_eq_refl : (s : Str) → str_eq s s ≡ true
str_eq_refl s = (str_eq_iff s s).1 refl

pub str_eq_comm : (s t : Str) → str_eq s t ≡ str_eq t s
unfolding str_eq
str_eq_comm [] [] = refl
str_eq_comm [] (b ∷ t) = refl
str_eq_comm (a ∷ s) [] = refl
str_eq_comm (a ∷ s) (b ∷ t) = ground (arith, str_eq_comm s t)

abbrev pub is_empty {ℓ} : {A : Type ℓ} → List A → Bool
is_empty [] = true
is_empty (_ ∷ _) = false

-- `s.strip_prefix(p)`
unfoldable pub strip_prefix : Str → Str → Option Str
strip_prefix [] s = some s
strip_prefix (_ ∷ _) [] = none
strip_prefix (a ∷ p) (b ∷ s) = if a == b then strip_prefix p s else none

-- `s.starts_with(p)`
unfoldable pub starts_with : Str → Str → Bool
starts_with [] s = true
starts_with (_ ∷ _) [] = false
starts_with (a ∷ p) (b ∷ s) = a == b && starts_with p s

-- `s.contains(p)`
unfoldable pub contains : Str → Str → Bool
unfolding starts_with
contains p [] = starts_with p []
contains p (b ∷ s) = starts_with p (b ∷ s) || contains p s

abbrev pub ends_with_byte : ℕ → Str → Bool
ends_with_byte c [] = false
ends_with_byte c (b ∷ []) = b == c
ends_with_byte c (_ ∷ b ∷ s) = ends_with_byte c (b ∷ s)

-- Puts a byte in front of the first piece.
abbrev pub push_head : ℕ → List Str → List Str
push_head b [] = (b ∷ []) ∷ []
push_head b (w ∷ ws) = (b ∷ w) ∷ ws

-- `s.split(c)` for an ASCII `c`: always at least one piece.
unfoldable pub split : ℕ → Str → List Str
split c [] = [] ∷ []
split c (b ∷ s) = let rest = split c s in if b == c then [] ∷ rest else push_head b rest

abbrev pub cons_fst : ℕ → Option (Str × Str) → Option (Str × Str)
cons_fst b none = none
cons_fst b (some (l, r)) = some (b ∷ l, r)

-- `s.split_once(c)`
unfoldable pub split_once : ℕ → Str → Option (Str × Str)
split_once c [] = none
split_once c (b ∷ s) = let rest = split_once c s in if b == c then some ([], s) else cons_fst b rest

abbrev or_here : ℕ → ℕ → Str → Option (Str × Str) → Option (Str × Str)
or_here c b s (some (l, r)) = some (b ∷ l, r)
or_here c b s none = if b == c then some ([], s) else none

-- `s.rsplit_once(c)`
unfoldable pub rsplit_once : ℕ → Str → Option (Str × Str)
rsplit_once c [] = none
rsplit_once c (b ∷ s) = or_here c b s (rsplit_once c s)

-- `b.is_ascii_digit() || (b'a'..=b'f').contains(&b)`
abbrev pub is_lower_hex : ℕ → Bool
is_lower_hex b = between b'0' b'9' b || between b'a' b'f' b

abbrev pub lower_byte : ℕ → ℕ
lower_byte b = if between b'A' b'Z' b then b + 32 else b
