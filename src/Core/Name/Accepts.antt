-- ===== src/Core/Name/Accepts.antt =====
-- `check_name` decides the documented language, and joining accepted names is accepted.
use secd.Base.{
  ℕ, ◌≤◌, true, false, ◌≡◌, refl, ◌↔◌, inl, inr, List, [], ◌∷◌, ◌++◌, length, all, arith, ◌==◌,
  Bool-cases,
}
use secd.Base.Text.{Str, codes, is_empty, starts_with, contains, split, ends_with_byte}
use secd.Base.Contains.{contains-append, place_of_contains}
use secd.Base.Result.{ok}
use secd.Core.Name.{is_name_byte, segment_ok, check_segments, check_name}
use secd.Core.Name.Grammar.{
  Matches, last, more, slash, segments_ok, Matches-segments_ok, segments_ok-Matches,
}

check_segments-all : (ws : List Str) → (check_segments ws ≡ ok tt) ↔ (all segment_ok ws ≡ true)
unfolding check_segments
check_segments-all [] = ((λ _. refl), λ _. refl)
check_segments-all (w ∷ ws) = ground (arith, check_segments-all ws)

name_byte_ne_slash : (b : ℕ) → is_name_byte b ≡ true → (b == b'/') ≡ false
unfolding is_name_byte
name_byte_ne_slash b h = ground arith

-- A text of the grammar is not empty and has no slash at either end.
starts_of_Matches :
    {s : Str} → Matches s → (is_empty s ≡ false) × (starts_with (codes "/") s ≡ false)
unfolding starts_with
starts_of_Matches (last b h) = (refl, ground (arith, name_byte_ne_slash b h))
starts_of_Matches (more b h m) = (refl, ground (arith, name_byte_ne_slash b h))
starts_of_Matches (slash b c h e m) = (refl, ground (arith, name_byte_ne_slash b h))

ends_with_byte-cons :
    (c b : ℕ) (s : Str) → is_empty s ≡ false → ends_with_byte c (b ∷ s) ≡ ends_with_byte c s
ends_with_byte-cons c b [] h = absurd (cc)
ends_with_byte-cons c b (x ∷ s) h = refl

ends_of_Matches : {s : Str} → Matches s → ends_with_byte b'/' s ≡ false
ends_of_Matches (last b h) = name_byte_ne_slash b h
ends_of_Matches (more b {s} h m) =
    rw (ends_with_byte-cons b'/' b s (starts_of_Matches m).0) (ends_of_Matches m)
ends_of_Matches (slash b c {s} h e m) =
    rw (ends_with_byte-cons b'/' c s (starts_of_Matches m).0) (ends_of_Matches m)

-- What an accepted name is, independently of how it is checked.
pub record IsName (s : Str) : Type 0 where
  pub matches : Matches s
  pub bounded : length s ≤ 256
  pub no_dot_dot : (l r : Str) → s ≡ l ++ (codes ".." ++ r) → ⊥

no_dot_dot_of_contains :
    (s : Str) → contains (codes "..") s ≡ false → (l r : Str) → s ≡ l ++ (codes ".." ++ r) → ⊥
no_dot_dot_of_contains s h l r e =
    let k : contains (codes "..") s ≡ true = rw e (contains-append (codes "..") l r) in cc

contains_of_no_dot_dot :
    (s : Str) → ((l r : Str) → s ≡ l ++ (codes ".." ++ r) → ⊥) → contains (codes "..") s ≡ false
contains_of_no_dot_dot s h = elim (Bool-cases (contains (codes "..") s)) [
  | inl e ↦ let (l, r, q) = place_of_contains (codes "..") s e in absurd (h l r q)
  | inr e ↦ e
]

check_name_sound : (s : Str) → check_name s ≡ ok tt → IsName s
unfolding check_name segments_ok
check_name_sound s h = record {
  matches = segments_ok-Matches s ((check_segments-all (split b'/' s)).0 (ground arith));
  bounded = ground arith;
  no_dot_dot = no_dot_dot_of_contains s (ground arith);
}

check_name_complete : (s : Str) → IsName s → check_name s ≡ ok tt
unfolding check_name segments_ok
check_name_complete s n = ground (
  arith,
  starts_of_Matches n.matches,
  ends_of_Matches n.matches,
  contains_of_no_dot_dot s n.no_dot_dot,
  (check_segments-all (split b'/' s)).1 (Matches-segments_ok n.matches),
)

-- `check_name` accepts exactly the texts of 1 to 256 bytes that match
-- `[A-Za-z0-9._@-]+(?:/[A-Za-z0-9._@-]+)*` and hold no `..` anywhere.
pub check_name_iff : (s : Str) → (check_name s ≡ ok tt) ↔ IsName s
check_name_iff s = (check_name_sound s, check_name_complete s)
