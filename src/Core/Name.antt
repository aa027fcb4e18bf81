-- ===== src/Core/Name.antt =====
-- crates/secd-core/src/name.rs: which secret names are accepted.
pub mod Grammar
pub mod Accepts
mod Tests
use secd.Base.{
  ℕ, Bool, not, ◌&&◌, ◌||◌, List, [], ◌∷◌, length, all, ltb, between, ◌==◌, if◌then◌else◌,
}
use secd.Base.Text.{Str, codes, is_empty, starts_with, contains, split, ends_with_byte}
use secd.Base.Result.{Result, ok, err}
use secd.Core.NameError.{NameError, empty, slash, dot_dot, bad_char}

unfoldable pub is_name_byte : ℕ → Bool
is_name_byte b =
    between b'A' b'Z' b
    || between b'a' b'z' b
    || between b'0' b'9' b
    || b == b'.'
    || b == b'_'
    || b == b'@'
    || b == b'-'

-- One round of the loop over `name.split('/')` returns early where this is false.
abbrev pub segment_ok : Str → Bool
segment_ok seg = not (is_empty seg) && all is_name_byte seg

unfoldable pub check_segments : List Str → Result NameError (Unit {0})
check_segments [] = ok tt
check_segments (seg ∷ segs) =
    let rest = check_segments segs in
    if is_empty seg || not (all is_name_byte seg) then err bad_char else rest

unfoldable pub check_name : Str → Result NameError (Unit {0})
unfolding check_segments is_name_byte
check_name name =
    if is_empty name
    then err empty
    else if ltb 256 (length name)
    then err NameError.length
    else if starts_with (codes "/") name || ends_with_byte b'/' name
    then err slash
    else if contains (codes "..") name
    then err dot_dot
    else check_segments (split b'/' name)
