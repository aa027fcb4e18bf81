-- ===== src/Server/Decode.antt =====
-- `decode_bytes` of crates/secd-web/src/auth.rs. The decoders of the crates hex and base64 are
-- parameters.
use secd.Base.{
  ℕ, ◌%◌, Bool, ◌&&◌, ◌||◌, Option, none, some, List, length, all, ◌==◌, between, if◌then◌else◌,
}
use secd.Base.Text.{Str, is_empty}
use secd.Base.Trim.{trim}

pub record Decoders : Type 0 where
  pub hex_decode : Str → Option (List ℕ)
  pub url_safe_no_pad : Str → Option (List ℕ)
  pub url_safe : Str → Option (List ℕ)
  pub standard : Str → Option (List ℕ)

abbrev pub is_ascii_hexdigit : ℕ → Bool
is_ascii_hexdigit b = between b'0' b'9' b || (between b'a' b'f' b || between b'A' b'F' b)

abbrev first_of : Option (List ℕ) → Option (List ℕ) → Option (List ℕ)
first_of (some v) rest = some v
first_of none rest = rest

unfoldable pub decode_bytes : Decoders → Str → Option (List ℕ)
decode_bytes dec raw =
    let s = trim raw in
    let base64 = first_of (dec.url_safe_no_pad s) (first_of (dec.url_safe s) (dec.standard s)) in
    if is_empty s
    then none
    else if length s % 2 == 0 && all is_ascii_hexdigit s
    then first_of (dec.hex_decode s) base64
    else base64
