-- ===== src/Core/Error.antt =====
-- crates/secd-core/src/lib.rs: the crate's error type and its texts.
use secd.Base.Text.{Str, codes}

pub data Error : Type 0 where
  aead truncated key last_factor prf hex rng factor : Error

unfoldable pub error_text : Error → Str
error_text aead = codes "authentication failed"
error_text truncated = codes "blob shorter than 25 bytes"
error_text key = codes "key must be 32 bytes"
error_text last_factor = codes "cannot remove the last factor"
error_text prf = codes "PRF must be at least 32 bytes"
error_text hex = codes "invalid hex"
error_text rng = codes "rng failed"
error_text factor = codes "wrap factor mismatch"
