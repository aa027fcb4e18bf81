-- ===== src/Core/NameError.antt =====
-- `NameError` of crates/secd-core/src/name.rs and its texts, in a module of its own for its constructor
-- `length`.
use secd.Base.Text.{Str, codes}

pub data NameError : Type 0 where
  empty length slash dot_dot bad_char : NameError

unfoldable pub name_error_text : NameError → Str
name_error_text empty = codes "empty name"
name_error_text length = codes "name must be 1..=256 bytes"
name_error_text slash = codes "name must not start or end with /"
name_error_text dot_dot = codes "name must not contain .."
name_error_text bad_char = codes "name has a character outside [A-Za-z0-9._@-/]"
