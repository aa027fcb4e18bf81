-- ===== src/Server/Sample.antt =====
-- Encoders, tables and clocks that the tests of the server share.
use secd.Base.{ℕ, ◌/◌, ◌%◌, ◌<◌, true, ◌≡◌, refl, none, some, List, [], ◌∷◌, ◌++◌, map, arith}
use secd.Base.Text.{Str, is_lower_hex}
use secd.Core.Hex.{hex_digit, to_hex}
use secd.Core.Hex.RoundTrip.{below, every_below, every_below_at}
use secd.Server.Db.{Tables, Conn, M}
use secd.Server.Db.Atomic.{Gives}
use secd.Server.Audit.{Encoders}
use secd.Server.Audit.Tamper.{IsHex}

abbrev quoted : List Str → Str
quoted [] = []
quoted (n ∷ []) = b'"' ∷ n ++ b'"' ∷ []
quoted (n ∷ m ∷ ns) = b'"' ∷ n ++ b'"' ∷ b',' ∷ quoted (m ∷ ns)

-- Names without characters that JSON escapes, and bytes.
abbrev pub sample_encoders : Encoders
sample_encoders = record {
  hex_encode = λ bytes. to_hex (map (λ b. b % 256) bytes);
  names_json = λ names. b'[' ∷ quoted names ++ b']' ∷ [];
}

hex_digit_table : every_below 16 (λ i. is_lower_hex (hex_digit i)) ≡ true
unfolding below hex_digit
hex_digit_table = refl

hex_digit_lower : (i : ℕ) → i < 16 → is_lower_hex (hex_digit i) ≡ true
hex_digit_lower i h = every_below_at 16 (λ i. is_lower_hex (hex_digit i)) i hex_digit_table h

pub sample_encoders-IsHex : IsHex sample_encoders
unfolding to_hex
sample_encoders-IsHex [] = refl
sample_encoders-IsHex (b ∷ bytes) =
    rw (hex_digit_lower (b % 256 / 16) (omega arith), hex_digit_lower (b % 256 % 16) (omega arith))
      (sample_encoders-IsHex bytes)

abbrev pub no_tables : Tables
no_tables = record {
  entries = [];
  versions = [];
  wraps = [];
  custom_providers = [];
  audit = [];
  sessions = [];
}

-- A connection whose statements are all taken.
abbrev pub conn_of : Tables → Conn
conn_of t = record { tables = t; open_from = none; faults = [] }

-- A run on such a connection that returned a value.
pub run-Gives :
    {A : Type 0} (m : M A) (t : Tables) (a : A)
    → (m (conn_of t)).0 ≡ some a
    → Gives m t a (m (conn_of t)).1.tables
run-Gives m t a e = record {
  before = conn_of t;
  after = (m (conn_of t)).1;
  starts = refl;
  runs = λ i. (e i, (m (conn_of t)).1);
  ends = refl;
}
