-- ===== src/Core/Wrap.antt =====
-- crates/secd-core/src/wrap.rs: a data key (DEK) wrapped under a password or a passkey. Argon2id of
-- the crate argon2 is a parameter, and so are the bytes that the random generator returns.
pub mod RoundTrip
pub mod Factors
mod Tests
use secd.Base.{
  ℕ, suc, zero, Bool, true, false, not, ◌≡◌, Option, none, some, List, [], ◌∷◌, length, take, All,
  ltb, leb, ◌==◌, if◌then◌else◌,
}
use secd.Base.Text.{Str, codes}
use secd.Base.Result.{Result, ok, err, ◌>>=◌, ◌>>◌, ok_or}
use secd.Core.Error.{Error, aead, key, last_factor, prf, hex, rng}
use secd.Core.Hex.{to_hex, from_hex}
use secd.Core.Hex.RoundTrip.{IsByte}
use secd.Core.Aead.{Cipher, Secret, seal_with_nonce, seal, open_blob}

pub data Factor : Type 0 where
  passkey password : Factor

abbrev pub dek_len : ℕ
dek_len = 32

abbrev pub kek_len : ℕ
kek_len = 32

abbrev pub salt_len : ℕ
salt_len = 16

abbrev pub argon2_m_kib : ℕ
argon2_m_kib = 19456

abbrev pub argon2_t : ℕ
argon2_t = 2

abbrev pub argon2_p : ℕ
argon2_p = 1

-- `Argon2::hash_password_into` with memory, passes, lanes and output length, then the password and
-- the salt; `none` is an error.
pub record Kdf : Type 0 where
  pub hash_password : ℕ → ℕ → ℕ → ℕ → Str → Str → Option Str

abbrev pub as_str : Factor → Str
as_str passkey = codes "passkey"
as_str password = codes "password"

abbrev pub is_passkey : Factor → Bool
is_passkey passkey = true
is_passkey password = false

pub record Wrap : Type 0 where
  pub factor : Factor
  pub cred_id : Option Str
  pub salt : Option Str
  pub blob : Str

unfoldable pub check_dek : Str → Result Error (Unit {0})
check_dek dek = if not (length dek == dek_len) then err key else ok tt

unfoldable pub prf_kek : Str → Result Error Str
prf_kek p = if ltb (length p) kek_len then err prf else ok (take kek_len p)

module _ (d : Kdf) where
  unfoldable pub derive_password_kek : Str → Str → Result Error Str
  derive_password_kek pw salt =
      ok_or (d.hash_password argon2_m_kib argon2_t argon2_p kek_len pw salt) aead

module _ (c : Cipher) (d : Kdf) where
  -- The first two arguments are what `OsRng` returns for the salt and for the nonce.
  unfoldable pub wrap_password : Option Str → Option Str → Str → Str → Result Error Wrap
  wrap_password random_salt random_nonce dek pw = do
    check_dek dek
    salt ← ok_or random_salt rng
    kek ← derive_password_kek d pw salt
    blob ← seal c random_nonce kek (as_str password) dek
    ok (record { factor = password; cred_id = none; salt = some (to_hex salt); blob = to_hex blob })

  unfoldable pub unwrap_password : Wrap → Str → Result Error Secret
  unwrap_password w pw = if is_passkey w.factor then err Error.factor else do
    salt_hex ← ok_or w.salt Error.factor
    salt ← from_hex salt_hex
    if not (length salt == salt_len) then err hex else do
      kek ← derive_password_kek d pw salt
      blob ← from_hex w.blob
      open_blob c kek (as_str password) blob

  -- `wrap_password_at`: the same with the salt and the nonce given.
  unfoldable pub wrap_password_at : Str → Str → Str → Str → Result Error Wrap
  wrap_password_at dek pw salt nonce = do
    check_dek dek
    kek ← derive_password_kek d pw salt
    blob ← seal_with_nonce c kek (as_str password) dek nonce
    ok (record { factor = password; cred_id = none; salt = some (to_hex salt); blob = to_hex blob })

module _ (c : Cipher) where
  unfoldable pub wrap_passkey : Option Str → Str → Str → Str → Result Error Wrap
  wrap_passkey random_nonce dek p cred_id = do
    check_dek dek
    kek ← prf_kek p
    blob ← seal c random_nonce kek (as_str passkey) dek
    ok (record { factor = passkey; cred_id = some cred_id; salt = none; blob = to_hex blob })

  unfoldable pub unwrap_passkey : Wrap → Str → Result Error Secret
  unwrap_passkey w p =
      if not (is_passkey w.factor)
      then err Error.factor
      else do kek ← prf_kek p; blob ← from_hex w.blob; open_blob c kek (as_str passkey) blob

  unfoldable pub wrap_passkey_at : Str → Str → Str → Str → Result Error Wrap
  wrap_passkey_at dek p cred_id nonce = do
    check_dek dek
    kek ← prf_kek p
    blob ← seal_with_nonce c kek (as_str passkey) dek nonce
    ok (record { factor = passkey; cred_id = some cred_id; salt = none; blob = to_hex blob })

-- `Vec::remove` at an index in range: what is removed, and what stays.
unfoldable pub remove_at : List Wrap → ℕ → Option (Wrap × List Wrap)
remove_at [] i = none
remove_at (w ∷ ws) zero = some (w, ws)
remove_at (w ∷ ws) (suc i) = elim (remove_at ws i) [
  | none ↦ none
  | some (x, rest) ↦ some (x, w ∷ rest)
]

-- `none` of `remove_at` would be the panic that the index test excludes.
unfoldable pub remove_wrap : List Wrap → ℕ → Result Error (Wrap × List Wrap)
unfolding remove_at
remove_wrap wraps index =
    if leb (length wraps) 1
    then err last_factor
    else if leb (length wraps) index
    then err Error.factor
    else ok_or (remove_at wraps index) Error.factor
