-- ===== src/Core/Wrap/Tests.antt =====
-- Runs of the seal and wrap functions over a toy cipher, and the theorems at them.
use secd.Base.{◌≡◌, refl, none, some, [], ◌∷◌, ◌++◌, take, replicate, arith}
use secd.Base.Text.{Str, codes}
use secd.Base.Result.{ok, err}
use secd.Core.Error.{Error}
use secd.Core.Hex.{hex_digit, to_hex, hex_val, from_pairs, from_hex}
use secd.Core.Aead.{seal_with_nonce, cipher, seal, open_blob}
use secd.Core.Aead.Toy.{toy, toy-IsAead}
use secd.Core.Wrap.{
  Wrap, Kdf, passkey, password, wrap_password, unwrap_password, wrap_passkey, unwrap_passkey,
  check_dek, prf_kek, derive_password_kek, remove_at, remove_wrap,
}
use secd.Core.Wrap.RoundTrip.{unwrap_password-wrap_password}

-- A derivation that pads the password with zeros.
abbrev toy_kdf : Kdf
toy_kdf = record { hash_password = λ m t p n pw salt. some (take n (pw ++ replicate n 0)) }

abbrev dek : Str
dek = replicate 32 7

abbrev prf_output : Str
prf_output = replicate 32 0x5c

abbrev nonce_bytes : Str
nonce_bytes = replicate 24 1

abbrev salt_bytes : Str
salt_bytes = replicate 16 0xab

runs : Unit {0}
unfolding wrap_password unwrap_password wrap_passkey unwrap_passkey check_dek prf_kek seal
    derive_password_kek seal_with_nonce cipher open_blob to_hex hex_digit from_hex from_pairs
    hex_val remove_wrap remove_at
runs = tt

hex_tests :
    (to_hex (0 ∷ 0x9f ∷ 255 ∷ []) ≡ codes "009fff")
    × (from_hex (codes "009FfF") ≡ ok (0 ∷ 0x9f ∷ 255 ∷ []))
    × (from_hex (codes "00f") ≡ err Error.hex)
    × (from_hex (codes "0g") ≡ err Error.hex)
unfolding runs
hex_tests = (refl, refl, refl, refl)

abbrev passkey_row : Wrap
passkey_row = record {
  factor = passkey;
  cred_id = some (codes "cred-1");
  salt = none;
  blob =
      codes
        "010101010101010101010101010101010101010101010101070707070707070707070707070707070707070707070707070707070707070700000000000000000000000000000000";
}

abbrev password_row : Wrap
password_row = record passkey_row {
  factor = password;
  cred_id = none;
  salt = some (codes "abababababababababababababababab");
}

unwrap_password-wrap_password_example :
    unwrap_password toy toy_kdf password_row (codes "twelve chars.")
    ≡ ok (record { as_bytes = dek })
unfolding runs
unwrap_password-wrap_password_example =
    unwrap_password-wrap_password toy toy-IsAead toy_kdf dek (codes "twelve chars.") salt_bytes
      nonce_bytes password_row (refl, omega arith) (refl, omega arith) refl
