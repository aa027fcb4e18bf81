-- ===== src/Core/Aead.antt =====
-- crates/secd-core/src/aead.rs and the carrier of crates/secd-core/src/secret.rs. The cipher of the
-- crate chacha20poly1305 is a parameter, and so is what the random generator returns.
pub mod RoundTrip
pub mod Toy
use secd.Base.{
  ℕ, ◌+◌, ◌≡◌, not, Option, none, some, ◌++◌, length, take, drop, All, ltb, ◌==◌, if◌then◌else◌,
}
use secd.Base.Text.{Str}
use secd.Base.Result.{Result, ok, err, ◌>>=◌, ok_or}
use secd.Core.Error.{Error, aead, truncated, key, rng}
use secd.Core.Hex.RoundTrip.{IsByte}

-- `XChaCha20Poly1305` under a key: `encrypt nonce msg aad`, `decrypt nonce msg aad`; `none` is an error.
pub record Cipher : Type 0 where
  pub encrypt : Str → Str → Str → Str → Option Str
  pub decrypt : Str → Str → Str → Str → Option Str

-- What the crate documents: decryption inverts encryption under the same key, nonce and associated
-- data, and the ciphertext is the message and a tag of 16 bytes.
pub record IsAead (c : Cipher) : Type 0 where
  pub decrypt-encrypt :
      (k nonce msg aad ct : Str)
      → c.encrypt k nonce msg aad ≡ some ct
      → c.decrypt k nonce ct aad ≡ some msg
  pub length-encrypt :
      (k nonce msg aad ct : Str) → c.encrypt k nonce msg aad ≡ some ct → length ct ≡ length msg + 16
  pub encrypt-IsByte :
      (k nonce msg aad ct : Str) → c.encrypt k nonce msg aad ≡ some ct → All IsByte ct

-- The bytes of a `Secret`; locking and wiping its pages has no effect on them.
pub record Secret : Type 0 where
  pub as_bytes : Str

abbrev pub nonce_len : ℕ
nonce_len = 24

abbrev pub key_len : ℕ
key_len = 32

abbrev pub min_blob : ℕ
min_blob = nonce_len + 1

module _ (c : Cipher) where
  -- `cipher(key)?`: the length test; `new_from_slice` accepts every key of 32 bytes.
  unfoldable pub cipher : Str → Result Error Str
  cipher k = if not (length k == key_len) then err key else ok k

  unfoldable pub seal_with_nonce : Str → Str → Str → Str → Result Error Str
  unfolding cipher
  seal_with_nonce k name plaintext nonce = do
    k' ← cipher k
    ct ← ok_or (c.encrypt k' nonce plaintext name) aead
    ok (nonce ++ ct)

  -- The first argument is the 24 bytes that `OsRng` returns, or `none` where it fails.
  unfoldable pub seal : Option Str → Str → Str → Str → Result Error Str
  unfolding seal_with_nonce
  seal random k name plaintext = do nonce ← ok_or random rng; seal_with_nonce k name plaintext nonce

  -- `open`; the message is `&blob[NONCE_LEN..]`.
  unfoldable pub open_blob : Str → Str → Str → Result Error Secret
  unfolding cipher
  open_blob k name blob = if ltb (length blob) min_blob then err truncated else do
    k' ← cipher k
    pt ← ok_or (c.decrypt k' (take nonce_len blob) (drop nonce_len blob) name) aead
    ok (record { as_bytes = pt })
