-- ===== src/Core/Wrap/RoundTrip.antt =====
-- Unwrapping gives back the data key that was wrapped.
use secd.Base.{ℕ, true, ◌≡◌, some, length, All, arith, ◌==◌}
use secd.Base.Text.{Str}
use secd.Base.Result.{ok, ◌>>=◌, ok-bind, ok-injective}
use secd.Core.Hex.{to_hex, from_hex}
use secd.Core.Hex.RoundTrip.{IsByte, from_hex-to_hex}
use secd.Core.Aead.{Cipher, IsAead, nonce_len, seal_with_nonce, seal, open_blob}
use secd.Core.Aead.RoundTrip.{open_blob-seal_with_nonce, seal_with_nonce-IsByte}
use secd.Core.Wrap.{
  Wrap, Kdf, salt_len, as_str, passkey, password, wrap_password, unwrap_password, wrap_passkey,
  unwrap_passkey, wrap_password_at, wrap_passkey_at, check_dek, prf_kek, derive_password_kek,
}

-- What the random generator returned: bytes, as many as were asked for.
abbrev pub IsRandom : ℕ → Str → Type 0
IsRandom n r = (length r ≡ n) × All IsByte r

module _ (c : Cipher) (a : IsAead c) where
  -- A sealed data key, through the hexadecimal text of a wrap row.
  open-seal_hex :
      (kek name dek nonce blob : Str)
      → IsRandom nonce_len nonce
      → seal_with_nonce c kek name dek nonce ≡ ok blob
      → (from_hex (to_hex blob) >>= λ b. open_blob c kek name b) ≡ ok (record { as_bytes = dek })
  open-seal_hex kek name dek nonce blob (n, bytes) h =
      rw (from_hex-to_hex blob (seal_with_nonce-IsByte c a kek name dek nonce blob bytes h))
        (open_blob-seal_with_nonce c a kek name dek nonce blob n h)

  unwrap_passkey-wrap_passkey_at :
      (dek p id nonce : Str) (w : Wrap)
      → IsRandom nonce_len nonce
      → wrap_passkey_at c dek p id nonce ≡ ok w
      → unwrap_passkey c w p ≡ ok (record { as_bytes = dek })
  unfolding wrap_passkey_at unwrap_passkey
  unwrap_passkey-wrap_passkey_at dek p id nonce w r h =
      let (_, checked, h₁) = ok-bind (check_dek dek) _ h in
      let (kek, derived, h₂) = ok-bind (prf_kek p) _ h₁ in
      let (blob, sealed, h₃) = ok-bind (seal_with_nonce c kek (as_str passkey) dek nonce) _ h₂ in
      rw (ok-injective h₃) (rw derived (open-seal_hex kek (as_str passkey) dek nonce blob r sealed))

  -- A data key wrapped under a passkey's PRF output comes back from the wrap row under the same PRF
  -- output, whatever 24 bytes the random generator gave for the nonce.
  pub unwrap_passkey-wrap_passkey :
      (dek p id nonce : Str) (w : Wrap)
      → IsRandom nonce_len nonce
      → wrap_passkey c (some nonce) dek p id ≡ ok w
      → unwrap_passkey c w p ≡ ok (record { as_bytes = dek })
  unfolding wrap_passkey seal
  unwrap_passkey-wrap_passkey dek p id nonce w r h =
      unwrap_passkey-wrap_passkey_at dek p id nonce w r (unfold wrap_passkey_at in h)

  module _ (d : Kdf) where
    unwrap_password-wrap_password_at :
        (dek pw salt nonce : Str) (w : Wrap)
        → IsRandom salt_len salt
        → IsRandom nonce_len nonce
        → wrap_password_at c d dek pw salt nonce ≡ ok w
        → unwrap_password c d w pw ≡ ok (record { as_bytes = dek })
    unfolding wrap_password_at unwrap_password
    unwrap_password-wrap_password_at dek pw salt nonce w rs rn h =
        let (_, checked, h₁) = ok-bind (check_dek dek) _ h in
        let (kek, derived, h₂) = ok-bind (derive_password_kek d pw salt) _ h₁ in
        let (blob, sealed, h₃) = ok-bind (seal_with_nonce c kek (as_str password) dek nonce) _ h₂ in
        let sized : (length salt == salt_len) ≡ true = ground (arith, rs.0) in
        rw (ok-injective h₃) (
          rw (from_hex-to_hex salt rs.1)
            (rw sized (rw derived (open-seal_hex kek (as_str password) dek nonce blob rn sealed))))

    -- A data key wrapped under a password comes back from the wrap row under the same password,
    -- whatever salt and nonce the random generator gave.
    pub unwrap_password-wrap_password :
        (dek pw salt nonce : Str) (w : Wrap)
        → IsRandom salt_len salt
        → IsRandom nonce_len nonce
        → wrap_password c d (some salt) (some nonce) dek pw ≡ ok w
        → unwrap_password c d w pw ≡ ok (record { as_bytes = dek })
    unfolding wrap_password seal
    unwrap_password-wrap_password dek pw salt nonce w rs rn h =
        unwrap_password-wrap_password_at dek pw salt nonce w rs rn (unfold wrap_password_at in h)
