-- ===== src/Core/Aead/RoundTrip.antt =====
-- Opening what was sealed, and the order of the refusals.
use secd.Base.{
  ◌+◌, ◌≤◌, ◌<◌, true, false, ◌≡◌, ◌≢◌, ◌↔◌, none, some, ◌++◌, length, take, drop, All, All-append,
  arith, ltb, ◌==◌, Bool-cases, length-append, take-append, drop-append, Option-cases, inl, inr,
}
use secd.Base.Text.{Str}
use secd.Base.Result.{ok, err}
use secd.Core.Error.{aead, truncated, key}
use secd.Core.Hex.RoundTrip.{IsByte}
use secd.Core.Aead.{Cipher, IsAead, nonce_len, key_len, min_blob, seal_with_nonce, open_blob}

-- The parts of a sealed blob.
pub seal_with_nonce_parts :
    (c : Cipher) (k name msg nonce blob : Str)
    → seal_with_nonce c k name msg nonce ≡ ok blob
    → (length k ≡ key_len)
      × ((ct : Str) × (c.encrypt k nonce msg name ≡ some ct) × (blob ≡ nonce ++ ct))
unfolding seal_with_nonce
seal_with_nonce_parts c k name msg nonce blob h = elim (Bool-cases (length k == key_len)) [
  | inr e ↦ absurd (ground arith)
  | inl e ↦ elim (Option-cases (c.encrypt k nonce msg name)) [
    | inl n ↦ absurd (ground arith)
    | inr (ct, s) ↦ (ground arith, (ct, s, ground arith))
  ]
]

module _ (c : Cipher) (a : IsAead c) where
  pub length-seal_with_nonce :
      (k name msg nonce blob : Str)
      → seal_with_nonce c k name msg nonce ≡ ok blob
      → length blob ≡ length nonce + length msg + 16
  length-seal_with_nonce k name msg nonce blob h =
      let (size, (ct, e, b)) = seal_with_nonce_parts c k name msg nonce blob h in
      rw b (omega (arith, length-append nonce ct, a.length-encrypt k nonce msg name ct e))

  pub seal_with_nonce-IsByte :
      (k name msg nonce blob : Str)
      → All IsByte nonce
      → seal_with_nonce c k name msg nonce ≡ ok blob
      → All IsByte blob
  seal_with_nonce-IsByte k name msg nonce blob bytes h =
      let (size, (ct, e, b)) = seal_with_nonce_parts c k name msg nonce blob h in
      rw b (All-append IsByte nonce ct bytes (a.encrypt-IsByte k nonce msg name ct e))

  -- Opening with the same key and name gives the plaintext back.
  pub open_blob-seal_with_nonce :
      (k name msg nonce blob : Str)
      → length nonce ≡ nonce_len
      → seal_with_nonce c k name msg nonce ≡ ok blob
      → open_blob c k name blob ≡ ok (record { as_bytes = msg })
  unfolding open_blob
  open_blob-seal_with_nonce k name msg nonce blob n h =
      let (size, (ct, e, b)) = seal_with_nonce_parts c k name msg nonce blob h in
      let t : take nonce_len blob ≡ nonce = rw b (take-append nonce_len nonce ct n) in
      let d : drop nonce_len blob ≡ ct = rw b (drop-append nonce_len nonce ct n) in
      let long : ltb (length blob) min_blob ≡ false =
        ground (arith, length-seal_with_nonce k name msg nonce blob h) in
      let good : (length k == key_len) ≡ true = ground arith in
      rw long (rw good (rw (t, d) (rw (a.decrypt-encrypt k nonce msg name ct e))))

-- Which refusal `open` gives, in the order of its tests: a blob of fewer than 25 bytes first, then a
-- key that has not 32 bytes, then whatever the cipher refuses; and it succeeds on no other input.
pub open_blob_errors :
    (c : Cipher) (k name blob : Str)
    → ((open_blob c k name blob ≡ err truncated) ↔ (length blob < 25))
      × ((open_blob c k name blob ≡ err key) ↔ ((25 ≤ length blob) × (length k ≢ 32)))
      × ((open_blob c k name blob ≡ err aead) ↔ (
          (25 ≤ length blob)
          × (length k ≡ 32)
          × (c.decrypt k (take 24 blob) (drop 24 blob) name ≡ none)))
unfolding open_blob
open_blob_errors c k name blob =
    elim (Option-cases (c.decrypt k (take 24 blob) (drop 24 blob) name)) [
      | inl e ↦ ground (arith, e)
      | inr (pt, e) ↦ ground (arith, e)
    ]
