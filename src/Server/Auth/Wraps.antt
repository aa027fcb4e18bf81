-- ===== src/Server/Auth/Wraps.antt =====
-- The wraps that `parse_client_wrap` takes decode, with the lengths that the key wrapping expects.
use secd.Base.{
  ℕ, ◌*◌, ◌%◌, Bool, true, false, not, ◌||◌, ◌≡◌, refl, sym, ap, ◌∙◌, ◌⊎◌, inl, inr, Option, none,
  some, List, [], ◌∷◌, length, all, if◌then◌else◌, arith, Bool-cases, subst, ◌==◌, ==_iff, and_true,
}
use secd.Base.Text.{Str, codes, str_eq, str_eq_iff, is_empty, is_lower_hex}
use secd.Base.Result.{Result, ok, err, ok-injective}
use secd.Base.Json.{
  Value, null, bool, number, string, array, object, Members, get, as_str, unwrap_or,
}
use secd.Core.Hex.{from_hex}
use secd.Core.Hex.Accepts.{is_hex, from_hex_accepts_iff, from_hex_sound}
use secd.Server.Auth.{
  StoredWrap, WrapErr, bad, lower_hex, has_some, password_wrap, passkey_wrap, wrap_of,
  parse_client_wrap,
}

-- The text decodes to that many bytes.
abbrev pub DecodesTo : ℕ → Str → Type 0
DecodesTo n s = (bytes : List ℕ) × (from_hex s ≡ ok bytes) × (length bytes ≡ n)

lower-hex : (s : Str) → all is_lower_hex s ≡ true → all is_hex s ≡ true
lower-hex [] h = refl
lower-hex (b ∷ s) h =
    let (x, y) = (and_true (is_lower_hex b) (all is_lower_hex s)).0 h in
    (and_true (is_hex b) (all is_hex s)).1 (ground arith, lower-hex s y)

decodes : (n : ℕ) (s : Str) → length s ≡ 2 * n → lower_hex s ≡ true → DecodesTo n s
decodes n s len hex =
    let (_, low) = (and_true (not (is_empty s)) (all is_lower_hex s)).0 hex in
    let (bytes, e) = (from_hex_accepts_iff s).1 (omega arith, lower-hex s low) in
    let d = from_hex_sound s bytes e in (bytes, e, omega (arith, d.1))

-- A guard that an accepted wrap has passed.
past :
    (b : Bool) (r : Result WrapErr StoredWrap) {w : StoredWrap}
    → (if b then err bad else r) ≡ ok w
    → (b ≡ false) × (r ≡ ok w)
past true r h = absurd (cc)
past false r h = (refl, h)

-- The two shapes of a wrap.
abbrev pub IsPasswordWrap : StoredWrap → Type 0
IsPasswordWrap w =
    (salt : Str) × (w.factor ≡ codes "password")
    × (w.salt ≡ some salt)
    × DecodesTo 16 salt
    × (w.cred_id ≡ none)

abbrev pub IsPasskeyWrap : StoredWrap → Type 0
IsPasskeyWrap w =
    (cred_id : Str) × (w.factor ≡ codes "passkey")
    × (w.cred_id ≡ some cred_id)
    × (lower_hex cred_id ≡ true)
    × (w.salt ≡ none)

password_wrap_sound :
    (blob : Str) (salt cred_id : Option Str) (w : StoredWrap)
    → password_wrap blob salt cred_id ≡ ok w
    → IsPasswordWrap w × (w.blob ≡ blob)
password_wrap_sound blob none cred_id w h = absurd (cc)
password_wrap_sound blob (some salt) cred_id w h =
    let (guards, e) =
      past (not (length salt == 32) || (not (lower_hex salt) || has_some cred_id)) _ h in
    let same = ok-injective e in
    let len : length salt ≡ 2 * 16 = ground (arith, ==_iff (length salt) 32) in
    let hex : lower_hex salt ≡ true = ground arith in
    (
      (
        salt,
        ap (λ (x : StoredWrap). x.factor) same,
        ap (λ (x : StoredWrap). x.salt) same,
        decodes 16 salt len hex,
        ap (λ (x : StoredWrap). x.cred_id) same,
      ),
      ap (λ (x : StoredWrap). x.blob) same,
    )

passkey_wrap_sound :
    (blob : Str) (salt cred_id : Option Str) (w : StoredWrap)
    → passkey_wrap blob salt cred_id ≡ ok w
    → IsPasskeyWrap w × (w.blob ≡ blob)
passkey_wrap_sound blob salt none w h = absurd (cc)
passkey_wrap_sound blob salt (some cred_id) w h =
    let (guards, e) =
      past
        (is_empty cred_id
          || (not (length cred_id % 2 == 0) || (not (lower_hex cred_id) || has_some salt)))
        _ h in
    let same = ok-injective e in
    let hex : lower_hex cred_id ≡ true = ground arith in
    (
      (
        cred_id,
        ap (λ (x : StoredWrap). x.factor) same,
        ap (λ (x : StoredWrap). x.cred_id) same,
        hex,
        ap (λ (x : StoredWrap). x.salt) same,
      ),
      ap (λ (x : StoredWrap). x.blob) same,
    )

wrap_of_sound :
    (obj : Members) (expect : Str) (w : StoredWrap)
    → wrap_of obj expect ≡ ok w
    → (w.factor ≡ expect) × DecodesTo 72 w.blob × (IsPasswordWrap w ⊎ IsPasskeyWrap w)
wrap_of_sound obj expect w h =
    let factor = unwrap_or [] (as_str (get (codes "factor") obj)) in
    let blob = unwrap_or [] (as_str (get (codes "blob") obj)) in
    let salt = as_str (get (codes "salt") obj) in
    let cred_id = as_str (get (codes "cred_id") obj) in
    let (_, h₁) = past (not (str_eq factor expect)) _ h in
    let (guard, h₂) = past (not (length blob == 144) || not (lower_hex blob)) _ h₁ in
    let len : length blob ≡ 2 * 72 = ground (arith, ==_iff (length blob) 144) in
    let hex : lower_hex blob ≡ true = ground arith in
    let body = decodes 72 blob len hex in
    elim (Bool-cases (str_eq expect (codes "password"))) [
      | inl pw ↦
          let (shape, b) = password_wrap_sound blob salt cred_id w (rw pw at h₂) in
          (
            shape.1 ∙ sym ((str_eq_iff expect (codes "password")).0 pw),
            subst (DecodesTo 72) (sym b) body,
            inl shape,
          )
      | inr other ↦ elim (Bool-cases (str_eq expect (codes "passkey"))) [
        | inl pk ↦
            let (shape, b) = passkey_wrap_sound blob salt cred_id w (rw (other, pk) at h₂) in
            (
              shape.1 ∙ sym ((str_eq_iff expect (codes "passkey")).0 pk),
              subst (DecodesTo 72) (sym b) body,
              inr shape,
            )
        | inr none_of ↦ absurd (let q : err bad ≡ ok w = rw (other, none_of) at h₂ in cc)
      ]
    ]

-- A wrap that the server takes from a browser has the expected factor; its blob decodes to 72 bytes,
-- the nonce, the sealed 32-byte key and the tag; and it is either a password wrap, with a salt that
-- decodes to 16 bytes and no credential, or a passkey wrap, with a credential in lower-case
-- hexadecimal digits and no salt.
pub parse_client_wrap_sound :
    (v : Option Value) (expect : Str) (w : StoredWrap)
    → parse_client_wrap v expect ≡ ok w
    → (w.factor ≡ expect) × DecodesTo 72 w.blob × (IsPasswordWrap w ⊎ IsPasskeyWrap w)
unfolding parse_client_wrap
parse_client_wrap_sound none expect w h = absurd (cc)
parse_client_wrap_sound (some null) expect w h = absurd (cc)
parse_client_wrap_sound (some (bool b)) expect w h = absurd (cc)
parse_client_wrap_sound (some (number n)) expect w h = absurd (cc)
parse_client_wrap_sound (some (string s)) expect w h = absurd (cc)
parse_client_wrap_sound (some (array vs)) expect w h = absurd (cc)
parse_client_wrap_sound (some (object obj)) expect w h = wrap_of_sound obj expect w h
