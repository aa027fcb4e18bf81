-- ===== src/Core/Aead/Toy.antt =====
-- A cipher for the tests of what rests on crates/secd-core/src/aead.rs.
use secd.Base.{
  ℕ, ◌-◌, ◌≡◌, Bool, true, ap, all, and_true, take-append, length-append, All-append, none, some,
  [], ◌∷◌, ◌++◌, length, take, replicate, All, arith, if◌then◌else◌, ltb,
}
use secd.Base.Text.{Str}
use secd.Core.Hex.RoundTrip.{IsByte}
use secd.Core.Aead.{Cipher, IsAead}

-- A cipher that puts a tag of 16 zero bytes behind a message and hides nothing.
abbrev pub is_byte : ℕ → Bool
is_byte b = ltb b 256

abbrev pub toy : Cipher
toy = record {
  encrypt = λ k nonce msg aad. if all is_byte msg then some (msg ++ replicate 16 0) else none;
  decrypt = λ k nonce ct aad. some (take (length ct - 16) ct);
}

is_byte-IsByte : (s : Str) → all is_byte s ≡ true → All IsByte s
is_byte-IsByte [] h = tt
is_byte-IsByte (b ∷ s) h =
    let (x, y) = (and_true (is_byte b) (all is_byte s)).0 h in (ground arith, is_byte-IsByte s y)

toy_parts :
    (msg ct : Str)
    → (if all is_byte msg then some (msg ++ replicate 16 0) else none) ≡ some ct
    → (all is_byte msg ≡ true) × (ct ≡ msg ++ replicate 16 0)
toy_parts msg ct h = ground arith

pub toy-IsAead : IsAead toy
toy-IsAead = record {
  decrypt-encrypt = λ k nonce msg aad ct h.
      let (b, e) = toy_parts msg ct h in
      rw e (
        ap some
          (take-append _ msg (replicate 16 0) (omega (arith, length-append msg (replicate 16 0)))));
  length-encrypt = λ k nonce msg aad ct h.
      let (b, e) = toy_parts msg ct h in rw e (length-append msg (replicate 16 0));
  encrypt-IsByte = λ k nonce msg aad ct h.
      let (b, e) = toy_parts msg ct h in
      rw e (All-append IsByte msg (replicate 16 0) (is_byte-IsByte msg b) (omega arith));
}
