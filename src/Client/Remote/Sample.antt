-- ===== src/Client/Remote/Sample.antt =====
-- A host for the tests: a queue of responses, a cipher that hides nothing, hexadecimal that leaves the
-- bytes as they are, and a parser that reads any text as a vault with that one ciphertext.
use secd.Base.{◌≡◌, refl, ap, arith, some, List, [], ◌∷◌, ◌++◌, length, replicate}
use secd.Base.Text.{Str, codes}
use secd.Base.Result.{Result, ok, err}
use secd.Base.Json.{Value, string, array, object, end, array_of, json_object}
use secd.Core.Aead.{Secret}
use secd.Core.Aead.Toy.{toy, toy-IsAead}
use secd.Client.Remote.{Host}
use secd.Client.Remote.Reload.{IsHost}

abbrev pub answer : List Str → Result Str Str × List Str
answer [] = (err (codes "closed"), [])
answer (r ∷ rs) = (ok r, rs)

abbrev pub vault_with : Str → Value
vault_with ct = json_object (
    (
      codes "entries",
      array (
          array_of (
            json_object (
              (codes "name", string (codes "K"))
              ∷ (codes "ciphertext", string ct)
              ∷ (codes "meta", object end)
              ∷ [])
            ∷ [])),
    )
    ∷ [])

abbrev pub nonce : Str
nonce = replicate 24 b'n'

abbrev pub sample : Host
sample = record {
  World = List Str;
  exchange = λ request w. answer w;
  random = λ w. (some nonce, w);
  cipher = toy;
  from_str = λ s. some (vault_with s);
  to_string = λ v. codes "{}";
  hex_encode = λ s. s;
  hex_decode = λ s. some s;
  now = λ w. 40000;
  clipboard_set = λ t w. w;
  clipboard_clear = λ w. w;
}

pub sample-IsHost : IsHost sample
sample-IsHost = record {
  aead = toy-IsAead;
  hex = λ b. refl;
  nonce = λ w w' n e. same_length n (ap (λ p. p.0) e);
}
  where
    same_length : (n : Str) → some nonce ≡ some n → length n ≡ 24
    same_length n e = ground arith

abbrev pub dek : Secret
dek = record { as_bytes = replicate 32 7 }

-- A response with a ciphertext as its body.
abbrev pub response : Str → Str
response ct = codes "HTTP/1.1 200 OK" ++ (10 ∷ 10 ∷ ct)
