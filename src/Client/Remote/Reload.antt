-- ===== src/Client/Remote/Reload.antt =====
-- What a save sends is what a load gives back.
use secd.Base.{
  suc, ◌≤◌, ◌≡◌, ◌↔◌, refl, ap, ◌∙◌, false, not, inl, inr, Option, none, some, List, [], ◌∷◌,
  length, All, arith, Option-cases,
}
use secd.Base.Text.{Str, str_eq}
use secd.Base.Map.{Map, contains_key}
use secd.Base.Ordered.{put}
use secd.Base.Result.{Result, ok, err}
use secd.Base.Json.{Value}
use secd.Core.Error.{Error}
use secd.Core.Aead.{Cipher, Secret, IsAead, seal, seal_with_nonce, open_blob, nonce_len}
use secd.Core.Aead.RoundTrip.{open_blob-seal_with_nonce}
use secd.Core.Name.{check_name}
use secd.Client.Bundles.{Row}
use secd.Client.Remote.Io.{io-bind, ensure-ok}
use secd.Client.Remote.{
  Host, Entry, VaultLoad, named_ciphertext, meta_of, ciphertexts, drop_refusal, dropped,
}
use secd.Client.Remote.Calls.{
  open_entry, put_entry, read_entries, load_of, body_entry, seal_row, seal_rows, sealed_or,
}

-- What the client relies on: the cipher is an AEAD, hexadecimal decodes to what was encoded, and the
-- generator gives 24 bytes.
pub record IsHost (h : Host) : Type 0 where
  pub aead : IsAead h.cipher
  pub hex : (b : Str) → h.hex_decode (h.hex_encode b) ≡ some b
  pub nonce : (w w' : h.World) (n : Str) → h.random w ≡ (some n, w') → length n ≡ nonce_len

abbrev pub HasName : Row → Type 0
HasName row = check_name row.name ≡ ok tt

sealed_with :
    (c : Cipher) (random : Option Str) (k name msg blob : Str)
    → sealed_or name (seal c random k name msg) ≡ ok blob
    → (n : Str) × (random ≡ some n) × (seal_with_nonce c k name msg n ≡ ok blob)
unfolding seal
sealed_with c none k name msg blob h = absurd (cc)
sealed_with c (some n) k name msg blob h = (n, refl, back (seal_with_nonce c k name msg n) h)
  where
    back : (r : Result Error Str) → sealed_or name r ≡ ok blob → r ≡ ok blob
    back (ok b) q = cc
    back (err e) q = absurd (cc)

named-body_entry :
    (row : Row) (ct : Str) → named_ciphertext (body_entry row ct) ≡ some (row.name, ct)
unfolding named_ciphertext str_eq
named-body_entry row ct = refl

put-body_entry :
    (row : Row) (ct : Str) → put_entry (body_entry row ct) (row.name, ct) ≡ body_entry row ct
unfolding meta_of str_eq
put-body_entry row ct = refl

read_opened :
    (h : Host) (dek : Secret) (e : Value) (es : List Value) (found : Str × Str) (row : Row)
    (rows : List Row)
    → named_ciphertext e ≡ some found
    → open_entry h dek e found ≡ some row
    → put_entry e found ≡ e
    → read_entries h dek es ≡ (rows, es)
    → read_entries h dek (e ∷ es) ≡ (row ∷ rows, e ∷ es)
unfolding read_entries
read_opened h dek e es found row rows n o p r = ground (arith, n, o, p, r)

ciphertexts_named :
    (e : Value) (es : List Value) (name ct : Str) (out : Map Str)
    → named_ciphertext e ≡ some (name, ct)
    → ciphertexts (e ∷ es) out ≡ ciphertexts es (put name ct out)
unfolding ciphertexts
ciphertexts_named e es name ct out n = rw n refl

none_dropped : (l : VaultLoad) → l.raw ≤ length l.entries → drop_refusal l ≡ none
unfolding drop_refusal dropped
none_dropped l h = ground arith

some_dropped : (l : VaultLoad) → drop_refusal l ≡ none → l.raw ≤ length l.entries
unfolding drop_refusal dropped
some_dropped l h = ground arith

module _ (h : Host) (v : IsHost h) where
  opens :
      (dek : Secret) (row : Row) (blob : Str)
      → HasName row
      → open_blob h.cipher dek.as_bytes row.name blob ≡ ok row.value
      → open_entry h dek (body_entry row (h.hex_encode blob)) (row.name, h.hex_encode blob)
        ≡ some row
  unfolding open_entry meta_of str_eq
  opens dek row blob valid opened = ground (arith, valid, v.hex blob, opened)

  sealed_row :
      (dek : Secret) (row : Row) (sent : Map Str) (ct : Str) (w w' : h.World)
      → seal_row h dek row sent w ≡ (ok ct, w')
      → (blob : Str) × (ct ≡ h.hex_encode blob)
        × (open_blob h.cipher dek.as_bytes row.name blob ≡ ok row.value)
        × (contains_key row.name sent ≡ false)
  unfolding seal_row
  sealed_row dek row sent ct w w' e =
      let (blob, w2, made, e2) =
        io-bind
          (
            sealed_or row.name
                (seal h.cipher (h.random w).0 dek.as_bytes row.name row.value.as_bytes),
            (h.random w).1,
          )
          _ e in
      let (new, e3) = ensure-ok (not (contains_key row.name sent)) _ _ e2 in
      let (nonce, drawn, sealed) =
        sealed_with h.cipher (h.random w).0 dek.as_bytes row.name row.value.as_bytes blob
          (cc made) in
      (
        blob,
        cc e3,
        open_blob-seal_with_nonce h.cipher v.aead dek.as_bytes row.name row.value.as_bytes nonce
            blob (v.nonce w (h.random w).1 nonce (cc drawn)) sealed,
        ground (arith, new),
      )

  -- Sealing rows and reading them back, behind what was sent before them.
  seal_rows_reload :
      (dek : Secret) (rows : List Row) (sent all : Map Str) (body : List Value) (w w' : h.World)
      → All HasName rows
      → seal_rows h dek rows sent w ≡ (ok (all, body), w')
      → (read_entries h dek body ≡ (rows, body))
        × (ciphertexts body sent ≡ all)
        × (length body ≡ length rows)
  unfolding seal_rows read_entries ciphertexts
  seal_rows_reload dek [] sent all body w w' valid e =
      let no_body : [] ≡ body = cc in
      let same : sent ≡ all = cc in rw (← no_body) (refl, same, refl)
  seal_rows_reload dek (row ∷ rows) sent all body w w' (name, valid) e =
      let (ct, w1, made, e1) = io-bind (seal_row h dek row sent w) _ e in
      let (rest, w2, later, e2) = io-bind (seal_rows h dek rows (put row.name ct sent) w1) _ e1 in
      let (blob, hexed, opened, new) = sealed_row dek row sent ct w w1 made in
      let (again, map, size) =
        seal_rows_reload dek rows (put row.name ct sent) rest.0 rest.1 w1 w2 valid later in
      let whole : body_entry row ct ∷ rest.1 ≡ body = cc e2 in
      let out : rest.0 ≡ all = cc e2 in
      let named = named-body_entry row ct in
      rw (← whole, ← out)
        (
          read_opened h dek (body_entry row ct) rest.1 (row.name, ct) row rows named
              (rw hexed (opens dek row blob name opened)) (put-body_entry row ct) again,
          ciphertexts_named (body_entry row ct) rest.1 row.name ct sent named ∙ map,
          ap suc size,
        )

  -- On a host that keeps IsHost, rows with names of the vault that a save seals load back from the body
  -- that it sends: the same entries in the same order, none of them dropped, with the ciphertexts that
  -- were sent.
  pub load_of-seal_rows :
      (dek : Secret) (rows : List Row) (sent : Map Str) (body : List Value) (w w' : h.World)
      → All HasName rows
      → seal_rows h dek rows [] w ≡ (ok (sent, body), w')
      → ((load_of h dek body).entries ≡ rows)
        × ((load_of h dek body).before ≡ sent)
        × (drop_refusal (load_of h dek body) ≡ none)
  unfolding load_of
  load_of-seal_rows dek rows sent body w w' valid e =
      let (again, map, size) = seal_rows_reload dek rows [] sent body w w' valid e in
      let opened : (read_entries h dek body).0 ≡ rows = ap (λ p. p.0) again in
      (opened, map, none_dropped _ (omega (arith, size, ap length opened)))

-- A value of the server that opens under the key.
abbrev pub Opens : Host → Secret → Value → Type 0
Opens h dek e =
    (found : Str × Str) × (entry : Entry) × (named_ciphertext e ≡ some found)
    × (open_entry h dek e found ≡ some entry)

opened_le :
    (h : Host) (dek : Secret) (es : List Value) → length (read_entries h dek es).0 ≤ length es
unfolding read_entries
opened_le h dek [] = omega arith
opened_le h dek (e ∷ es) = ground (arith, opened_le h dek es)

all_opened :
    (h : Host) (dek : Secret) (es : List Value)
    → length es ≤ length (read_entries h dek es).0
    → All (Opens h dek) es
unfolding read_entries
all_opened h dek [] q = tt
all_opened h dek (e ∷ es) q = elim (Option-cases (named_ciphertext e)) [
  | inl n ↦ absurd (ground (arith, opened_le h dek es))
  | inr (found, n) ↦ elim (Option-cases (open_entry h dek e found)) [
    | inl o ↦ absurd (ground (arith, opened_le h dek es))
    | inr (entry, o) ↦ ((found, entry, n, o), all_opened h dek es (ground arith))
  ]
]

opened_all :
    (h : Host) (dek : Secret) (es : List Value)
    → All (Opens h dek) es
    → length es ≤ length (read_entries h dek es).0
unfolding read_entries
opened_all h dek [] q = omega arith
opened_all h dek (e ∷ es) ((found, entry, n, o), q) = ground (arith, opened_all h dek es q)

-- Saving is refused behind a load exactly where some entry that the server sent did not open, so that
-- no save replaces the vault without it.
pub drop_refusal_iff :
    (h : Host) (dek : Secret) (es : List Value)
    → (drop_refusal (load_of h dek es) ≡ none) ↔ All (Opens h dek) es
unfolding load_of
drop_refusal_iff h dek es =
    ((λ q. all_opened h dek es (some_dropped _ q)), λ q. none_dropped _ (opened_all h dek es q))
