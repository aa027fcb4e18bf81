-- ===== src/Client/Remote/Calls.antt =====
-- The calls of the client: the request of src/policy.rs, and what loads and saves the vault with it.
use secd.Base.{ℕ, ◌-◌, Bool, true, not, Option, none, some, List, [], ◌∷◌, ◌++◌, length, ◌==◌}
use secd.Base.Text.{Str, codes}
use secd.Base.Decimal.{decimal}
use secd.Base.Map.{Map, contains_key}
use secd.Base.Ordered.{put, same_map}
use secd.Base.Result.{Result, ok, err}
use secd.Base.Json.{Value, string, array, items, array_of, json_object, value_get, as_array}
use secd.Core.Aead.{Secret, seal, open_blob}
use secd.Core.Error.{Error, error_text}
use secd.Core.Name.{check_name}
use secd.Client.Form.{Schema}
use secd.Client.Bundles.{Row}
use secd.Client.Http.{request_bytes, parse_http}
use secd.Client.Remote.Io.{◌>>=◌, ◌>>◌, Io, pure, ensure, or_bail, of_result, with_context}
use secd.Client.Remote.{
  Host, Entry, VaultLoad, locked, vault_path, get, err_of, named_ciphertext, meta_of, ciphertexts,
  changed_under_write, schemas_of,
}

abbrev is_live : {W : Type 0} → Result Str (ℕ × Value) × W → Bool × W
is_live (ok (status, v), w) = (not (status == 401), w)
is_live (err e, w) = (true, w)

abbrev pub read_back_failed : Str
read_back_failed = codes "vault written; read-back failed, the vault now holds what was sent"

abbrev pub put_entry : Value → Str × Str → Value
put_entry e (name, ct) =
    json_object (
      (codes "name", string name)
      ∷ (codes "ciphertext", string ct)
      ∷ (codes "meta", meta_of e)
      ∷ [])

abbrev cons_found {ℓ} : {A : Type ℓ} → Option A → List A → List A
cons_found none xs = xs
cons_found (some x) xs = x ∷ xs

abbrev status_text : Str → ℕ → Str
status_text what status = what ++ decimal status

abbrev pub body_entry : Row → Str → Value
body_entry row ct = json_object (
    (codes "name", string row.name)
    ∷ (codes "ciphertext", string ct)
    ∷ (codes "meta", row.meta)
    ∷ [])

abbrev pub sealed_or : Str → Result Error Str → Result Str Str
sealed_or name (ok blob) = ok blob
sealed_or name (err e) = err (codes "seal " ++ (name ++ (codes ": " ++ error_text e)))

module _ (h : Host) where
  open h use {World, exchange, random, from_str, to_string, hex_encode, hex_decode}

  abbrev payload_of : Option Value → Str
  payload_of none = []
  payload_of (some v) = to_string v

  unfoldable pub request : Str → Str → Option Value → Str → Io World (ℕ × Value)
  unfolding request_bytes parse_http
  request method path body token = do
    raw ← exchange (request_bytes method path (payload_of body) (some token))
    of_result (parse_http from_str raw)

  unfoldable pub session_live : Str → World → Bool × World
  unfolding request
  session_live token w = is_live (request get vault_path none token w)

  -- The entry of a named ciphertext, if this key opens it.
  unfoldable pub open_entry : Secret → Value → Str × Str → Option Entry
  open_entry dek e (name, ct) = elim (check_name name) [
    | err _ ↦ none
    | ok _ ↦ elim (hex_decode ct) [
      | none ↦ none
      | some blob ↦ elim (open_blob h.cipher dek.as_bytes name blob) [
        | err _ ↦ none
        | ok plain ↦ some (record { name = name; value = plain; meta = meta_of e })
      ]
    ]
  ]

  -- The loop of `load_vault`: the entries that opened, and those of the body that puts all back.
  unfoldable pub read_entries : Secret → List Value → List Entry × List Value
  unfolding open_entry named_ciphertext
  read_entries dek [] = ([], [])
  read_entries dek (e ∷ es) =
      let (opened, back) = read_entries dek es in
      elim (named_ciphertext e) [
        | none ↦ (opened, back)
        | some found ↦ (cons_found (open_entry dek e found) opened, put_entry e found ∷ back)
      ]

  unfoldable pub load_of : Secret → List Value → VaultLoad
  unfolding read_entries
  load_of dek arr =
      let (opened, back) = read_entries dek arr in
      record {
        entries = opened;
        raw = length arr;
        body = to_string (json_object ((codes "entries", array (array_of back)) ∷ []));
        before = ciphertexts arr [];
      }

  unfoldable pub load_vault : Str → Secret → Io World VaultLoad
  unfolding request load_of
  load_vault token dek = do
    (status, v) ← request get vault_path none token
    ensure (not (status == 401)) locked
    ensure (status == 200) (status_text (codes "vault ") status)
    arr ← or_bail (as_array (value_get (codes "entries") v)) (codes "vault: no entries")
    pure (load_of dek (items arr))

  unfoldable pub load_ciphertexts : Str → Io World (Map Str)
  unfolding request ciphertexts
  load_ciphertexts token = do
    (status, v) ← request get vault_path none token
    ensure (status == 200) (status_text (codes "vault ") status)
    arr ← or_bail (as_array (value_get (codes "entries") v)) (codes "vault: no entries")
    let out = ciphertexts (items arr) []
    ensure (length out == length (items arr)) (
        codes "vault read-back: "
        ++ (decimal (length (items arr))
            ++ (codes " entries, " ++ (decimal (length out) ++ codes " usable"))))
    pure out

  abbrev pub draw : Io World (Option Str)
  draw w = let (r, w') = random w in (ok r, w')

  -- One round of the loop of `put_vault`: the ciphertext of a row, and the test of its name.
  unfoldable pub seal_row : Secret → Row → Map Str → Io World Str
  seal_row dek row sent = do
    nonce ← draw
    blob ←
        of_result
          (sealed_or row.name (seal h.cipher nonce dek.as_bytes row.name row.value.as_bytes))
    ensure (not (contains_key row.name sent)) (codes "duplicate name " ++ row.name)
    pure (hex_encode blob)

  -- What is sent as a map, and the entries of the body.
  unfoldable pub seal_rows : Secret → List Row → Map Str → Io World (Map Str × List Value)
  unfolding seal_row
  seal_rows dek [] sent = pure (sent, [])
  seal_rows dek (row ∷ rows) sent = do
    ct ← seal_row dek row sent
    (all, body) ← seal_rows dek rows (put row.name ct sent)
    pure (all, body_entry row ct ∷ body)

  unfoldable pub put_vault : Str → Secret → List Row → Io World (Map Str)
  unfolding seal_rows request err_of
  put_vault token dek rows = do
    (sent, body) ← seal_rows dek rows []
    (status, v) ←
        request (codes "PUT") vault_path
          (some (json_object ((codes "entries", array (array_of body)) ∷ []))) token
    ensure (not (status == 401)) locked
    ensure (status == 200) (codes "vault put " ++ (decimal status ++ (codes ": " ++ err_of v)))
    pure sent

  unfoldable pub save_entries_read_back : Str → Secret → List Row → Map Str → Io World (Map Str)
  unfolding load_ciphertexts put_vault changed_under_write
  save_entries_read_back token dek rows before = do
    now ← load_ciphertexts token
    ensure (same_map now before) (changed_under_write (codes "loaded") before now)
    sent ← put_vault token dek rows
    back ← with_context read_back_failed (load_ciphertexts token)
    ensure (same_map back sent) (changed_under_write (codes "sent") sent back)
    pure sent

  unfoldable pub fetch_schemas : Str → Io World (List Schema × ℕ)
  unfolding request schemas_of
  fetch_schemas token = do
    (status, v) ← request get (codes "/api/v1/providers") none token
    ensure (status == 200) (status_text (codes "providers ") status)
    arr ← or_bail (as_array (value_get (codes "providers") v)) (codes "providers: no list")
    let out = schemas_of (items arr)
    pure (out, length (items arr) - length out)
