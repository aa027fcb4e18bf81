-- ===== src/Client/Remote.antt =====
-- src/policy.rs: the vault as a client loads and saves it. What lies outside the program is a parameter:
-- the connection, the random generator, the cipher, JSON text and hexadecimal.
pub mod Io
pub mod Calls
pub mod Save
pub mod Reload
pub mod Sample
mod Tests
use secd.Base.{
  ℕ, ◌-◌, ◌+◌, Bool, true, false, not, ◌&&◌, ◌||◌, Option, none, some, List, [], ◌∷◌, ◌++◌, map,
  length, take, ltb, ◌==◌, if◌then◌else◌,
}
use secd.Base.Text.{Str, codes, str_eq, is_empty}
use secd.Base.Decimal.{decimal}
use secd.Base.Map.{Map, lookup, contains_key}
use secd.Base.Ordered.{put, sort, has, same_map}
use secd.Base.Result.{Result, ok, err}
use secd.Base.Json.{
  Value, Items, string, object, array, end, items, array_of, json_object, value_get, as_str,
  as_array, as_bool, unwrap_or,
}
use secd.Core.Aead.{Cipher, Secret, seal, open_blob}
use secd.Core.Name.{check_name}
use secd.Core.Provider.{Field}
use secd.Client.Form.{Schema}
use secd.Client.Bundles.{Row}
use secd.Client.Http.{request_bytes, parse_http}

pub record Host : Type 1 where
  pub World : Type 0
  -- Connects, writes the request and reads the response up to the cap; an error is its text.
  pub exchange : Str → World → Result Str Str × World
  -- 24 bytes, or the failure of the generator.
  pub random : World → Option Str × World
  pub cipher : Cipher
  pub from_str : Str → Option Value
  pub to_string : Value → Str
  pub hex_encode : Str → Str
  pub hex_decode : Str → Option Str
  -- Milliseconds of a clock that does not go back, and the clipboard.
  pub now : World → ℕ
  pub clipboard_set : Str → World → World
  pub clipboard_clear : World → World

-- An entry of the vault that opened.
abbrev pub Entry : Type 0
Entry = Row

pub record VaultLoad : Type 0 where
  pub entries : List Entry
  pub raw : ℕ
  pub body : Str
  pub before : Map Str

unfoldable pub dropped : VaultLoad → ℕ
dropped l = l.raw - length l.entries

unfoldable pub drop_refusal : VaultLoad → Option Str
unfolding dropped
drop_refusal l =
    let n = dropped l in
    if ltb 0 n
    then some (
        codes "vault: "
        ++ (decimal n
            ++ (codes " of "
                ++ (decimal l.raw ++ codes " entries did not decode; a save would delete them"))))
    else none

-- U+2014 is three bytes.
abbrev pub locked : Str
locked = codes "secd: locked " ++ (0xe2 ∷ 0x80 ∷ 0x94 ∷ codes " run secd")

abbrev pub vault_path : Str
vault_path = codes "/api/v1/vault"

abbrev pub get : Str
get = codes "GET"

abbrev text_of : Option Str → Str
text_of none = []
text_of (some s) = s

unfoldable pub err_of : Value → Str
err_of v = text_of (as_str (value_get (codes "error") v))

-- `name -> ciphertext` of one entry that the server sent.
unfoldable pub named_ciphertext : Value → Option (Str × Str)
named_ciphertext e = elim (as_str (value_get (codes "name") e)) [
  | none ↦ none
  | some name ↦ elim (as_str (value_get (codes "ciphertext") e)) [
    | none ↦ none
    | some ct ↦ some (name, ct)
  ]
]

unfoldable pub meta_of : Value → Value
meta_of e = unwrap_or (object end) (value_get (codes "meta") e)

abbrev put_found : Option (Str × Str) → Map Str → Map Str
put_found none m = m
put_found (some (name, ct)) m = put name ct m

-- The loop of `load_ciphertexts`.
unfoldable pub ciphertexts : List Value → Map Str → Map Str
unfolding named_ciphertext
ciphertexts [] out = out
ciphertexts (e ∷ es) out = ciphertexts es (put_found (named_ciphertext e) out)

-- Names that one map has with a value that the other does not.
unfoldable pub changed_names : Map Str → Map Str → List Str
changed_names [] theirs = []
changed_names ((name, ct) ∷ mine) theirs =
    let rest = changed_names mine theirs in
    elim (lookup name theirs) [
      | none ↦ name ∷ rest
      | some other ↦ if str_eq other ct then rest else name ∷ rest
    ]

unfoldable pub new_names : Map Str → Map Str → List Str
new_names mine [] = []
new_names mine ((name, _) ∷ theirs) =
    let rest = new_names mine theirs in if contains_key name mine then rest else name ∷ rest

-- `dedup`: equal neighbours
unfoldable pub dedup : List Str → List Str
dedup [] = []
dedup (a ∷ []) = a ∷ []
dedup (a ∷ b ∷ s) = let rest = dedup (b ∷ s) in if str_eq a b then rest else a ∷ rest

unfoldable pub join : Str → List Str → Str
join sep [] = []
join sep (a ∷ []) = a
join sep (a ∷ b ∷ s) = a ++ (sep ++ join sep (b ∷ s))

unfoldable pub changed_under_write : Str → Map Str → Map Str → Str
unfolding changed_names new_names dedup join
changed_under_write verb mine theirs =
    let diff = take 8 (dedup (sort (changed_names mine theirs ++ new_names mine theirs))) in
    codes "vault changed under the write: "
    ++ (verb
        ++ (codes " "
            ++ (decimal (length mine)
                ++ (codes ", found "
                    ++ (decimal (length theirs)
                        ++ (codes " (" ++ (join (codes ", ") diff ++ codes ")")))))))

-- A row of `GET /api/v1/providers`.
abbrev masked : Option Bool → Bool
masked none = true
masked (some b) = b

abbrev unset : Option Bool → Bool
unset none = false
unset (some b) = b

unfoldable pub parse_field : Value → Option Field
parse_field f = elim (as_str (value_get (codes "key") f)) [
  | none ↦ none
  | some key ↦ elim (as_str (value_get (codes "env") f)) [
    | none ↦ none
    | some env ↦ some (record {
      key = key;
      secret = masked (as_bool (value_get (codes "secret") f));
      optional = masked (as_bool (value_get (codes "optional") f));
      env = env;
    })
  ]
]

abbrev pub cons_some {ℓ} : {A : Type ℓ} → Option A → Option (List A) → Option (List A)
cons_some (some a) (some as') = some (a ∷ as')
cons_some _ _ = none

unfoldable pub parse_fields : List Value → Option (List Field)
unfolding parse_field
parse_fields [] = some []
parse_fields (f ∷ fs) = cons_some (parse_field f) (parse_fields fs)

abbrev schema_with : Value → Str → Str → Option (List Field) → Option Schema
schema_with v name title none = none
schema_with v name title (some fields) = some (record {
  name = name;
  title = title;
  builtin = unset (as_bool (value_get (codes "builtin") v));
  fields = fields;
})

unfoldable pub parse_schema : Value → Option Schema
unfolding parse_fields
parse_schema v = elim (as_str (value_get (codes "name") v)) [
  | none ↦ none
  | some name ↦ elim (as_str (value_get (codes "title") v)) [
    | none ↦ none
    | some title ↦ elim (as_array (value_get (codes "fields") v)) [
      | none ↦ none
      | some raw ↦ schema_with v name title (parse_fields (items raw))
    ]
  ]
]

unfoldable pub schemas_of : List Value → List Schema
unfolding parse_schema
schemas_of [] = []
schemas_of (p ∷ ps) =
    let rest = schemas_of ps in elim (parse_schema p) [ none ↦ rest | some s ↦ s ∷ rest ]
