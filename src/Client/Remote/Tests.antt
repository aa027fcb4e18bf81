-- ===== src/Client/Remote/Tests.antt =====
-- The theorems of a save and a loading, at a vault with one entry.
use secd.Base.{◌≡◌, refl, ◌↔◌, none, List, [], ◌∷◌, ◌++◌, All, replicate}
use secd.Base.Text.{Str, codes, split_once, str_eq, starts_with, contains, split}
use secd.Base.Trim.{trim, trim_start}
use secd.Base.Utf8.{from_utf8}
use secd.Base.Decimal.{parse_u16}
use secd.Base.Ordered.{put, same_map}
use secd.Core.Aead.{seal}
use secd.Core.Name.{check_name}
use secd.Base.Map.{Map, lookup}
use secd.Base.Result.{ok}
use secd.Base.Json.{object, end, json_object}
use secd.Client.Bundles.{Row}
use secd.Client.Remote.{drop_refusal}
use secd.Client.Remote.Calls.{
  save_entries_read_back, load_ciphertexts, put_vault, seal_rows, load_of, body_entry,
}
use secd.Client.Remote.Save.{save_entries_read_back_sound}
use secd.Client.Remote.Reload.{HasName, Opens, load_of-seal_rows, drop_refusal_iff}
use secd.Client.Remote.Sample.{sample, sample-IsHost, dek, nonce, response}

abbrev entry : Row
entry = record { name = codes "K"; value = record { as_bytes = codes "v2" }; meta = object end }

abbrev ciphertext : Str
ciphertext = nonce ++ (codes "v2" ++ replicate 16 0)

abbrev before : Map Str
before = (codes "K", codes "c1") ∷ []

abbrev sent : Map Str
sent = (codes "K", ciphertext) ∷ []

-- The vault of before, the reply to the PUT, and the vault of after.
abbrev replies : List Str
replies = response (codes "c1") ∷ response (codes "done") ∷ response ciphertext ∷ []

saved : save_entries_read_back sample (codes "t") dek (entry ∷ []) before replies ≡ (ok sent, [])
unfolding save_entries_read_back from_utf8 trim_start split_once str_eq parse_u16 trim put same_map
    seal lookup
saved = refl

save_entries_read_back_sound_example :
    (w1 : List Str) × (w2 : List Str) × (load_ciphertexts sample (codes "t") replies
      ≡ (ok before, w1))
    × (put_vault sample (codes "t") dek (entry ∷ []) w1 ≡ (ok sent, w2))
    × (load_ciphertexts sample (codes "t") w2 ≡ (ok sent, []))
save_entries_read_back_sound_example =
    save_entries_read_back_sound sample (codes "t") dek (entry ∷ []) before sent replies [] saved

sealed : seal_rows sample dek (entry ∷ []) [] [] ≡ (ok (sent, body_entry entry ciphertext ∷ []), [])
unfolding seal_rows seal lookup put
sealed = refl

named : All HasName (entry ∷ [])
unfolding check_name starts_with contains split
named = (refl, tt)

load_of-seal_rows_example :
    ((load_of sample dek (body_entry entry ciphertext ∷ [])).entries ≡ entry ∷ [])
    × ((load_of sample dek (body_entry entry ciphertext ∷ [])).before ≡ sent)
    × (drop_refusal (load_of sample dek (body_entry entry ciphertext ∷ [])) ≡ none)
load_of-seal_rows_example =
    load_of-seal_rows sample sample-IsHost dek (entry ∷ []) sent (body_entry entry ciphertext ∷ [])
      [] [] named sealed

drop_refusal_iff_example :
    (drop_refusal (load_of sample dek (json_object [] ∷ [])) ≡ none)
    ↔ All (Opens sample dek) (json_object [] ∷ [])
drop_refusal_iff_example = drop_refusal_iff sample dek (json_object [] ∷ [])
