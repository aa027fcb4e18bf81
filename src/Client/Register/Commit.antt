-- ===== src/Client/Register/Commit.antt =====
-- src/tui/model.rs: loading the register, saving it, and deleting from it. A save is one PUT of the
-- whole vault.
use secd.Base.{
  Bool, true, false, not, ◌&&◌, Option, none, some, List, [], ◌∷◌, ◌++◌, map, length, if◌then◌else◌,
}
use secd.Base.Text.{Str, codes, str_eq, is_empty}
use secd.Base.Trim.{trim}
use secd.Base.Decimal.{decimal}
use secd.Base.Map.{Map}
use secd.Base.Ordered.{sort, has}
use secd.Base.Result.{Result, ok, err}
use secd.Core.Name.{check_name}
use secd.Core.NameError.{NameError, name_error_text}
use secd.Core.Provider.{build_payload}
use secd.Client.Form.{Form, Schema, name_text, value_pairs}
use secd.Client.Bundles.{Row}
use secd.Client.Tree.{is_bundle}
use secd.Client.Payload.{payload_json, provider_meta}
use secd.Client.Remote.{Host}
use secd.Client.Remote.Calls.{save_entries_read_back}
use secd.Client.Register.{Model, Modal, idle, add, provider, note, rebuild}
use secd.Client.Register.Detail.{sync_detail, schema_named}
use secd.Client.Register.Load.{held_rows, keys_of, no_meta, reload_from_vault, reshape}
use secd.Client.Register.Writes.{
  entry_word, form_refuse, insert_metas, insert_values, members_of, refuse_if_blocked, refused,
  remove_all, rename_collision, save_list, with_writes, without,
}

module _ (h : Host) where
  open h use {World}

  -- `None` where the register has no session.
  unfoldable pub save_rows : List Row → Model → World → Option (Result Str (Map Str) × World)
  save_rows rows m w =
      keys_of h m.token m.dek none
        (λ token dek. some (save_entries_read_back h token dek rows m.before w))

  -- The register behind a save that returned: `written` is the vault now.
  unfoldable pub committed : List Row → List Str → List Str → Map Str → Model → Model
  unfolding remove_all insert_values insert_metas
  committed writes gone names written m = record m {
    before = written;
    names = names;
    values = insert_values writes (remove_all gone m.values);
    meta = insert_metas writes (remove_all gone m.meta);
  }

  abbrev pub first_name : List Row → Option Str
  first_name [] = none
  first_name (w ∷ _) = some w.name

  abbrev pub commit_end :
      List Row
      → List Str
      → List Str
      → Model
      → Result Str (Map Str) × World
      → Option Str × Model × World
  commit_end writes gone names m (ok written, w) =
      let n = length writes in
      let m1 = rebuild (first_name writes) (reshape h (committed writes gone names written m)) in
      (
        none,
        note (codes "saved " ++ (decimal n ++ (codes " " ++ entry_word n)))
            (sync_detail h.from_str m1),
        w,
      )
  commit_end writes gone names m (err e, w) =
      let (m1, w1) = reload_from_vault h m w in (some (codes "save failed: " ++ e), m1, w1)

  abbrev pub saved_or :
      Option (Result Str (Map Str) × World)
      → Option Str × Model × World
      → (Result Str (Map Str) × World → Option Str × Model × World)
      → Option Str × Model × World
  saved_or none out f = out
  saved_or (some r) out f = f r

  -- The names behind a commit.
  abbrev pub next_names : List Row → List Str → Model → List Str
  next_names writes gone m = sort (with_writes writes (without gone m.names))

  abbrev pub commit_free : List Row → List Str → Model → World → Option Str × Model × World
  commit_free writes gone m w =
      let names = next_names writes gone m in
      if is_empty writes
      then (some (codes "nothing to save"), m, w)
      else saved_or (save_rows (save_list m writes names) m w) (some (codes "not signed in"), m, w)
          (commit_end writes gone names m)

  abbrev pub commit_unless :
      Option Str → List Row → List Str → Model → World → Option Str × Model × World
  commit_unless (some why) writes gone m w = (some (refused why), m, w)
  commit_unless none writes gone m w = commit_free writes gone m w

  -- The refusal, or `none` where the vault was saved.
  unfoldable pub commit : List Row → List Str → Model → World → Option Str × Model × World
  unfolding save_list with_writes without save_rows
  commit writes gone m w = commit_unless m.save_blocked writes gone m w

  abbrev pub refuse_end : Modal → Option Str × Model × World → Model × World
  refuse_end md (none, m, w) = (m, w)
  refuse_end md (some why, m, w) = (form_refuse md why m, w)

  abbrev pub first_value : List (Str × Str) → Str
  first_value [] = []
  first_value ((_, v) ∷ _) = v

  abbrev pub left_behind : Option Str → Str → List Str
  left_behind none name = []
  left_behind (some old) name = if str_eq old name then [] else old ∷ []

  abbrev pub single_writes : Form → Str → List Row
  single_writes form name =
      record {
        name = name;
        value = record { as_bytes = first_value (value_pairs form) };
        meta = no_meta;
      }
      ∷ []

  -- A form that is not refused before: what is refused now keeps it open.
  abbrev pub commit_named : Modal → List Row → List Str → Option Str → Model → World → Model × World
  commit_named md writes gone (some why) m w = (form_refuse md why m, w)
  commit_named md writes gone none m w = refuse_end md (commit writes gone m w)

  abbrev pub checked_single :
      Form → Str → Result NameError (Unit {0}) → Model → World → Model × World
  checked_single form name (err e) m w =
      (form_refuse (add form) (codes "bad name: " ++ name_error_text e) m, w)
  checked_single form name (ok _) m w =
      commit_named (add form) (single_writes form name) (left_behind form.editing name)
        (rename_collision form name m) m w

  unfoldable pub commit_single : Form → Model → World → Model × World
  unfolding commit form_refuse rename_collision
  commit_single form m w =
      let name = trim (name_text form) in checked_single form name (check_name name) m w

  abbrev pub sibling_row : Str → Str × Str → Row
  sibling_row name (k, v) = record {
    name = name ++ b'/' ∷ k;
    value = record { as_bytes = v };
    meta = no_meta;
  }

  -- A bundle that is stored as siblings.
  unfoldable pub is_fused : Option Str → Model → Bool
  is_fused none m = false
  is_fused (some o) m = not (has o m.names) && is_bundle o m.index

  abbrev name_row : Row → Str
  name_row r = r.name

  abbrev pair_key : Str × Str → Str
  pair_key (k, v) = k

  unfoldable pub provider_gone : Option Str → Bool → Str → List (Str × Str) → Model → List Str
  provider_gone none fused name pairs m = []
  provider_gone (some o) fused name pairs m =
      if fused
      then without (map (λ p. name_row (sibling_row name p)) pairs) (members_of o m m.names)
      else left_behind (some o) name

  unfoldable pub provider_writes : Bool → Str → Schema → List (Str × Str) → List Row
  provider_writes fused name s pairs =
      if fused
      then map (sibling_row name) pairs
      else record {
        name = name;
        value = record { as_bytes = payload_json pairs };
        meta = provider_meta s.name (map pair_key pairs);
      }
        ∷ []

  abbrev pub commit_pairs :
      Form → Str → Schema → Option (List (Str × Str)) → Model → World → Model × World
  commit_pairs form name s none m w =
      (form_refuse (provider form) (codes "a required field is empty") m, w)
  commit_pairs form name s (some pairs) m w =
      let fused = is_fused form.editing m in
      commit_named (provider form) (provider_writes fused name s pairs)
        (provider_gone form.editing fused name pairs m) (rename_collision form name m) m w

  abbrev pub commit_schema : Form → Str → Option Schema → Model → World → Model × World
  commit_schema form name none m w = (form_refuse (provider form) (codes "unknown provider") m, w)
  commit_schema form name (some s) m w =
      commit_pairs form name s (build_payload s.fields (value_pairs form)) m w

  abbrev pub checked_provider :
      Form → Str → Result NameError (Unit {0}) → Model → World → Model × World
  checked_provider form name (err e) m w =
      (form_refuse (provider form) (codes "bad name: " ++ name_error_text e) m, w)
  checked_provider form name (ok _) m w =
      commit_schema form name (schema_named form.provider m.schemas) m w

  unfoldable pub commit_provider : Form → Model → World → Model × World
  unfolding commit form_refuse rename_collision is_fused provider_gone provider_writes
  commit_provider form m w =
      let name = trim (name_text form) in checked_provider form name (check_name name) m w

  abbrev pub delete_end : List Str → List Str → Model → Result Str (Map Str) × World → Model × World
  delete_end gone names m (ok written, w) =
      let n = length gone in
      let m1 = rebuild none (reshape h (committed [] gone names written m)) in
      (
        note (codes "deleted " ++ (decimal n ++ (codes " " ++ entry_word n)))
            (sync_detail h.from_str m1),
        w,
      )
  delete_end gone names m (err e, w) = reload_from_vault h (note (codes "save failed: " ++ e) m) w

  abbrev pub deleted_or :
      Option (Result Str (Map Str) × World)
      → Model × World
      → (Result Str (Map Str) × World → Model × World)
      → Model × World
  deleted_or none out f = out
  deleted_or (some r) out f = f r

  abbrev pub unless : Bool × Model → World → (Model → Model × World) → Model × World
  unless (true, m) w f = (m, w)
  unless (false, m) w f = f m

  unfoldable pub delete_rows : List Str → Model → World → Model × World
  unfolding held_rows without save_rows committed
  delete_rows gone m w =
      if is_empty gone
      then (m, w)
      else let names = without gone m.names in
        deleted_or (save_rows (held_rows m names) m w) (m, w) (delete_end gone names m)

  unfoldable pub commit_delete : List Str → Model → World → Model × World
  unfolding refuse_if_blocked delete_rows
  commit_delete gone m w =
      unless (refuse_if_blocked (record m { mode = idle })) w λ m1. delete_rows gone m1 w
