-- ===== src/Client/Register/Load.antt =====
-- src/tui/model.rs: loading the register. A loading replaces all that it holds of the vault.
use secd.Base.{ℕ, ◌+◌, false, Option, none, some, List, [], ◌∷◌, ◌++◌, length, ltb, if◌then◌else◌}
use secd.Base.Text.{Str, codes, is_empty}
use secd.Base.Decimal.{decimal}
use secd.Base.Map.{lookup, insert}
use secd.Base.Ordered.{sort}
use secd.Base.Result.{Result, ok, err}
use secd.Base.Json.{Value, object, end}
use secd.Core.Aead.{Secret}
use secd.Client.Form.{Schema}
use secd.Client.Bundles.{Row, shapes_of}
use secd.Client.Remote.{Host, VaultLoad, drop_refusal}
use secd.Client.Remote.Calls.{load_vault, fetch_schemas}
use secd.Client.Register.{Model, note, rebuild}
use secd.Client.Register.Detail.{sync_detail}

abbrev pub no_meta : Value
no_meta = object end

abbrev pub or_empty : Option Value → Value
or_empty none = no_meta
or_empty (some v) = v

-- A row of what the register holds under a name.
abbrev pub held_row : Model → Str → Option Secret → Option Row
held_row m n none = none
held_row m n (some v) = some (record { name = n; value = v; meta = or_empty (lookup n m.meta) })

abbrev pub cons_row : Option Row → List Row → List Row
cons_row none rows = rows
cons_row (some r) rows = r ∷ rows

unfoldable pub held_rows : Model → List Str → List Row
held_rows m [] = []
held_rows m (n ∷ ns) = cons_row (held_row m n (lookup n m.values)) (held_rows m ns)

abbrev pub set_blocked : VaultLoad → Model → Model
set_blocked l m = record m {
  save_blocked = drop_refusal l;
  before = l.before;
  names = [];
  values = [];
  meta = [];
  reveal_all = false;
}

unfoldable pub add_entries : List Row → Model → Model
add_entries [] m = m
add_entries (e ∷ es) m = add_entries es (record m {
  names = m.names ++ e.name ∷ [];
  values = insert e.name e.value m.values;
  meta = insert e.name e.meta m.meta;
})

module _ (h : Host) where
  open h use {World}

  unfoldable pub reshape : Model → Model
  reshape m = record m { shapes = shapes_of h.from_str (held_rows m m.names) }

  unfoldable pub apply_loaded : VaultLoad → Model → Model
  unfolding add_entries
  apply_loaded l m =
      let cleared = record (set_blocked l m) { shapes = shapes_of h.from_str l.entries } in
      let filled = add_entries l.entries cleared in
      sync_detail h.from_str (rebuild none (record filled { names = sort filled.names }))

  abbrev pub loaded : Model → Result Str VaultLoad × World → Model × World
  loaded m (ok l, w) = (apply_loaded l m, w)
  loaded m (err e, w) = (record m { save_blocked = some (codes "vault: " ++ e) }, w)

  -- `(self.token, self.dek)` where both are there
  abbrev pub keys_of {ℓ} : {A : Type ℓ} → Option Str → Option Secret → A → (Str → Secret → A) → A
  keys_of (some token) (some dek) out f = f token dek
  keys_of _ _ out f = out

  unfoldable pub load_register : Model → World → Model × World
  load_register m w =
      keys_of m.token m.dek (m, w) (λ token dek. loaded m (load_vault h token dek w))

  abbrev pub fetched : Model → Result Str (List Schema × ℕ) × World → Model × World
  fetched m (err e, w) = (note (codes "providers: " ++ (e ++ codes ", built-ins only")) m, w)
  fetched m (ok (schemas, n), w) =
      if is_empty schemas
      then (note (codes "providers: empty list, built-ins only") m, w)
      else if ltb 0 n
      then (
        record (note
            (codes "providers: "
              ++ (decimal n
                  ++ (codes " of " ++ (decimal (length schemas + n) ++ codes " unreadable"))))
            m) { schemas = schemas },
        w,
      )
      else (record m { schemas = schemas }, w)

  unfoldable pub load_schemas : Model → World → Model × World
  load_schemas m w = elim m.token [
    | none ↦ (m, w)
    | some token ↦ fetched m (fetch_schemas h token w)
  ]

  abbrev pub note_blocked : Model → Model
  note_blocked m = elim m.save_blocked [
    | none ↦ m
    | some why ↦ note (codes "saves refused: " ++ why) m
  ]

  unfoldable pub load : Model → World → Model × World
  unfolding load_register load_schemas
  load m w =
      let (m1, w1) = load_register m w in
      let (m2, w2) =
        load_schemas (note_blocked (note (codes "loaded " ++ decimal (length m1.names)) m1)) w1 in
      (sync_detail h.from_str m2, w2)

  unfoldable pub reload_from_vault : Model → World → Model × World
  unfolding load_register load_schemas
  reload_from_vault m w =
      let (m1, w1) = load_register m w in
      let (m2, w2) = load_schemas (note_blocked m1) w1 in (sync_detail h.from_str m2, w2)
