-- ===== src/Client/Register/Saved.antt =====
-- src/tui/model.rs: what a loading, a save and a deletion keep of the register.
use secd.Base.{ℕ, inl, inr, Option, none, some, List, [], ◌∷◌, ◌++◌, ltb, Bool-cases}
use secd.Base.Text.{Str, codes, is_empty}
use secd.Base.Result.{Result, ok, err}
use secd.Core.Aead.{Secret}
use secd.Client.Form.{Schema}
use secd.Client.Bundles
use secd.Client.Remote.{Host, VaultLoad}
use secd.Client.Remote.Calls.{load_vault, fetch_schemas}
use secd.Client.Register.{Model, note}
use secd.Client.Register.Load
use secd.Client.Register.Placed.{
  Tidy, IsRegister, rebuild-IsRegister, note-IsRegister, sync-IsRegister,
}

pub add_entries-Tidy : (es : List Bundles.Row) (m : Model) → Tidy m → Tidy (Load.add_entries es m)
unfolding Load.add_entries
add_entries-Tidy [] m t = t
add_entries-Tidy (e ∷ es) m t = add_entries-Tidy es _ t

module _ (h : Host) where
  open h use {World}

  pub loaded-IsRegister :
      (m : Model) (r : Result Str VaultLoad × World)
      → IsRegister m
      → IsRegister (Load.loaded h m r).0
  unfolding Load.apply_loaded
  loaded-IsRegister m (ok l, w) p =
      sync-IsRegister h _ (rebuild-IsRegister none _ (add_entries-Tidy l.entries _ p.1))
  loaded-IsRegister m (err e, w) p = p

  pub load_register-IsRegister :
      (m : Model) (w : World) → IsRegister m → IsRegister (Load.load_register h m w).0
  unfolding Load.load_register
  load_register-IsRegister m w p = with_keys m.token m.dek
    where
      with_keys :
          (t : Option Str) (d : Option Secret)
          → IsRegister
              (Load.keys_of h t d (m, w) λ token dek. Load.loaded h m (load_vault h token dek w)).0
      with_keys none d = p
      with_keys (some t) none = p
      with_keys (some t) (some d) = loaded-IsRegister m _ p

  pub fetched-IsRegister :
      (m : Model) (r : Result Str (List Schema × ℕ) × World)
      → IsRegister m
      → IsRegister (Load.fetched h m r).0
  fetched-IsRegister m (err e, w) p = note-IsRegister _ m p
  fetched-IsRegister m (ok (schemas, n), w) p = elim (Bool-cases (is_empty schemas)) [
    | inl e ↦ rw e (note-IsRegister _ m p)
    | inr e ↦ elim (Bool-cases (ltb 0 n)) [
      | inl f ↦ rw (e, f) (note-IsRegister _ m p)
      | inr f ↦ rw (e, f) p
    ]
  ]

  pub load_schemas-IsRegister :
      (m : Model) (w : World) → IsRegister m → IsRegister (Load.load_schemas h m w).0
  unfolding Load.load_schemas
  load_schemas-IsRegister m w p = with_token m.token
    where
      with_token :
          (t : Option Str)
          → IsRegister
              (elim t as (λ _. Model × World) [
                | none ↦ (m, w)
                | some token ↦ Load.fetched h m (fetch_schemas h token w)
              ]).0
      with_token none = p
      with_token (some t) = fetched-IsRegister m (fetch_schemas h t w) p

  pub note_blocked-IsRegister : (m : Model) → IsRegister m → IsRegister (Load.note_blocked h m)
  note_blocked-IsRegister m p = with_reason m.save_blocked
    where
      with_reason :
          (o : Option Str)
          → IsRegister (elim o [ none ↦ m | some why ↦ note (codes "saves refused: " ++ why) m ])
      with_reason none = p
      with_reason (some why) = note-IsRegister _ m p

  pub load-IsRegister : (m : Model) (w : World) → IsRegister m → IsRegister (Load.load h m w).0
  unfolding Load.load
  load-IsRegister m w p = sync-IsRegister h _ (
      load_schemas-IsRegister _ _
        (note_blocked-IsRegister _ (note-IsRegister _ _ (load_register-IsRegister m w p))))

  pub reload-IsRegister :
      (m : Model) (w : World) → IsRegister m → IsRegister (Load.reload_from_vault h m w).0
  unfolding Load.reload_from_vault
  reload-IsRegister m w p =
      sync-IsRegister h _
        (load_schemas-IsRegister _ _ (note_blocked-IsRegister _ (load_register-IsRegister m w p)))
