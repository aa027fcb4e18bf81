-- ===== src/Server/Vault/Wraps.antt =====
-- The table of wraps, which a replacement of the vault fills anew from `users.json`.
use secd.Base.{
  ◌≡◌, refl, ap, sym, ◌∙◌, Option, none, some, List, [], ◌∷◌, ◌++◌, append_assoc, append-nil,
}
use secd.Base.Text.{Str}
use secd.Server.Db.{WrapRow, Tables, Conn, ◌>>◌, exec, stored, stored_in}
use secd.Server.Db.Atomic.{Gives, Gives-exec_then, Gives-pure, Gives-immediate}
use secd.Server.Db.Undone.{
  IsWithin, Outcome, Outcome-shut, Outcome-stored, immediate_atomic, pure-IsWithin,
  statement-IsWithin, bind-IsWithin,
}
use secd.Server.Vault.{Json, insert_wraps, replace_wraps, rows_of, replace_or_keep, sync_wraps}

insert_wraps-IsWithin : (ws : List WrapRow) → IsWithin (insert_wraps ws)
unfolding insert_wraps
insert_wraps-IsWithin [] = pure-IsWithin tt
insert_wraps-IsWithin (w ∷ ws) =
    bind-IsWithin _ _ (statement-IsWithin _) (λ _. insert_wraps-IsWithin ws)

insert_wraps_lem :
    (ws : List WrapRow) (t t' : Tables) {u : Unit {0}}
    → Gives (insert_wraps ws) t u t'
    → t' ≡ record t { wraps = t.wraps ++ ws }
unfolding insert_wraps
insert_wraps_lem [] t t' g =
    (Gives-pure g).1 ∙ (λ i. record t { wraps = sym (append-nil t.wraps) i })
insert_wraps_lem (w ∷ ws) t t' g =
    insert_wraps_lem ws _ t' (Gives-exec_then _ _ g)
    ∙ (λ i. record t { wraps = append_assoc t.wraps (w ∷ []) ws i })

-- A replacement of the wraps that returned leaves exactly the rows that it was given.
replace_wraps_lem :
    (ws : List WrapRow) (t t' : Tables) {u : Unit {0}}
    → Gives (replace_wraps ws) t u t'
    → t' ≡ record t { wraps = ws }
unfolding replace_wraps
replace_wraps_lem ws t t' g = insert_wraps_lem ws _ t' (Gives-exec_then _ _ (Gives-immediate _ g))

-- What the table of wraps is behind the transaction: the rows of `users.json`, the rows that it held
-- where there is no such file or it is no JSON, or where the transaction of `replace_wraps` failed on `e`.
pub data Wraps (file : Option (List WrapRow)) (e : Conn) (before after : List WrapRow)
    : Type 0 where
  no_file : file ≡ none → after ≡ before → Wraps file e before after
  synced : (rows : List WrapRow) → file ≡ some rows → after ≡ rows → Wraps file e before after
  refused :
      (rows : List WrapRow)
      → file ≡ some rows
      → (replace_wraps rows e).0 ≡ none
      → after ≡ before
      → Wraps file e before after

-- The tables that the database holds, up to the wraps.
pub record Synced (file : Option (List WrapRow)) (e d : Conn) : Type 0 where
  pub rows : List WrapRow
  pub wraps : Wraps file e e.tables.wraps rows
  pub others : stored d ≡ record e.tables { wraps = rows }

replace_wraps-Synced :
    (ws : List WrapRow) (e : Conn) → e.open_from ≡ none → Synced (some ws) e (replace_wraps ws e).1
unfolding replace_wraps
replace_wraps-Synced ws e shut = by_result (replace_wraps ws e) refl (
    immediate_atomic _ e (bind-IsWithin _ _ (statement-IsWithin _) (λ _. insert_wraps-IsWithin ws)))
  where
    by_result :
        (r : Option (Unit {0}) × Conn)
        → replace_wraps ws e ≡ r
        → Outcome (exec (λ t. record t { wraps = [] }) >> insert_wraps ws) e r
        → Synced (some ws) e r.1
    by_result (none, d) ran o = record {
      rows = e.tables.wraps;
      wraps = refused ws refl (ap (λ (r : Option (Unit {0}) × Conn). r.0) ran) refl;
      others = Outcome-stored _ e _ o refl ∙ ap (λ x. stored_in x e.tables) shut;
    }
    by_result (some u, d) ran o =
        let done : d.tables ≡ record e.tables { wraps = ws } =
          replace_wraps_lem ws e.tables d.tables
            (record { before = e; after = d; starts = refl; runs = ran; ends = refl }) in
        record {
          rows = ws;
          wraps = synced ws refl refl;
          others = ap (λ x. stored_in x d.tables) (Outcome-shut _ e (some u, d) o refl).1 ∙ done;
        }

replace_or_keep-Synced :
    (file : Option (List WrapRow)) (e : Conn)
    → e.open_from ≡ none
    → Synced file e (replace_or_keep file e).1
replace_or_keep-Synced none e shut = record {
  rows = e.tables.wraps;
  wraps = no_file refl refl;
  others = ap (λ x. stored_in x e.tables) shut;
}
replace_or_keep-Synced (some ws) e shut = replace_wraps-Synced ws e shut

pub sync_wraps-Synced :
    (json : Json) (users : Option Str) (e : Conn)
    → e.open_from ≡ none
    → Synced (rows_of json users) e (sync_wraps json users e).1
unfolding sync_wraps
sync_wraps-Synced json users e shut = replace_or_keep-Synced (rows_of json users) e shut
