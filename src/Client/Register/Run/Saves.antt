-- ===== src/Client/Register/Run/Saves.antt =====
-- src/tui/model.rs: saving and deleting are runs.
use secd.Base.{ℕ, ◌≡◌, refl, inl, inr, Option, none, some, List, [], Bool-cases}
use secd.Base.Text.{Str, is_empty}
use secd.Base.Map.{Map}
use secd.Base.Result.{Result, ok, err}
use secd.Core.NameError.{NameError}
use secd.Client.Form.{Form, Schema}
use secd.Client.Bundles
use secd.Client.Remote.{Host}
use secd.Client.Register.{Model, Modal, idle, modal, add, pick, provider, delete, note}
use secd.Client.Register.Commit
use secd.Client.Register.Writes
use secd.Client.Register.Run.{FormLaws, InForm, Run, noted, shown, saved, reloaded}

module _ (h : Host) (Ok : Form → Type 0) (Char : ℕ → Type 0) (laws : FormLaws Ok Char) (m0 : Model)
    (w0 : h.World) where
  open h use {World}

  abbrev From : Model → World → Type 0
  From = Run h Ok m0 w0

  with_error-InForm :
      (md : Modal) (why : Str) → InForm Ok (modal md) → InForm Ok (modal (Writes.with_error why md))
  with_error-InForm (add form) why v = laws.of_refused why form v
  with_error-InForm (pick i) why v = tt
  with_error-InForm (provider form) why v = laws.of_refused why form v
  with_error-InForm (delete l ns) why v = tt

  refuse-From :
      {w : World} (md : Modal) (why : Str) (m : Model)
      → InForm Ok (modal md)
      → From m w
      → From (Writes.form_refuse md why m) w
  unfolding Writes.form_refuse
  refuse-From md why m v r = shown (noted r why) _ (with_error-InForm md why v)

  commit_end-From :
      (rows writes : List Bundles.Row) (gone names : List Str) (m : Model) (w : World)
      → m.save_blocked ≡ none
      → From m w
      → (r : Result Str (Map Str) × World) → Commit.save_rows h rows m w ≡ some r
      → From
          (Commit.commit_end h writes gone names m r).1
          (Commit.commit_end h writes gone names m r).2
  commit_end-From rows writes gone names m w b r (ok written, v) e =
      noted (saved r b rows writes gone names (Commit.first_name h writes) written v e) _
  commit_end-From rows writes gone names m w b r (err why, v) e = reloaded r b rows why v e

  saved_or-From :
      (o : Option (Result Str (Map Str) × World)) (why : Option Str) (m : Model) (w : World)
      (f : Result Str (Map Str) × World → Option Str × Model × World)
      → From m w
      → ((r : Result Str (Map Str) × World) → o ≡ some r → From (f r).1 (f r).2)
      → From (Commit.saved_or h o (why, m, w) f).1 (Commit.saved_or h o (why, m, w) f).2
  saved_or-From none why m w f r k = r
  saved_or-From (some x) why m w f r k = k x refl

  commit_unless-From :
      (o : Option Str) (writes : List Bundles.Row) (gone : List Str) (m : Model) (w : World)
      → m.save_blocked ≡ o
      → From m w
      → From
          (Commit.commit_unless h o writes gone m w).1
          (Commit.commit_unless h o writes gone m w).2
  commit_unless-From (some why) writes gone m w b r = r
  commit_unless-From none writes gone m w b r = elim (Bool-cases (is_empty writes)) [
    | inl e ↦ rw e r
    | inr e ↦ rw e (saved_or-From _ _ m w _ r (commit_end-From _ writes gone _ m w b r))
  ]

  refuse_end-From :
      (md : Modal) (x : Option Str × Model × World)
      → InForm Ok (modal md)
      → From x.1 x.2
      → From (Commit.refuse_end h md x).0 (Commit.refuse_end h md x).1
  refuse_end-From md (none, m, w) v r = r
  refuse_end-From md (some why, m, w) v r = refuse-From md why m v r

  commit_named-From :
      (md : Modal) (writes : List Bundles.Row) (gone : List Str) (o : Option Str) (m : Model)
      (w : World)
      → InForm Ok (modal md)
      → From m w
      → From
          (Commit.commit_named h md writes gone o m w).0
          (Commit.commit_named h md writes gone o m w).1
  unfolding Commit.commit
  commit_named-From md writes gone (some why) m w v r = refuse-From md why m v r
  commit_named-From md writes gone none m w v r =
      refuse_end-From md _ v (commit_unless-From m.save_blocked writes gone m w refl r)

  pub checked_single-From :
      (form : Form) (name : Str) (x : Result NameError (Unit {0})) (m : Model) (w : World)
      → Ok form
      → From m w
      → From (Commit.checked_single h form name x m w).0 (Commit.checked_single h form name x m w).1
  checked_single-From form name (err e) m w v r = refuse-From (add form) _ m v r
  checked_single-From form name (ok _) m w v r = commit_named-From (add form) _ _ _ m w v r

  commit_pairs-From :
      (form : Form) (name : Str) (s : Schema) (o : Option (List (Str × Str))) (m : Model)
      (w : World)
      → Ok form
      → From m w
      → From (Commit.commit_pairs h form name s o m w).0 (Commit.commit_pairs h form name s o m w).1
  commit_pairs-From form name s none m w v r = refuse-From (provider form) _ m v r
  commit_pairs-From form name s (some ps) m w v r = commit_named-From (provider form) _ _ _ m w v r

  commit_schema-From :
      (form : Form) (name : Str) (o : Option Schema) (m : Model) (w : World)
      → Ok form
      → From m w
      → From (Commit.commit_schema h form name o m w).0 (Commit.commit_schema h form name o m w).1
  commit_schema-From form name none m w v r = refuse-From (provider form) _ m v r
  commit_schema-From form name (some s) m w v r = commit_pairs-From form name s _ m w v r

  pub checked_provider-From :
      (form : Form) (name : Str) (x : Result NameError (Unit {0})) (m : Model) (w : World)
      → Ok form
      → From m w
      → From
          (Commit.checked_provider h form name x m w).0
          (Commit.checked_provider h form name x m w).1
  checked_provider-From form name (err e) m w v r = refuse-From (provider form) _ m v r
  checked_provider-From form name (ok _) m w v r = commit_schema-From form name _ m w v r

  delete_end-From :
      (rows : List Bundles.Row) (gone names : List Str) (m : Model) (w : World)
      → m.save_blocked ≡ none
      → From m w
      → (r : Result Str (Map Str) × World) → Commit.save_rows h rows m w ≡ some r
      → From (Commit.delete_end h gone names m r).0 (Commit.delete_end h gone names m r).1
  unfolding Commit.save_rows note
  delete_end-From rows gone names m w b r (ok written, v) e =
      noted (saved r b rows [] gone names none written v e) _
  delete_end-From rows gone names m w b r (err why, v) e = reloaded (noted r _) b rows why v e

  deleted_or-From :
      (o : Option (Result Str (Map Str) × World)) (m : Model) (w : World)
      (f : Result Str (Map Str) × World → Model × World)
      → From m w
      → ((r : Result Str (Map Str) × World) → o ≡ some r → From (f r).0 (f r).1)
      → From (Commit.deleted_or h o (m, w) f).0 (Commit.deleted_or h o (m, w) f).1
  deleted_or-From none m w f r k = r
  deleted_or-From (some x) m w f r k = k x refl

  delete_unless-From :
      (o : Option Str) (gone : List Str) (m : Model) (w : World)
      → m.save_blocked ≡ o
      → From m w
      → From
          (Commit.unless h (Writes.refuse_note o m) w (λ m1. Commit.delete_rows h gone m1 w)).0
          (Commit.unless h (Writes.refuse_note o m) w (λ m1. Commit.delete_rows h gone m1 w)).1
  unfolding Commit.delete_rows
  delete_unless-From (some why) gone m w b r = noted r _
  delete_unless-From none gone m w b r = elim (Bool-cases (is_empty gone)) [
    | inl e ↦ rw e r
    | inr e ↦ rw e (deleted_or-From _ m w _ r (delete_end-From _ gone _ m w b r))
  ]

  pub commit_delete-From :
      (gone : List Str) (m : Model) (w : World)
      → From m w
      → From (Commit.commit_delete h gone m w).0 (Commit.commit_delete h gone m w).1
  unfolding Commit.commit_delete Writes.refuse_if_blocked
  commit_delete-From gone m w r =
      delete_unless-From m.save_blocked gone (record m { mode = idle }) w refl (shown r idle tt)
