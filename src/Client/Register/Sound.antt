-- ===== src/Client/Register/Sound.antt =====
-- src/tui/model.rs: what every event keeps of the register.
use secd.Base.{ℕ, ◌≤◌, refl, ◌⊎◌, inl, inr, arith}
use secd.Base.Map.{lookup}
use secd.Base.Utf8.{IsScalar}
use secd.Client.Form.Bounds.{IsForm, Edit, edit-IsForm, single-IsForm, schema-IsForm}
use secd.Client.Tree
use secd.Client.Remote.{Host}
use secd.Client.Register.{Model, Event, new}
use secd.Client.Register.Load
use secd.Client.Register.Commit
use secd.Client.Register.Events
use secd.Client.Register.Run.{
  FormLaws, Run, here, noted, flagged, revealed, shown, selected, listed, closed, copied, expired,
  saved, reloaded,
}
use secd.Client.Register.Run.Handle.{Typed, handle-Run}
use secd.Client.Register.Placed.{
  IsRegister, at_row, note-IsRegister, rebuild-IsRegister, sync-IsRegister, close_bundle-IsRegister,
}
use secd.Client.Register.Saved.{reload-IsRegister}

pub new-IsRegister : IsRegister new
unfolding new Tree.rows lookup Tree.build
new-IsRegister = ((refl, refl, omega arith), (omega arith, tt))

form_laws : FormLaws IsForm IsScalar
form_laws = record {
  of_single = single-IsForm;
  of_schema = schema-IsForm;
  of_edited = λ name form v. record { focused = v.focused; lines = v.lines };
  of_refused = λ why form v. record { focused = v.focused; lines = v.lines };
  of_typed = λ c s form v. edit-IsForm (Edit.typed c s) form v;
  of_edit = edit-IsForm;
}

chosen_le : (i s n : ℕ) → (i ≤ n) ⊎ (i ≤ s) → s ≤ n → i ≤ n
chosen_le i s n (inl le) q = le
chosen_le i s n (inr le) q = omega arith

module _ (h : Host) where
  open h use {World}

  module _ (m : Model) (w : World) (p : IsRegister m) where
    run-IsRegister : {m' : Model} {w' : World} → Run h IsForm m w m' w' → IsRegister m'
    unfolding Load.reshape Commit.committed
    run-IsRegister here = p
    run-IsRegister (noted r s) = note-IsRegister s _ (run-IsRegister r)
    run-IsRegister (flagged r q k f) = run-IsRegister r
    run-IsRegister (revealed r q) = run-IsRegister r
    run-IsRegister (shown r md v) = let (a, (n, _)) = run-IsRegister r in (a, (n, v))
    run-IsRegister (selected {m' = m1} r i le) =
        let q = run-IsRegister r in sync-IsRegister h _ (at_row i m1 (chosen_le i _ _ le q.0.2) q)
    run-IsRegister (listed {m' = m1} r keep inside filter filtering) = sync-IsRegister h _ (
        rebuild-IsRegister keep
          (record m1 { inside = inside; filter = filter; filtering = filtering })
          (run-IsRegister r).1)
    run-IsRegister (closed r) = close_bundle-IsRegister h _ (run-IsRegister r)
    run-IsRegister (copied r e text at) = run-IsRegister r
    run-IsRegister (expired r e) = run-IsRegister r
    run-IsRegister (saved r b rows writes gone names keep written v e) =
        sync-IsRegister h _ (rebuild-IsRegister keep _ (run-IsRegister r).1)
    run-IsRegister (reloaded r b rows e v f) = reload-IsRegister h _ _ (run-IsRegister r)

  -- Every event whose character, if it has one, is a Unicode scalar value keeps the register one, saves
  -- that fail and reload included: rows of the index, a selection among them, a form that is well formed
  -- and at most 32 lines of activity.
  pub handle-IsRegister :
      (ev : Event) (m : Model) (w : World)
      → Typed IsScalar ev
      → IsRegister m
      → IsRegister (Events.handle h ev m w).0
  handle-IsRegister ev m w s p =
      run-IsRegister m w p (handle-Run h IsForm IsScalar form_laws ev m w s p.1.1)
