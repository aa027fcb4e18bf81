-- ===== src/Client/Register/Blocked.antt =====
-- src/tui/model.rs: a register that could not be read in full is not written.
use secd.Base.{ℕ, ◌≡◌, refl, sym, ap, ◌∙◌, ◌⊎◌, inl, inr, Option, none, some, List, arith}
use secd.Base.Text.{Str}
use secd.Base.Map.{Map}
use secd.Base.Json.{Value}
use secd.Core.Aead.{Secret}
use secd.Client.Form.{Form}
use secd.Client.Remote.{Host}
use secd.Client.Register.{Model, Event, note, rebuild}
use secd.Client.Register.Events
use secd.Client.Register.Laws.{sync_detail_lem}
use secd.Client.Register.Run.{
  Run, here, noted, flagged, revealed, shown, selected, listed, closed, copied, expired, saved,
  reloaded,
}
use secd.Client.Register.Run.Handle.{handle-Run_any}

-- What the register holds of the vault: names, values, metadata, the ciphertexts of the last reading, and
-- why it is not written.
abbrev pub held : Model → List Str × Map Secret × Map Value × Map Str × Option Str
held m = (m.names, m.values, m.meta, m.before, m.save_blocked)

abbrev pub Kept : Model → Model → Type 0
Kept m m' = held m' ≡ held m

module _ (h : Host) where
  -- Nothing went out but to the clipboard.
  abbrev pub Quiet : h.World → h.World → Type 0
  Quiet w w' = (w' ≡ w) ⊎ (((t : Str) × (w' ≡ h.clipboard_set t w)) ⊎ (w' ≡ h.clipboard_clear w))

  abbrev pub Still : Model → h.World → Model × h.World → Type 0
  Still m w (m', w') = Kept m m' × Quiet w w'

  module _ (Ok : Form → Type 0) (why : Str) (m : Model) (w : h.World)
      (b : m.save_blocked ≡ some why) where
    synced : (m' : Model) → Kept m m' → Kept m (Events.sync h m')
    synced m' p = ap held (sync_detail_lem h.from_str m') ∙ p

    placed : (m' : Model) (o : Option ℕ) → Kept m m' → Kept m (Events.selected_at h o m')
    placed m' none p = p
    placed m' (some i) p = p

    not_saved : {A : Type 0} (o : Option Str) → o ≡ m.save_blocked → o ≡ none → A
    not_saved o p e = let f = sym e ∙ (p ∙ b) in ground arith

    run-Still : {m' : Model} {w' : h.World} → Run h Ok m w m' w' → Still m w (m', w')
    unfolding note rebuild Events.close_bundle
    run-Still here = (refl, inl refl)
    run-Still (noted r s) = run-Still r
    run-Still (flagged r q k f) = run-Still r
    run-Still (revealed r p) = run-Still r
    run-Still (shown r md v) = run-Still r
    run-Still (selected r i le) = let (p, q) = run-Still r in (synced _ p, q)
    run-Still (listed r keep inside filter filtering) = let (p, q) = run-Still r in (synced _ p, q)
    run-Still (closed r) = let (p, q) = run-Still r in (synced _ (placed _ _ p), q)
    run-Still (copied r e text at) =
        ((run-Still r).0, inr (inl (text, ap (h.clipboard_set text) e)))
    run-Still (expired r e) = ((run-Still r).0, inr (inr (ap h.clipboard_clear e)))
    run-Still (saved r e rows writes gone names keep written v f) =
        not_saved _ (ap (λ x. x.4) (run-Still r).0) e
    run-Still (reloaded r e rows why v f) = not_saved _ (ap (λ x. x.4) (run-Still r).0) e

  module _ (why : Str) where
    -- Where the register is not to be written, no event changes what it holds of the vault, and none
    -- reaches the server: the world is as before but for the clipboard.
    pub handle-Still :
        (ev : Event) (m : Model) (w : h.World)
        → m.save_blocked ≡ some why
        → Still m w (Events.handle h ev m w)
    handle-Still ev m w b = run-Still _ why m w b (handle-Run_any h ev m w)
