-- ===== src/Client/Register/Reveal.antt =====
-- A value that is revealed stays on the screen only with the selection it was revealed for.
use secd.Base.{false, ◌≡◌, refl, ap, ◌⊎◌, inl, inr}
use secd.Client.Form.{Form}
use secd.Client.Remote.{Host}
use secd.Client.Register.{Model, Event, note}
use secd.Client.Register.Load
use secd.Client.Register.Events
use secd.Client.Register.Laws.{sync_detail_lem}
use secd.Client.Register.Run.{
  InPlace, Run, here, noted, flagged, revealed, shown, selected, listed, closed, copied, expired,
  saved, reloaded,
}
use secd.Client.Register.Run.Handle.{handle-Run_any}

-- Nothing is revealed, or the rows, the selection and the pane are those from before.
abbrev pub Hides : Model → Model → Type 0
Hides m m' = (m'.reveal_all ≡ false) ⊎ InPlace m m'

module _ (h : Host) (Ok : Form → Type 0) (m : Model) (w : h.World) where
  synced : (m' : Model) → Hides m (Events.sync h m')
  synced m' = inl (ap (λ (x : Model). x.reveal_all) (sync_detail_lem h.from_str m'))

  run-Hides : {m' : Model} {w' : h.World} → Run h Ok m w m' w' → Hides m m'
  unfolding note Events.close_bundle Load.reload_from_vault
  run-Hides here = inr (refl, refl, refl)
  run-Hides (noted r s) = run-Hides r
  run-Hides (flagged r q k f) = run-Hides r
  run-Hides (revealed r p) = inr p
  run-Hides (shown r md v) = run-Hides r
  run-Hides (selected r i le) = synced _
  run-Hides (listed r keep inside filter filtering) = synced _
  run-Hides (closed r) = synced _
  run-Hides (copied r e text at) = run-Hides r
  run-Hides (expired r e) = run-Hides r
  run-Hides (saved r b rows writes gone names keep written v e) = synced _
  run-Hides (reloaded r b rows e v f) = synced _

-- After any event, a value that is on the screen is that of the rows, the selection and the pane from
-- before the event.
pub handle-Hides :
    (h : Host) (ev : Event) (m : Model) (w : h.World) → Hides m (Events.handle h ev m w).0
handle-Hides h ev m w = run-Hides h _ m w (handle-Run_any h ev m w)
