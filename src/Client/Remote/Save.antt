-- ===== src/Client/Remote/Save.antt =====
-- What a save that succeeds has done.
use secd.Base.{◌≡◌, ◌∙◌, List}
use secd.Base.Text.{Str}
use secd.Base.Map.{Map}
use secd.Base.Ordered.{same_map}
use secd.Base.Ordered.Laws.{same_map_iff}
use secd.Base.Result.{ok}
use secd.Core.Aead.{Secret}
use secd.Client.Bundles.{Row}
use secd.Client.Remote.Io.{io-bind, ensure-ok, with_context-ok, context_of}
use secd.Client.Remote.{Host}
use secd.Client.Remote.Calls.{load_ciphertexts, put_vault, save_entries_read_back, read_back_failed}

-- A save that returns found the vault as the caller had loaded it, wrote its rows, and read back
-- exactly what it had sent, which is what it returns.
pub save_entries_read_back_sound :
    (h : Host) (token : Str) (dek : Secret) (rows : List Row) (before sent : Map Str)
    (w w' : h.World)
    → save_entries_read_back h token dek rows before w ≡ (ok sent, w')
    → (w1 : h.World) × (w2 : h.World) × (load_ciphertexts h token w ≡ (ok before, w1))
      × (put_vault h token dek rows w1 ≡ (ok sent, w2))
      × (load_ciphertexts h token w2 ≡ (ok sent, w'))
unfolding save_entries_read_back
save_entries_read_back_sound h token dek rows before sent w w' e =
    let (now, w1, loaded, e1) = io-bind (load_ciphertexts h token w) _ e in
    let (same, e2) = ensure-ok (same_map now before) _ _ e1 in
    let (out, w2, put', e3) = io-bind (put_vault h token dek rows w1) _ e2 in
    let (back, w3, read, e4) =
      io-bind (context_of read_back_failed (load_ciphertexts h token w2)) _ e3 in
    let (same', e5) = ensure-ok (same_map back out) _ _ e4 in
    let was = (same_map_iff now before).0 same in
    let is = (same_map_iff back out).0 same' in
    let read' = with_context-ok read_back_failed (load_ciphertexts h token w2) read in
    let sent_out : out ≡ sent = cc e5 in
    let last : w3 ≡ w' = cc e5 in (w1, w2, rw (← was) loaded, rw (← sent_out) put', (read' ∙ cc))
