-- ===== src/Client/Register/Tests.antt =====
-- The theorems of src/tui/model.rs at a register that has loaded a vault with one entry.
use secd.Base.{refl, true, some, [], ◌∷◌, ◌++◌, inl, arith, replicate}
use secd.Base.Text.{Str, codes}
use secd.Client.Form
use secd.Client.Remote.Sample.{sample, dek, nonce, response}
use secd.Client.Register.{Model, Event, modal, add, new}
use secd.Client.Register.Load.{load}
use secd.Client.Register.Events.{handle}
use secd.Client.Register.Reveal.{Hides, handle-Hides}
use secd.Client.Register.Blocked.{Still, handle-Still}
use secd.Client.Register.Placed.{IsRegister}
use secd.Client.Register.Saved.{load-IsRegister}
use secd.Client.Register.Sound.{handle-IsRegister, new-IsRegister}

abbrev ciphertext : Str
ciphertext = nonce ++ (codes "v2" ++ replicate 16 0)

-- The register behind its first loading.
abbrev opened : Model
opened =
    (load sample (record new { token = some (codes "t"); dek = some dek })
      (response ciphertext ∷ [])).0

handle-IsRegister_example : IsRegister (handle sample (Event.key b'a') opened []).0
handle-IsRegister_example =
    handle-IsRegister sample (Event.key b'a') opened [] (inl (omega arith)) (
      load-IsRegister sample (record new { token = some (codes "t"); dek = some dek })
        (response ciphertext ∷ []) new-IsRegister)

-- A value is on the screen, and the selection moves.
abbrev shown : Model
shown = record opened { reveal_all = true }

handle-Hides_example : Hides shown (handle sample Event.down shown []).0
handle-Hides_example = handle-Hides sample Event.down shown []

-- Enter on a form of a register that is not to be written.
abbrev blocked : Model
blocked = record new {
  token = some (codes "t");
  dek = some dek;
  mode = modal (add (Form.single (codes "K") (codes "v")));
  save_blocked = some (codes "vault: 1 of 2 entries did not decode");
}

handle-Still_example : Still sample blocked [] (handle sample Event.enter blocked [])
handle-Still_example =
    handle-Still sample (codes "vault: 1 of 2 entries did not decode") Event.enter blocked [] refl
