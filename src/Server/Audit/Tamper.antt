-- ===== src/Server/Audit/Tamper.antt =====
-- Two chains under one head hold the same rows, or show a collision of SHA-256.
use secd.Base.{
  ℕ, Bool, true, not, ◌&&◌, ◌≡◌, ◌≢◌, refl, sym, ◌∙◌, subst, ◌⊎◌, inl, inr, List, [], ◌∷◌, ◌++◌,
  length, all, arith, ◌==◌, Bool-cases, and_true,
}
use secd.Base.Text.{Str, str_eq, str_eq_iff, is_lower_hex}
use secd.Server.Db.{AuditRow}
use secd.Server.Sha256.{sha256}
use secd.Server.Audit.{
  Encoders, zero_hash, or_empty, event_bytes, head_hash, event_hash, verify_from, verify_rows,
}

abbrev sep : ℕ
sep = 0x1f

abbrev pub no_sep : Str → Bool
no_sep = all (λ b. not (b == 0x1f))

-- Texts before their first separator are determined.
cut_at_sep :
    (a b x y : Str)
    → no_sep a ≡ true
    → no_sep b ≡ true
    → a ++ sep ∷ x ≡ b ++ sep ∷ y
    → (a ≡ b) × (x ≡ y)
cut_at_sep [] [] x y ha hb e = (refl, ground arith)
cut_at_sep [] (c ∷ b) x y ha hb e = absurd (ground arith)
cut_at_sep (c ∷ a) [] x y ha hb e = absurd (ground arith)
cut_at_sep (c ∷ a) (d ∷ b) x y ha hb e = ground (arith, cut_at_sep a b x y)

-- Two rows with the same content, where a missing session and an empty one count as the same.
pub record SameRow (r s : AuditRow) : Type 0 where
  pub action : r.action ≡ s.action
  pub session : or_empty r.session_id ≡ or_empty s.session_id
  pub names : r.names ≡ s.names
  pub prev_hash : r.prev_hash ≡ s.prev_hash
  pub hash : r.hash ≡ s.hash

abbrev pub SameRows : List AuditRow → List AuditRow → Type 0
SameRows [] [] = Unit
SameRows (r ∷ rs) (s ∷ ss) = SameRow r s × SameRows rs ss
SameRows _ _ = ⊥

-- Actions and session ids hold no byte 0x1f; the program's actions are constants and its ids UUIDs.
abbrev pub is_plain : AuditRow → Bool
is_plain r = no_sep r.action && no_sep (or_empty r.session_id)

module _ (enc : Encoders) where
  -- The bytes that two rows hash behind `p` and `q` differ, and their hashes are the same.
  abbrev pub AreForged : Str → Str → AuditRow → AuditRow → Type 0
  AreForged p q r s =
      (event_bytes p r.action r.session_id r.names ≢ event_bytes q s.action s.session_id s.names)
      × (event_hash enc p r.action r.session_id r.names
          ≡ event_hash enc q s.action s.session_id s.names)

  -- Rows at one place of two chains, each behind the row before it, that hash different bytes to the
  -- same hash.
  abbrev pub Clash : Str → Str → List AuditRow → List AuditRow → Type 0
  Clash p q (r ∷ rs) (s ∷ ss) = AreForged p q r s ⊎ Clash r.hash s.hash rs ss
  Clash _ _ _ _ = ⊥

  -- The hash is written in lower-case hexadecimal digits.
  abbrev pub IsHex : Type 0
  IsHex = (bytes : List ℕ) → all is_lower_hex (enc.hex_encode bytes) ≡ true

no_sep_of_hex : (s : Str) → all is_lower_hex s ≡ true → no_sep s ≡ true
no_sep_of_hex [] h = refl
no_sep_of_hex (b ∷ s) h =
    let (x, y) = (and_true (is_lower_hex b) (all is_lower_hex s)).0 h in
    (and_true _ _).1 (ground arith, no_sep_of_hex s y)

event_bytes_cut :
    (p q : Str) (r s : AuditRow)
    → no_sep p ≡ true
    → no_sep q ≡ true
    → is_plain r ≡ true
    → is_plain s ≡ true
    → event_bytes p r.action r.session_id r.names ≡ event_bytes q s.action s.session_id s.names
    → (p ≡ q)
      × (r.action ≡ s.action)
      × (or_empty r.session_id ≡ or_empty s.session_id)
      × (r.names ≡ s.names)
unfolding event_bytes
event_bytes_cut p q r s hp hq hr hs e =
    let (ra, ri) = (and_true (no_sep r.action) (no_sep (or_empty r.session_id))).0 hr in
    let (sa, si) = (and_true (no_sep s.action) (no_sep (or_empty s.session_id))).0 hs in
    let (e₁, e₂) = cut_at_sep p q _ _ hp hq e in
    let (e₃, e₄) = cut_at_sep r.action s.action _ _ ra sa e₂ in
    let (e₅, e₆) = cut_at_sep (or_empty r.session_id) (or_empty s.session_id) _ _ ri si e₄ in
    (e₁, e₃, e₅, e₆)

module _ (enc : Encoders) (hex : IsHex enc) where
  -- The first row of a verified chain.
  verify_from-cons :
      (prev : Str) (r : AuditRow) (rs : List AuditRow)
      → verify_from enc prev (r ∷ rs) ≡ true
      → (r.prev_hash ≡ prev)
        × (event_hash enc prev r.action r.session_id r.names ≡ r.hash)
        × (verify_from enc r.hash rs ≡ true)
  unfolding verify_from
  verify_from-cons prev r rs h = (
    (str_eq_iff r.prev_hash prev).0 (ground arith),
    (str_eq_iff _ r.hash).0 (ground arith),
    ground arith,
  )

  hash-no_sep :
      (p : Str) (r : AuditRow) (h : Str)
      → event_hash enc p r.action r.session_id r.names ≡ h
      → no_sep h ≡ true
  unfolding event_hash
  hash-no_sep p r h e =
      subst (λ s. no_sep s ≡ true) e
        (no_sep_of_hex (enc.hex_encode (sha256 (event_bytes p r.action r.session_id r.names)))
          (hex (sha256 (event_bytes p r.action r.session_id r.names))))

  compare_chains :
      (p q : Str) (rs ss : List AuditRow)
      → no_sep p ≡ true
      → no_sep q ≡ true
      → all is_plain rs ≡ true
      → all is_plain ss ≡ true
      → length rs ≡ length ss
      → verify_from enc p rs ≡ true
      → verify_from enc q ss ≡ true
      → head_hash p rs ≡ head_hash q ss
      → ((p ≡ q) × SameRows rs ss) ⊎ Clash enc p q rs ss
  unfolding head_hash
  compare_chains p q [] [] np nq a b len vr vs heads = inl (heads, tt)
  compare_chains p q [] (s ∷ ss) np nq a b len vr vs heads = absurd (omega arith)
  compare_chains p q (r ∷ rs) [] np nq a b len vr vs heads = absurd (omega arith)
  compare_chains p q (r ∷ rs) (s ∷ ss) np nq a b len vr vs heads =
      let (pr, hr, vr') = verify_from-cons p r rs vr in
      let (ps, hs, vs') = verify_from-cons q s ss vs in
      let (ar, ars) = (and_true (is_plain r) (all is_plain rs)).0 a in
      let (bs, bss) = (and_true (is_plain s) (all is_plain ss)).0 b in
      let nr = hash-no_sep p r r.hash hr in
      let ns = hash-no_sep q s s.hash hs in
      let x = event_bytes p r.action r.session_id r.names in
      let y = event_bytes q s.action s.session_id s.names in
      elim (compare_chains r.hash s.hash rs ss nr ns ars bss (omega arith) vr' vs' heads) [
        | inr c ↦ inr (inr c)
        | inl (same, rest) ↦ elim (Bool-cases (str_eq x y)) [
          | inr ne ↦ inr (inl ((λ e. cc ((str_eq_iff x y).1 e)), hr ∙ same ∙ sym hs))
          | inl eq ↦
              let (e₁, e₂, e₃, e₄) = event_bytes_cut p q r s np nq ar bs ((str_eq_iff x y).0 eq) in
              inl (
                e₁,
                (
                  record {
                    action = e₂;
                    session = e₃;
                    names = e₄;
                    prev_hash = pr ∙ e₁ ∙ sym ps;
                    hash = same;
                  },
                  rest,
                ),
              )
        ]
      ]

  -- Tamper evidence: let two tables of audit rows have the same length and the same head, let both
  -- verify, and let no action and no session id of either hold the byte 0x1f, where hashes are written
  -- in lower-case hexadecimal digits. Then row for row they have the same action, names, previous hash
  -- and hash, and the same session id, where a missing one and an empty one are not told apart; or else
  -- at some place the two rows hash different bytes to the same hash, a collision of SHA-256.
  pub verify_rows_tamper_evident :
      (rs ss : List AuditRow)
      → all is_plain rs ≡ true
      → all is_plain ss ≡ true
      → length rs ≡ length ss
      → verify_rows enc rs ≡ true
      → verify_rows enc ss ≡ true
      → head_hash zero_hash rs ≡ head_hash zero_hash ss
      → SameRows rs ss ⊎ Clash enc zero_hash zero_hash rs ss
  unfolding verify_rows
  verify_rows_tamper_evident rs ss a b len vr vs heads =
      elim (compare_chains zero_hash zero_hash rs ss refl refl a b len vr vs heads) [
        | inl r ↦ inl r.1
        | inr c ↦ inr c
      ]
