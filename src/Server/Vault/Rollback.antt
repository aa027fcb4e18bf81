-- ===== src/Server/Vault/Rollback.antt =====
-- What a rollback restores, and what it keeps.
use secd.Base.{
  ℕ, Bool, true, false, ◌&&◌, ◌≡◌, refl, ap, sym, ◌∙◌, ◌⊎◌, inl, inr, Option, none, some, List, [],
  ◌∷◌, ◌++◌, if◌then◌else◌, arith, Bool-cases, subst, ==_iff, ◌==◌, and_true,
}
use secd.Base.Text.{Str, codes, str_eq, str_eq_iff, str_eq_refl}
use secd.Server.Db.{EntryRow, VersionRow, Tables}
use secd.Server.Db.Atomic.{
  Gives, Gives-bind, Gives-select, Gives-exec_then, Gives-pure, Gives-immediate,
}
use secd.Server.Audit.{Encoders, AuditEvent, append_on, next_row}
use secd.Server.Audit.Chain.{append_on_lem}
use secd.Server.Vault.{
  has_name, of_name, history, next_version, insert_version, find_version, other_entries,
  upsert_entry, restore, rollback,
}
use secd.Server.Vault.History.{
  history-append_same, history-append_other, IsNumbered, insert_version-IsNumbered,
}

-- The current row of a name.
unfoldable pub find_entry : Str → List EntryRow → Option EntryRow
find_entry n [] = none
find_entry n (r ∷ rs) = let rest = find_entry n rs in if has_name n r then some r else rest

find_entry-upsert_same :
    (r : EntryRow) (rs : List EntryRow)
    → find_entry r.name (other_entries r.name rs ++ r ∷ []) ≡ some r
unfolding find_entry other_entries
find_entry-upsert_same r [] = rw (str_eq_refl r.name) refl
find_entry-upsert_same r (x ∷ rs) = ground (arith, find_entry-upsert_same r rs)

find_entry-upsert_other :
    (n : Str) (r : EntryRow) (rs : List EntryRow)
    → str_eq r.name n ≡ false
    → find_entry n (other_entries r.name rs ++ r ∷ []) ≡ find_entry n rs
unfolding find_entry other_entries
find_entry-upsert_other n r [] h = rw h refl
find_entry-upsert_other n r (x ∷ rs) h = ground (
  arith,
  str_eq_iff x.name n,
  str_eq_iff x.name r.name,
  str_eq_iff r.name n,
  find_entry-upsert_other n r rs,
)

find_version_sound :
    (name : Str) (seq : ℕ) (vs : List VersionRow) (v : VersionRow)
    → find_version name seq vs ≡ some v
    → (v.name ≡ name) × (v.seq ≡ seq)
unfolding find_version
find_version_sound name seq [] v h = absurd (cc)
find_version_sound name seq (x ∷ vs) v h = elim (Bool-cases (of_name name x && (x.seq == seq))) [
  | inr e ↦ find_version_sound name seq vs v (rw e at h)
  | inl e ↦
      let q : some x ≡ some v = rw e at h in
      let same : x ≡ v = cc q in
      let (a, b) = (and_true (of_name name x) (x.seq == seq)).0 e in
      subst (λ (y : VersionRow). (y.name ≡ name) × (y.seq ≡ seq)) same
        ((str_eq_iff x.name name).0 a, (==_iff x.seq seq).0 b)
]

module _ (enc : Encoders) where
  -- The tables after a version was restored.
  abbrev pub restored : Str → Str → Option Str → VersionRow → Tables → Tables
  restored created name session_id v t =
      let t₁ =
        insert_version name v.ciphertext v.meta created
          (upsert_entry (record { name = name; ciphertext = v.ciphertext; meta = v.meta }) t) in
      record t₁ {
        audit =
            t.audit ++ next_row enc t.audit (codes "vault.rollback") session_id (name ∷ []) ∷ [];
      }

  restore_cases :
      (created name : Str) (session_id : Option Str) (o : Option VersionRow) (t t' : Tables)
      (p : Bool × Option AuditEvent)
      → Gives (restore enc created name session_id o) t p t'
      → ((p.0 ≡ false) × (o ≡ none) × (t' ≡ t))
        ⊎ ((v : VersionRow) × (p.0 ≡ true)
            × (o ≡ some v)
            × (t' ≡ restored created name session_id v t))
  unfolding restore
  restore_cases created name session_id none t t' p g =
      let (same, kept) = Gives-pure g in
      inl (ap (λ (q : Bool × Option AuditEvent). q.0) same, refl, kept)
  restore_cases created name session_id (some v) t t' p g =
      let (ev, s, logged, last) =
        Gives-bind (append_on enc (codes "vault.rollback") session_id (name ∷ [])) _
          (Gives-exec_then _ _ (Gives-exec_then _ _ g)) in
      let (same, kept) = Gives-pure last in
      inr (
        v,
        ap (λ (q : Bool × Option AuditEvent). q.0) same,
        refl,
        kept ∙ append_on_lem enc (codes "vault.rollback") session_id (name ∷ []) _ s ev logged,
      )

  -- The two outcomes of a rollback, with what they mean for the name and for another one.
  abbrev pub RolledBack : Str → Str → ℕ → Option Str → Str → Bool → Tables → Tables → Type 0
  RolledBack created name seq session_id other hit t t' =
      ((hit ≡ false) × (find_version name seq t.versions ≡ none) × (t' ≡ t))
      ⊎ ((v : VersionRow) × (hit ≡ true)
          × (find_version name seq t.versions ≡ some v)
          × (v.name ≡ name)
          × (v.seq ≡ seq)
          × (find_entry name t'.entries
              ≡ some (record { name = name; ciphertext = v.ciphertext; meta = v.meta }))
          × (history name t'.versions
              ≡ history name t.versions
                ++ next_version name v.ciphertext v.meta created t.versions ∷ [])
          × ((str_eq name other ≡ true)
              ⊎ ((find_entry other t'.entries ≡ find_entry other t.entries)
                  × (history other t'.versions ≡ history other t.versions)))
          × (t'.audit
              ≡ t.audit
                ++ next_row enc t.audit (codes "vault.rollback") session_id (name ∷ []) ∷ []))

  -- What a rollback that returned has done: the name has no version of that number and nothing is done; or the
  -- entry of the name holds the ciphertext and the metadata of the version again, its history is what
  -- it was with a copy of the version at its end under the next number, every other name has the
  -- entry and the history that it had, and one audit row is appended.
  pub rollback_lem :
      (created name : Str) (seq : ℕ) (session_id : Option Str) (other : Str) (t t' : Tables)
      (p : Bool × Option AuditEvent)
      → Gives (rollback enc created name seq session_id) t p t'
      → RolledBack created name seq session_id other p.0 t t'
  unfolding rollback
  rollback_lem created name seq session_id other t t' p g =
      elim (restore_cases created name session_id _ t t' p
        (Gives-select _ _ (Gives-immediate _ g))) [
          | inl (miss, absent, same) ↦ inl (miss, absent, same)
          | inr (v, hit, found, ends) ↦
              let (named, numbered) = find_version_sound name seq t.versions v found in
              let r : EntryRow = record { name = name; ciphertext = v.ciphertext; meta = v.meta } in
              let w = next_version name v.ciphertext v.meta created t.versions in
              inr (
                v,
                hit,
                found,
                named,
                numbered,
                rw ends (find_entry-upsert_same r t.entries),
                rw ends (history-append_same name t.versions w (str_eq_refl name)),
                elim (Bool-cases (str_eq name other)) [
                  | inl same ↦ inl same
                  | inr apart ↦ inr (
                    rw ends (find_entry-upsert_other other r t.entries apart),
                    rw ends (history-append_other other t.versions w apart),
                  )
                ],
                rw ends refl,
              )
        ]

  -- A rollback that returned leaves the history of every name numbered from 1 on without a gap, where
  -- it was so before.
  pub rollback-IsNumbered :
      (created name : Str) (seq : ℕ) (session_id : Option Str) (t t' : Tables)
      (p : Bool × Option AuditEvent)
      → IsNumbered t.versions
      → Gives (rollback enc created name seq session_id) t p t'
      → IsNumbered t'.versions
  unfolding rollback
  rollback-IsNumbered created name seq session_id t t' p h g =
      elim (restore_cases created name session_id _ t t' p
        (Gives-select _ _ (Gives-immediate _ g))) [
          | inl (_, _, same) ↦ subst (λ (x : Tables). IsNumbered x.versions) (sym same) h
          | inr (v, _, _, ends) ↦
              subst (λ (x : Tables). IsNumbered x.versions) (sym ends)
                (insert_version-IsNumbered name v.ciphertext v.meta created
                  (upsert_entry (record { name = name; ciphertext = v.ciphertext; meta = v.meta })
                    t)
                  h)
        ]
