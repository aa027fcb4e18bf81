-- ===== src/Server/Vault/Insert.antt =====
-- The loop of `replace_entries` over the entries that it inserts.
use secd.Base.{
  Bool, true, false, not, ◌≡◌, refl, ap, sym, ◌∙◌, inl, inr, some, List, [], ◌∷◌, ◌++◌, append-nil,
  append_assoc, map, any, all, if◌then◌else◌, arith, Bool-cases, if_intro, subst,
}
use secd.Base.Text.{Str, str_eq, str_eq_iff, str_eq_comm}
use secd.Base.Map.{Map}
use secd.Server.Db.{EntryRow, VersionRow, Tables, pure, exec}
use secd.Server.Db.Atomic.{Gives, Gives-bind, Gives-step, Gives-exec, Gives-pure}
use secd.Server.Vault.{
  Json, VaultEntry, has_name, history, max_seq, next_version, insert_entry, insert_version,
  entry_row, is_changed, add_version, insert_entries,
}
use secd.Server.Vault.History.{
  history-append_other, history-append_same, max_seq-append_other, IsNumbered,
  insert_version-IsNumbered,
}

insert_entry-eq-some :
    (r : EntryRow) (t t' : Tables) {u : Unit {0}}
    → insert_entry r t ≡ some (u, t')
    → (t' ≡ record t { entries = t.entries ++ r ∷ [] }) × (any (has_name r.name) t.entries ≡ false)
insert_entry-eq-some r t t' h = elim (Bool-cases (any (has_name r.name) t.entries)) [
  | inl e ↦ absurd (ground arith)
  | inr e ↦ (ground arith, e)
]

any-append :
    (n : Str) (rs : List EntryRow) (r : EntryRow)
    → any (has_name n) (rs ++ r ∷ []) ≡ false
    → (any (has_name n) rs ≡ false) × (str_eq r.name n ≡ false)
any-append n [] r h = (refl, ground arith)
any-append n (x ∷ rs) r h = let rest = any-append n rs r in ground (arith, rest)

module _ (json : Json) (created : Str) (before : Map Str) where
  -- The version that a snapshot gives to a name: none where the name is not in it or its ciphertext
  -- is what it was.
  unfoldable pub added : Str → List VersionRow → List VaultEntry → List VersionRow
  added n vs [] = []
  added n vs (e ∷ es) =
      let rest = added n vs es in
      if str_eq e.name n
      then (if is_changed json before e
          then next_version e.name (json.to_string e.ciphertext) (json.to_string e.meta) created vs
            ∷ []
          else [])
      else rest

  -- No entry of the list has the name of a row.
  abbrev are_new : List EntryRow → List VaultEntry → Bool
  are_new rows = all (λ e. not (any (has_name e.name) rows))

  added_absent :
      (n : Str) (vs : List VersionRow) (es : List VaultEntry)
      → all (λ e. not (str_eq e.name n)) es ≡ true
      → added n vs es ≡ []
  unfolding added
  added_absent n vs [] h = refl
  added_absent n vs (e ∷ es) h = ground (arith, added_absent n vs es)

  added_same_top :
      (n : Str) (vs ws : List VersionRow) (es : List VaultEntry)
      → max_seq n vs ≡ max_seq n ws
      → added n vs es ≡ added n ws es
  unfolding added
  added_same_top n vs ws [] h = refl
  added_same_top n vs ws (e ∷ es) h = elim (Bool-cases (str_eq e.name n)) [
    | inr other ↦ rw other (added_same_top n vs ws es h)
    | inl same ↦
        let q : max_seq e.name vs ≡ max_seq e.name ws =
          subst (λ m. max_seq m vs ≡ max_seq m ws) (sym ((str_eq_iff e.name n).0 same)) h in
        rw (same, q) refl
  ]

  -- What the loop over the entries has done.
  pub record Inserted (es : List VaultEntry) (t t' : Tables) : Type 0 where
    pub entries : t'.entries ≡ t.entries ++ map (entry_row json) es
    fresh : are_new t.entries es ≡ true
    pub histories :
        (n : Str) → history n t'.versions ≡ history n t.versions ++ added n t.versions es
    pub rest : t' ≡ record t { entries = t'.entries; versions = t'.versions }

  are_new-append :
      (rows : List EntryRow) (r : EntryRow) (es : List VaultEntry)
      → are_new (rows ++ r ∷ []) es ≡ true
      → (are_new rows es ≡ true) × (all (λ e. not (str_eq e.name r.name)) es ≡ true)
  are_new-append rows r [] h = (refl, refl)
  are_new-append rows r (e ∷ es) h =
      let (a, b) = are_new-append rows r es (ground arith) in
      let (p, q) = any-append e.name rows r (ground arith) in
      let q' : str_eq e.name r.name ≡ false = str_eq_comm e.name r.name ∙ q in
      (rw (p, a) refl, rw (q', b) refl)

  -- One entry: its row, and its version if its ciphertext is new.
  abbrev with_entry : VaultEntry → Tables → Tables
  with_entry e t =
      let t₁ = record t { entries = t.entries ++ entry_row json e ∷ [] } in
      if is_changed json before e
      then insert_version e.name (json.to_string e.ciphertext) (json.to_string e.meta) created t₁
      else t₁

  add_version_lem :
      (e : VaultEntry) (t t' : Tables) {u : Unit {0}}
      → Gives (add_version json created before e) t u t'
      → t' ≡ (
          if is_changed json before e
          then insert_version e.name (json.to_string e.ciphertext) (json.to_string e.meta) created t
          else t)
  add_version_lem e t t' g = elim (Bool-cases (is_changed json before e)) [
    | inl new ↦
        let ran : Gives
            (exec
              (insert_version e.name (json.to_string e.ciphertext) (json.to_string e.meta) created))
            t _ t' =
          rw new at g in
        rw new (Gives-exec _ ran)
    | inr old ↦ let ran : Gives (pure tt) t _ t' = rw old at g in rw old (Gives-pure ran).1
  ]

  entry_history :
      (n : Str) (e : VaultEntry) (es : List VaultEntry) (t : Tables)
      → all (λ x. not (str_eq x.name e.name)) es ≡ true
      → history n (with_entry e t).versions ++ added n (with_entry e t).versions es
        ≡ history n t.versions ++ added n t.versions (e ∷ es)
  unfolding added
  entry_history n e es t apart = elim (Bool-cases (is_changed json before e)) [
    | inr old ↦ elim (Bool-cases (str_eq e.name n)) [
      | inr other ↦ rw (old, other) refl
      | inl same ↦
          let none_left : added n t.versions es ≡ [] = added_absent n t.versions es (
            subst (λ m. all (λ x. not (str_eq x.name m)) es ≡ true) ((str_eq_iff e.name n).0 same)
              apart) in
          rw (old, same, none_left) refl
    ]
    | inl new ↦
        let v =
          next_version e.name (json.to_string e.ciphertext) (json.to_string e.meta) created
            t.versions in
        elim (Bool-cases (str_eq e.name n)) [
          | inr other ↦
              let kept = history-append_other n t.versions v other in
              let top =
                added_same_top n (t.versions ++ v ∷ []) t.versions es
                  (max_seq-append_other n t.versions v other) in
              rw (new, other, kept, top) refl
          | inl same ↦
              let none_left : added n (t.versions ++ v ∷ []) es ≡ [] =
                added_absent n (t.versions ++ v ∷ []) es (
                  subst (λ m. all (λ x. not (str_eq x.name m)) es ≡ true)
                    ((str_eq_iff e.name n).0 same) apart) in
              let grown = history-append_same n t.versions v same in
              rw (new, same, none_left, grown) (append-nil (history n t.versions ++ v ∷ []))
        ]
  ]

  with_entry_entries :
      (e : VaultEntry) (t : Tables)
      → ((with_entry e t).entries ≡ t.entries ++ entry_row json e ∷ [])
        × ((es : List EntryRow) (vs : List VersionRow)
            → record (with_entry e t) { entries = es; versions = vs }
              ≡ record t { entries = es; versions = vs })
  with_entry_entries e t = elim (Bool-cases (is_changed json before e)) [
    | inl new ↦ (rw new refl, λ es vs. rw new refl)
    | inr old ↦ (rw old refl, λ es vs. rw old refl)
  ]

  record Versions (t : Tables) : Type 0 where
    valid : IsNumbered t.versions

  Inserted-cons :
      (e : VaultEntry) (es : List VaultEntry) (t t' : Tables)
      → any (has_name e.name) t.entries ≡ false
      → Inserted es (with_entry e t) t'
      → Inserted (e ∷ es) t t'
  Inserted-cons e es t t' free more =
      let (rows, rest) = with_entry_entries e t in
      let (fresh, apart) =
        are_new-append t.entries (entry_row json e) es
          (subst (λ l. are_new l es ≡ true) rows more.fresh) in
      record {
        entries =
            more.entries
            ∙ ap (λ l. l ++ map (entry_row json) es) rows
            ∙ append_assoc t.entries (entry_row json e ∷ []) (map (entry_row json) es);
        fresh = rw (free, fresh) refl;
        histories = λ n. more.histories n ∙ entry_history n e es t apart;
        rest = more.rest ∙ rest t'.entries t'.versions;
      }

  pub insert_entries-Inserted :
      (es : List VaultEntry) (t t' : Tables) {u : Unit {0}}
      → Gives (insert_entries json created before es) t u t'
      → Inserted es t t'
  unfolding insert_entries added
  insert_entries-Inserted [] t t' g =
      let (_, same) = Gives-pure g in
      record {
        entries = rw (same, append-nil t.entries) refl;
        fresh = refl;
        histories = λ n. rw (same, append-nil (history n t.versions)) refl;
        rest = rw same refl;
      }
  insert_entries-Inserted (e ∷ es) t t' g =
      let (p, inserted, later) = Gives-step (insert_entry (entry_row json e)) _ g in
      let (t₁, free) = insert_entry-eq-some (entry_row json e) t p.1 inserted in
      let (_, s, versioned, loop) = Gives-bind (add_version json created before e) _ later in
      let s-is : s ≡ with_entry e t =
        add_version_lem e p.1 s versioned
        ∙ ap
            (λ (x : Tables).
              if is_changed json before e
              then insert_version e.name (json.to_string e.ciphertext) (json.to_string e.meta)
                  created x
              else x)
            t₁ in
      Inserted-cons e es t t' free
        (subst (λ x. Inserted es x t') s-is (insert_entries-Inserted es s t' loop))

  pub insert_entries-IsNumbered :
      (es : List VaultEntry) (t t' : Tables) {u : Unit {0}}
      → IsNumbered t.versions
      → Gives (insert_entries json created before es) t u t'
      → IsNumbered t'.versions
  unfolding insert_entries
  insert_entries-IsNumbered [] t t' h g =
      subst (λ (x : Tables). IsNumbered x.versions) (sym (Gives-pure g).1) h
  insert_entries-IsNumbered (e ∷ es) t t' h g =
      let (p, inserted, later) = Gives-step (insert_entry (entry_row json e)) _ g in
      let (t₁, free) = insert_entry-eq-some (entry_row json e) t p.1 inserted in
      let (_, s, versioned, loop) = Gives-bind (add_version json created before e) _ later in
      insert_entries-IsNumbered es s t'
        (subst (λ (x : Tables). IsNumbered x.versions) (sym (add_version_lem e p.1 s versioned))
          (if_intro Versions (is_changed json before e)
            (λ _. record { valid = insert_version-IsNumbered e.name _ _ created p.1 (was p t₁) })
            (λ _. record { valid = was p t₁ })).valid)
        loop
    where
      was :
          (p : Unit {0} × Tables)
          → p.1 ≡ record t { entries = t.entries ++ entry_row json e ∷ [] }
          → IsNumbered p.1.versions
      was p q = subst (λ (x : Tables). IsNumbered x.versions) (sym q) h
