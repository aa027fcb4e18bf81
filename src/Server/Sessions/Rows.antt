-- ===== src/Server/Sessions/Rows.antt =====
-- What the row operations of `sessions` do to a search.
use secd.Base.{
  Bool, true, false, not, ◌||◌, ◌≡◌, refl, sym, inl, inr, none, some, List, [], ◌∷◌, ◌++◌, any, all,
  In, arith, Bool-cases,
}
use secd.Server.Db.{SessionRow, Tables}
use secd.Server.Sessions.{delete_where, find_row, update_where, has_hash, has_id, insert_row}

module _ (p : SessionRow → Bool) where
  pub find_row_sound :
      (rs : List SessionRow) (r : SessionRow) → find_row p rs ≡ some r → In r rs × (p r ≡ true)
  unfolding find_row
  find_row_sound [] r h = absurd (cc)
  find_row_sound (x ∷ rs) r h = elim (Bool-cases (p x)) [
    | inl e ↦ let same : x ≡ r = ground arith in (inl (sym same), rw (← same) e)
    | inr e ↦ let (there, good) = find_row_sound rs r (ground arith) in (inr there, good)
  ]

  pub find_row-delete_self : (rs : List SessionRow) → find_row p (delete_where p rs) ≡ none
  unfolding find_row delete_where
  find_row-delete_self [] = refl
  find_row-delete_self (x ∷ rs) = ground (arith, find_row-delete_self rs)

  pub find_row-append :
      (rs : List SessionRow) (r : SessionRow)
      → any p rs ≡ false
      → p r ≡ true
      → find_row p (rs ++ r ∷ []) ≡ some r
  unfolding find_row
  find_row-append [] r h k = rw k
  find_row-append (x ∷ rs) r h k = ground (arith, find_row-append rs r)

  module _ (q : SessionRow → Bool) where
    -- A found row that is not deleted is still found.
    pub find_row-delete_keep :
        (rs : List SessionRow) (r : SessionRow)
        → find_row p rs ≡ some r
        → q r ≡ false
        → find_row p (delete_where q rs) ≡ some r
    unfolding find_row delete_where
    find_row-delete_keep [] r h k = absurd (cc)
    find_row-delete_keep (x ∷ rs) r h k = ground (arith, find_row-delete_keep rs r)

    pub find_row-delete_sound :
        (rs : List SessionRow) (r : SessionRow)
        → find_row p (delete_where q rs) ≡ some r
        → In r rs × (p r ≡ true) × (q r ≡ false)
    unfolding find_row delete_where
    find_row-delete_sound [] r h = absurd (cc)
    find_row-delete_sound (x ∷ rs) r h = elim (Bool-cases (q x)) [
      | inl e ↦
          let (there, good, kept) = find_row-delete_sound rs r (ground arith) in
          (inr there, good, kept)
      | inr e ↦ elim (Bool-cases (p x)) [
        | inl d ↦ let same : x ≡ r = ground arith in (inl (sym same), rw (← same) d, rw (← same) e)
        | inr d ↦
            let (there, good, kept) = find_row-delete_sound rs r (ground arith) in
            (inr there, good, kept)
      ]
    ]

    -- Deleting rows that the search does not look for changes nothing that it finds.
    pub find_row-delete_other :
        ((r : SessionRow) → p r ≡ true → q r ≡ false)
        → (rs : List SessionRow) → find_row p (delete_where q rs) ≡ find_row p rs
    unfolding find_row delete_where
    find_row-delete_other apart [] = refl
    find_row-delete_other apart (x ∷ rs) = ground (arith, apart x, find_row-delete_other apart rs)

  pub find_row-delete_last :
      (q : SessionRow → Bool) (rs : List SessionRow) (r : SessionRow)
      → any p rs ≡ false
      → q r ≡ true
      → find_row p (delete_where q (rs ++ r ∷ [])) ≡ none
  unfolding find_row delete_where
  find_row-delete_last q [] r h k = rw k
  find_row-delete_last q (x ∷ rs) r h k = ground (arith, find_row-delete_last q rs r)

  -- If nothing is found, nothing is found among fewer rows.
  pub find_row-delete_none :
      (q : SessionRow → Bool) (rs : List SessionRow)
      → find_row p rs ≡ none
      → find_row p (delete_where q rs) ≡ none
  unfolding find_row delete_where
  find_row-delete_none q [] h = refl
  find_row-delete_none q (x ∷ rs) h = ground (arith, find_row-delete_none q rs)

  pub all-delete_where : (rs : List SessionRow) → all (λ r. not (p r)) (delete_where p rs) ≡ true
  unfolding delete_where
  all-delete_where [] = refl
  all-delete_where (x ∷ rs) = ground (arith, all-delete_where rs)

  pub find_row-update :
      (f : SessionRow → SessionRow) (rs : List SessionRow) (r : SessionRow)
      → ((x : SessionRow) → p (f x) ≡ p x)
      → find_row p rs ≡ some r
      → find_row p (update_where p f rs) ≡ some (f r)
  unfolding find_row
  find_row-update f [] r keep h = absurd (cc)
  find_row-update f (x ∷ rs) r keep h = ground (arith, keep x, find_row-update f rs r keep)

any_left :
    (p q : SessionRow → Bool) (rs : List SessionRow)
    → any (λ s. p s || q s) rs ≡ false
    → any p rs ≡ false
any_left p q [] h = refl
any_left p q (x ∷ rs) h = ground (arith, any_left p q rs)

-- An insertion that sqlite took: the row is new by its hash, and it stands at the end.
pub insert_row-eq-some :
    (r : SessionRow) (t t' : Tables) {u : Unit {0}}
    → insert_row r t ≡ some (u, t')
    → (t' ≡ record t { sessions = t.sessions ++ r ∷ [] })
      × (any (has_hash r.token_hash) t.sessions ≡ false)
insert_row-eq-some r t t' h =
    elim (Bool-cases (any (λ s. has_hash r.token_hash s || has_id r.id s) t.sessions)) [
      | inl e ↦ absurd (ground arith)
      | inr e ↦ (ground arith, any_left (has_hash r.token_hash) (has_id r.id) t.sessions e)
    ]
