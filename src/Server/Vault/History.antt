-- ===== src/Server/Vault/History.antt =====
-- Histories of versions: what an insertion does to the history of each name, and their numbering.
use Prim.Native.Nat.{max}
use secd.Base.{
  ℕ, suc, ◌+◌, true, false, ◌≡◌, refl, sym, inl, inr, List, [], ◌∷◌, ◌++◌, length, arith,
  Bool-cases, subst,
}
use secd.Base.Text.{Str, str_eq, str_eq_iff}
use secd.Server.Db.{VersionRow, Tables}
use secd.Server.Vault.{history, max_seq, of_name, next_version, insert_version}

pub history-append_other :
    (n : Str) (vs : List VersionRow) (v : VersionRow)
    → of_name n v ≡ false
    → history n (vs ++ v ∷ []) ≡ history n vs
unfolding history
history-append_other n [] v h = rw h refl
history-append_other n (x ∷ vs) v h = ground (arith, history-append_other n vs v)

pub history-append_same :
    (n : Str) (vs : List VersionRow) (v : VersionRow)
    → of_name n v ≡ true
    → history n (vs ++ v ∷ []) ≡ history n vs ++ v ∷ []
unfolding history
history-append_same n [] v h = rw h refl
history-append_same n (x ∷ vs) v h = ground (arith, history-append_same n vs v)

pub max_seq-append_other :
    (n : Str) (vs : List VersionRow) (v : VersionRow)
    → of_name n v ≡ false
    → max_seq n (vs ++ v ∷ []) ≡ max_seq n vs
unfolding max_seq
max_seq-append_other n [] v h = rw h refl
max_seq-append_other n (x ∷ vs) v h = ground (arith, max_seq-append_other n vs v)

-- The versions are numbered one after another, above `k`.
abbrev pub Numbered : ℕ → List VersionRow → Type 0
Numbered k [] = Unit
Numbered k (v ∷ vs) = (v.seq ≡ suc k) × Numbered (suc k) vs

-- The history of every name is numbered from 1 on, without a gap.
pub record IsNumbered (vs : List VersionRow) : Type 0 where
  pub numbered : (n : Str) → Numbered 0 (history n vs)

-- The largest number of a list, above a bound.
abbrev pub top : List VersionRow → ℕ
top [] = 0
top (v ∷ vs) = max v.seq (top vs)

max_seq-history : (n : Str) (vs : List VersionRow) → max_seq n vs ≡ top (history n vs)
unfolding max_seq history
max_seq-history n [] = refl
max_seq-history n (v ∷ vs) = ground (arith, max_seq-history n vs)

top-Numbered : (k : ℕ) (vs : List VersionRow) → Numbered k vs → max k (top vs) ≡ k + length vs
top-Numbered k [] h = omega arith
top-Numbered k (v ∷ vs) (e, h) = omega (arith, e, top-Numbered (suc k) vs h)

Numbered-append :
    (k : ℕ) (vs : List VersionRow) (v : VersionRow)
    → Numbered k vs
    → v.seq ≡ k + length vs + 1
    → Numbered k (vs ++ v ∷ [])
Numbered-append k [] v h e = (omega arith, tt)
Numbered-append k (x ∷ vs) v (f, h) e = (f, Numbered-append (suc k) vs v h (omega arith))

pub insert_version-IsNumbered :
    (name ct meta created : Str) (t : Tables)
    → IsNumbered t.versions
    → IsNumbered (insert_version name ct meta created t).versions
insert_version-IsNumbered name ct meta created t h = record { numbered = each }
  where
    row : VersionRow
    row = next_version name ct meta created t.versions

    each : (n : Str) → Numbered 0 (history n (t.versions ++ row ∷ []))
    each n = elim (Bool-cases (str_eq name n)) [
      | inr other ↦
          subst (Numbered 0) (sym (history-append_other n t.versions row other)) (h.numbered n)
      | inl same ↦
          let e : name ≡ n = (str_eq_iff name n).0 same in
          let count = top-Numbered 0 (history n t.versions) (h.numbered n) in
          let highest = max_seq-history n t.versions in
          let number : row.seq ≡ 0 + length (history n t.versions) + 1 =
            subst (λ m. max_seq m t.versions + 1 ≡ 0 + length (history n t.versions) + 1) (sym e)
              (omega (arith, count, highest)) in
          subst (Numbered 0) (sym (history-append_same n t.versions row same))
            (Numbered-append 0 (history n t.versions) row (h.numbered n) number)
    ]
