-- ===== src/Client/Tree/Shown.antt =====
-- When every entry of the register has a row.
use secd.Base.{
  true, false, ◌≡◌, ◌≢◌, refl, inl, inr, Option, none, some, List, [], ◌∷◌, In, arith, Bool-cases,
  Option-cases, subst,
}
use secd.Base.Text.{Str, str_eq, str_eq_iff, str_eq_refl}
use secd.Base.Map.{Map, lookup}
use secd.Base.Ordered.{has}
use secd.Base.Ordered.Laws.{lookup-put}
use secd.Client.Bundles.{BundleShape}
use secd.Client.Tree.{
  Row, Cred, Index, add_shapes, add_name, add_names, empty, build, owner_of, is_bundle, cred_row,
  matches, cred_rows, rows, is_many, opened,
}
use secd.Client.Tree.Rows.{All-has_self}
use secd.Client.Tree.Owned.{Distinct, Clear, Sound, Fresh, add_shapes-Sound, add_names-Sound}

-- Once owned, always owned; and every name of the loop is owned behind it.
add_name-owner :
    (n m : Str) (ix : Index) → lookup m ix.owner ≢ none → lookup m (add_name n ix).owner ≢ none
unfolding add_name
add_name-owner n m ix h q = elim (Option-cases (lookup n ix.owner)) [
  | inr (p, e) ↦ h (ground arith)
  | inl e ↦ h (ground (arith, lookup-put n m n ix.owner))
]

add_names-owner :
    (ns : List Str) (m : Str) (ix : Index)
    → lookup m ix.owner ≢ none
    → lookup m (add_names ns ix).owner ≢ none
unfolding add_names
add_names-owner [] m ix h = h
add_names-owner (n ∷ ns) m ix h = add_names-owner ns m (add_name n ix) (add_name-owner n m ix h)

add_name-owned : (n : Str) (ix : Index) → lookup n (add_name n ix).owner ≢ none
unfolding add_name
add_name-owned n ix q = elim (Option-cases (lookup n ix.owner)) [
  | inr (p, e) ↦ absurd (ground arith)
  | inl e ↦ absurd (ground (arith, lookup-put n n n ix.owner, str_eq_refl n))
]

pub add_names-owned :
    (ns : List Str) (n : Str) (ix : Index)
    → has n ns ≡ true
    → lookup n (add_names ns ix).owner ≢ none
unfolding add_names has
add_names-owned [] n ix h = absurd (cc)
add_names-owned (m ∷ ns) n ix h = elim (Bool-cases (str_eq m n)) [
  | inl e ↦ add_names-owner ns n (add_name m ix) (
      subst (λ k. lookup k (add_name m ix).owner ≢ none) ((str_eq_iff m n).0 e)
        (add_name-owned m ix))
  | inr e ↦ add_names-owned ns n (add_name m ix) (ground arith)
]

-- A credential that the index holds has its row, where nothing is open or filtered.
cred_row-In :
    (p : Str) (c : Cred) (m : Map Cred) → lookup p m ≡ some c → In (cred_row p c) (cred_rows [] m)
unfolding cred_rows lookup matches
cred_row-In p c [] e = absurd (cc)
cred_row-In p c ((q, d) ∷ m) e = elim (Bool-cases (str_eq q p)) [
  | inl same ↦ inl (ground (arith, str_eq_iff q p))
  | inr other ↦ inr (cred_row-In p c m (ground arith))
]

empty-Sound : (names : List Str) → Sound names empty
unfolding lookup
empty-Sound names = record { owned = λ n p e. absurd (cc); free = λ n h e. refl }

empty-Fresh : (ss : List BundleShape) → Fresh [] ss
unfolding lookup
empty-Fresh [] = tt
empty-Fresh (s ∷ ss) = (refl, empty-Fresh ss)

-- Where no bundle is open, the rows are those of the register.
shown :
    (r : Row) (register : List Row) (o : Option Cred)
    → is_many o ≡ false
    → In r register
    → In r (opened o register)
shown r register none q i = i
shown r register (some c) q i = rw q i

-- With shapes of different names, none of which is named like an entry outside it, every entry of the
-- register stands in the row of the credential that owns it.
pub entry_shown :
    (names : List Str) (shapes : List BundleShape) (n : Str)
    → Distinct shapes
    → Clear names shapes
    → is_bundle [] (build names shapes) ≡ false
    → has n names ≡ true
    → (r : Row) × In r (rows [] [] (build names shapes))
      × (has n r.members ≡ true)
      × (owner_of n (build names shapes) ≡ some r.label)
unfolding rows owner_of is_bundle build
entry_shown names shapes n d c none_open h =
    let ix : Index = add_shapes names shapes empty in
    let v =
      add_names-Sound names names ix (All-has_self names names (λ m k. k))
        (add_shapes-Sound names shapes empty d c (empty-Fresh shapes) (empty-Sound names)) in
    elim (Option-cases (lookup n (add_names names ix).owner)) [
      | inl e ↦ absurd (add_names-owned names n ix h e)
      | inr (p, e) ↦
          let (cred, l, m) = v.owned n p e in
          (
            cred_row p cred,
            shown _ _ (lookup [] (add_names names ix).creds) none_open
                (cred_row-In p cred (add_names names ix).creds l),
            m,
            e,
          )
    ]
