-- ===== src/Client/Tree/Owned.antt =====
-- The credential that owns an entry is in the index, and has the entry.
use secd.Base.{
  true, false, ◌≡◌, refl, inl, inr, none, some, List, [], ◌∷◌, All, arith, Bool-cases, Option-cases,
}
use secd.Base.Text.{Str, str_eq, str_eq_iff, str_eq_refl, is_empty}
use secd.Base.Map.{Map, lookup}
use secd.Base.Ordered.{put, has}
use secd.Base.Ordered.Laws.{lookup-put}
use secd.Client.Bundles.{BundleShape}
use secd.Client.Tree.{Cred, Index, held, own, add_shape, add_shapes, add_name, add_names}
use secd.Client.Tree.Rows.{has-held, lookup-own}

-- No two of the shapes have one name.
abbrev pub Distinct : List BundleShape → Type 0
Distinct [] = Unit
Distinct (s ∷ ss) = All (λ (t : BundleShape). str_eq s.name t.name ≡ false) ss × Distinct ss

-- A shape that is named like an entry of the register has that entry among its members.
abbrev pub Clear : List Str → List BundleShape → Type 0
Clear names = All (λ (s : BundleShape). has s.name names ≡ true → has s.name s.members ≡ true)

-- The credential of an owned entry is there and has the entry; and an entry that no shape owns is no
-- name of a credential.
pub record Sound (names : List Str) (ix : Index) : Type 0 where
  pub owned :
      (n p : Str)
      → lookup n ix.owner ≡ some p
      → (c : Cred) × (lookup p ix.creds ≡ some c) × (has n c.members ≡ true)
  pub free : (n : Str) → has n names ≡ true → lookup n ix.owner ≡ none → lookup n ix.creds ≡ none

-- No shape to come has a credential already.
abbrev pub Fresh : Map Cred → List BundleShape → Type 0
Fresh creds = All (λ (s : BundleShape). lookup s.name creds ≡ none)

Fresh-put :
    (p : Str) (c : Cred) (creds : Map Cred) (ss : List BundleShape)
    → All (λ (t : BundleShape). str_eq p t.name ≡ false) ss
    → Fresh creds ss
    → Fresh (put p c creds) ss
Fresh-put p c creds [] d f = tt
Fresh-put p c creds (s ∷ ss) (e, d) (h, f) =
    (rw (lookup-put p s.name c creds, e) h, Fresh-put p c creds ss d f)

add_shape-Sound :
    (names : List Str) (s : BundleShape) (ix : Index)
    → (has s.name names ≡ true → has s.name s.members ≡ true)
    → lookup s.name ix.creds ≡ none
    → Sound names ix
    → Sound names (add_shape names s ix)
unfolding add_shape
add_shape-Sound names s ix clear fresh v = elim (Bool-cases (is_empty (held names s.members))) [
  | inl e ↦ rw e v
  | inr e ↦ rw e (record { owned = owned; free = free })
]
  where
    ms : List Str
    ms = held names s.members

    c : Cred
    c = record { provider = s.provider; members = ms }

    owned :
        (n p : Str)
        → lookup n (own s.name ms ix.owner) ≡ some p
        → (d : Cred) × (lookup p (put s.name c ix.creds) ≡ some d) × (has n d.members ≡ true)
    owned n p q = elim (Bool-cases (has n ms)) [
      | inl h ↦ (
        c,
        ground
            (arith, lookup-own s.name ms n ix.owner, lookup-put s.name p c ix.creds, str_eq_refl p),
        h,
      )
      | inr h ↦
          let (d, l, m) = v.owned n p (ground (arith, lookup-own s.name ms n ix.owner)) in
          (d, ground (arith, lookup-put s.name p c ix.creds, str_eq_iff s.name p, fresh), m)
    ]

    free :
        (n : Str)
        → has n names ≡ true
        → lookup n (own s.name ms ix.owner) ≡ none
        → lookup n (put s.name c ix.creds) ≡ none
    free n h q = ground (
      arith,
      lookup-own s.name ms n ix.owner,
      lookup-put s.name n c ix.creds,
      str_eq_iff s.name n,
      v.free n,
      has-held names n s.members,
      clear,
    )

-- What a shape that is added leaves for the shapes to come.
add_shape-Fresh :
    (names : List Str) (s : BundleShape) (ix : Index) (ss : List BundleShape)
    → All (λ (t : BundleShape). str_eq s.name t.name ≡ false) ss
    → Fresh ix.creds ss
    → Fresh (add_shape names s ix).creds ss
unfolding add_shape
add_shape-Fresh names s ix ss d f = elim (Bool-cases (is_empty (held names s.members))) [
  | inl e ↦ rw e f
  | inr e ↦ rw e (Fresh-put s.name _ ix.creds ss d f)
]

pub add_shapes-Sound :
    (names : List Str) (ss : List BundleShape) (ix : Index)
    → Distinct ss
    → Clear names ss
    → Fresh ix.creds ss
    → Sound names ix
    → Sound names (add_shapes names ss ix)
unfolding add_shapes
add_shapes-Sound names [] ix d c f v = v
add_shapes-Sound names (s ∷ ss) ix (d, ds) (c, cs) (f, fs) v =
    add_shapes-Sound names ss (add_shape names s ix) ds cs (add_shape-Fresh names s ix ss d fs)
      (add_shape-Sound names s ix c f v)

pub add_name_kept : (n p : Str) (ix : Index) → lookup n ix.owner ≡ some p → add_name n ix ≡ ix
unfolding add_name
add_name_kept n p ix e = ground arith

abbrev pub own_cred : Str → Cred
own_cred n = record { provider = none; members = n ∷ [] }

abbrev pub with_name : Str → Index → Index
with_name n ix = record { owner = put n n ix.owner; creds = put n (own_cred n) ix.creds }

pub add_name_new :
    (n : Str) (ix : Index) → lookup n ix.owner ≡ none → add_name n ix ≡ with_name n ix
unfolding add_name
add_name_new n ix e = ground arith

add_name-Sound :
    (names : List Str) (n : Str) (ix : Index)
    → has n names ≡ true
    → Sound names ix
    → Sound names (add_name n ix)
unfolding has
add_name-Sound names n ix h v = elim (Option-cases (lookup n ix.owner)) [
  | inr (p, e) ↦ rw (add_name_kept n p ix e) v
  | inl e ↦ rw (add_name_new n ix e) (record { owned = owned e; free = free })
]
  where
    owned :
        lookup n ix.owner ≡ none
        → (m p : Str) → lookup m (put n n ix.owner) ≡ some p
        → (d : Cred) × (lookup p (put n (own_cred n) ix.creds) ≡ some d) × (has m d.members ≡ true)
    owned e m p q = elim (Bool-cases (str_eq n m)) [
      | inl same ↦ (
        own_cred n,
        ground
            (arith, lookup-put n m n ix.owner, lookup-put n p (own_cred n) ix.creds, str_eq_refl n),
        rw same refl,
      )
      | inr other ↦
          let (d, l, k) = v.owned m p (ground (arith, lookup-put n m n ix.owner)) in
          (d, ground (arith, lookup-put n p (own_cred n) ix.creds, str_eq_iff n p, v.free n h e), k)
    ]

    free :
        (m : Str)
        → has m names ≡ true
        → lookup m (put n n ix.owner) ≡ none
        → lookup m (put n (own_cred n) ix.creds) ≡ none
    free m k q =
        ground (arith, lookup-put n m n ix.owner, lookup-put n m (own_cred n) ix.creds, v.free m)

pub add_names-Sound :
    (names ns : List Str) (ix : Index)
    → All (λ n. has n names ≡ true) ns
    → Sound names ix
    → Sound names (add_names ns ix)
unfolding add_names
add_names-Sound names [] ix h v = v
add_names-Sound names (n ∷ ns) ix (k, h) v =
    add_names-Sound names ns (add_name n ix) h (add_name-Sound names n ix k v)
