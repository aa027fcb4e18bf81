-- ===== src/Client/Tree/Hidden.antt =====
-- An entry that is named like a bundle beside it takes the row of the bundle.
use secd.Base.{
  Bool, true, false, ◌≡◌, ◌≢◌, refl, sym, ◌⊎◌, inl, inr, Option, none, some, List, [], ◌∷◌, All,
  any, arith, Bool-cases, subst,
}
use secd.Base.Text.{Str, str_eq, str_eq_iff, is_empty}
use secd.Base.Map.{Map, lookup}
use secd.Base.Ordered.{put, has}
use secd.Base.Ordered.Laws.{lookup-put, IsOrdered, put-IsOrdered, All-lookup}
use secd.Client.Bundles.{BundleShape}
use secd.Client.Tree.{
  Row, Cred, Index, held, own, add_shape, add_shapes, add_names, empty, build, is_bundle, matches,
  cred_rows, rows, is_many, opened,
}
use secd.Client.Tree.Rows.{has-held, lookup-own}
use secd.Client.Tree.Owned.{own_cred}
use secd.Client.Tree.Shown.{add_names-owned}
use secd.Client.Tree.Taken.{Taken, add_names-Taken}

-- While the shapes are added: no credential but `p` has `n`, and `p` is no owned entry.
record Claimed (n p : Str) (ix : Index) : Type 0 where
  pub owned : (lookup n ix.owner ≡ none) ⊎ (lookup n ix.owner ≡ some p)
  pub elsewhere :
      (k : Str) (c : Cred)
      → lookup k ix.creds ≡ some c
      → str_eq p k ≡ false
      → has n c.members ≡ false
  pub unowned : lookup p ix.owner ≡ none
  pub ordered : IsOrdered ix.creds

-- A shape with the member `n` is named `p`, and none has the member `p`.
abbrev pub Claims : Str → Str → List BundleShape → Type 0
Claims n p = All (λ (s : BundleShape).
    (str_eq p s.name ≡ false → has n s.members ≡ false) × (has p s.members ≡ false))

abbrev pub has_member : Str → BundleShape → Bool
has_member n s = has n s.members

add_shape-Claimed :
    (names : List Str) (n p : Str) (s : BundleShape) (ix : Index)
    → (str_eq p s.name ≡ false → has n s.members ≡ false)
    → has p s.members ≡ false
    → Claimed n p ix
    → Claimed n p (add_shape names s ix)
unfolding add_shape
add_shape-Claimed names n p s ix only without v =
    elim (Bool-cases (is_empty (held names s.members))) [
      | inl e ↦ rw e v
      | inr e ↦ rw e (record {
        owned = owned v.owned;
        elsewhere = elsewhere;
        unowned =
            ground (arith, lookup-own s.name ms p ix.owner, has-held names p s.members, v.unowned);
        ordered = put-IsOrdered s.name _ ix.creds v.ordered;
      })
    ]
  where
    ms : List Str
    ms = held names s.members

    c : Cred
    c = record { provider = s.provider; members = ms }

    owned :
        (lookup n ix.owner ≡ none) ⊎ (lookup n ix.owner ≡ some p)
        → (lookup n (own s.name ms ix.owner) ≡ none) ⊎ (lookup n (own s.name ms ix.owner) ≡ some p)
    owned r = elim (Bool-cases (has n ms)) [
      | inl h ↦ inr (
          ground (
            arith,
            lookup-own s.name ms n ix.owner,
            has-held names n s.members,
            str_eq_iff p s.name,
            only,
          ))
      | inr h ↦ elim r [
        | inl q ↦ inl (ground (arith, lookup-own s.name ms n ix.owner))
        | inr q ↦ inr (ground (arith, lookup-own s.name ms n ix.owner))
      ]
    ]

    elsewhere :
        (k : Str) (d : Cred)
        → lookup k (put s.name c ix.creds) ≡ some d
        → str_eq p k ≡ false
        → has n d.members ≡ false
    elsewhere k d l q = elim (Bool-cases (str_eq s.name k)) [
      | inr other ↦ v.elsewhere k d (ground (arith, lookup-put s.name k c ix.creds)) q
      | inl same ↦
          let mine : c ≡ d = ground (arith, lookup-put s.name k c ix.creds) in
          let away : str_eq p s.name ≡ false = ground (arith, str_eq_iff s.name k) in
          subst (λ (x : Cred). has n x.members ≡ false) mine
            (ground (arith, has-held names n s.members, only away))
    ]

add_shapes-Claimed :
    (names : List Str) (n p : Str) (ss : List BundleShape) (ix : Index)
    → Claims n p ss
    → Claimed n p ix
    → Claimed n p (add_shapes names ss ix)
unfolding add_shapes
add_shapes-Claimed names n p [] ix h v = v
add_shapes-Claimed names n p (s ∷ ss) ix ((only, without), h) v =
    add_shapes-Claimed names n p ss (add_shape names s ix) h
      (add_shape-Claimed names n p s ix only without v)

add_shape-owner :
    (names : List Str) (n : Str) (s : BundleShape) (ix : Index)
    → has n names ≡ true
    → (has n s.members ≡ true) ⊎ (lookup n ix.owner ≢ none)
    → lookup n (add_shape names s ix).owner ≢ none
unfolding add_shape has
add_shape-owner names n s ix h r = elim (Bool-cases (is_empty (held names s.members))) [
  | inr e ↦ rw e (elim r [
    | inl q ↦ λ k.
        ground
          (arith, lookup-own s.name (held names s.members) n ix.owner, has-held names n s.members)
    | inr q ↦ λ k. q (ground (arith, lookup-own s.name (held names s.members) n ix.owner))
  ])
  | inl e ↦ rw e (elim r [
    | inl q ↦ absurd (nothing (held names s.members) e (ground (arith, has-held names n s.members)))
    | inr q ↦ q
  ])
]
  where
    nothing : (ms : List Str) → is_empty ms ≡ true → has n ms ≡ true → ⊥
    nothing [] e q = cc
    nothing (m ∷ ms) e q = cc

add_shapes-owner :
    (names : List Str) (n : Str) (ss : List BundleShape) (ix : Index)
    → has n names ≡ true
    → (any (has_member n) ss ≡ true) ⊎ (lookup n ix.owner ≢ none)
    → lookup n (add_shapes names ss ix).owner ≢ none
unfolding add_shapes
add_shapes-owner names n [] ix h (inl q) = absurd (cc)
add_shapes-owner names n [] ix h (inr q) = q
add_shapes-owner names n (s ∷ ss) ix h r =
    add_shapes-owner names n ss (add_shape names s ix) h (elim r [
      | inr q ↦ inr (add_shape-owner names n s ix h (inr q))
      | inl q ↦ elim (Bool-cases (has n s.members)) [
        | inl e ↦ inr (add_shape-owner names n s ix h (inl e))
        | inr e ↦ inl (ground arith)
      ]
    ])

rows_without :
    (n : Str) (m : Map Cred)
    → All (λ (e : Str × Cred). has n e.1.members ≡ false) m
    → All (λ (r : Row). has n r.members ≡ false) (cred_rows [] m)
unfolding cred_rows matches
rows_without n [] h = tt
rows_without n ((p, c) ∷ m) (a, h) = (a, rows_without n m h)

closed : (register : List Row) (o : Option Cred) → is_many o ≡ false → opened o register ≡ register
closed register none q = refl
closed register (some c) q = rw q refl

everywhere :
    (n p : Str) (ix : Index)
    → Taken n p ix
    → lookup p ix.owner ≢ none
    → str_eq p n ≡ false
    → (q : Str) (c : Cred) → lookup q ix.creds ≡ some c
    → has n c.members ≡ false
unfolding has
everywhere n p ix t given differ q c l = elim (Bool-cases (str_eq p q)) [
  | inr e ↦ t.elsewhere q c l e
  | inl e ↦ elim t.replaced [
    | inl absent ↦ absurd (given absent)
    | inr r ↦
        let mine : own_cred p ≡ c = ground (arith, str_eq_iff p q) in
        subst (λ (x : Cred). has n x.members ≡ false) mine (rw differ refl)
  ]
]

-- Where the register holds an entry with the name `p` of a bundle that is no member of it, no row of
-- the register shows any other entry `n` of that bundle: the row of `p` is that entry alone.
pub bundle_hidden :
    (names : List Str) (shapes : List BundleShape) (n p : Str)
    → Claims n p shapes
    → any (has_member n) shapes ≡ true
    → has n names ≡ true
    → has p names ≡ true
    → str_eq p n ≡ false
    → is_bundle [] (build names shapes) ≡ false
    → All (λ (r : Row). has n r.members ≡ false) (rows [] [] (build names shapes))
unfolding rows is_bundle build has lookup
bundle_hidden names shapes n p claims member h k differ none_open =
    let ix : Index = add_shapes names shapes empty in
    let v = add_shapes-Claimed names n p shapes empty claims (record {
      owned = inl refl;
      elsewhere = λ k c l d. absurd (cc);
      unowned = refl;
      ordered = tt;
    }) in
    let given = add_shapes-owner names n shapes empty h (inl member) in
    let t = add_names-Taken n p names ix differ (record {
      owned = elim v.owned [ inl q ↦ absurd (given q) | inr q ↦ q ];
      elsewhere = v.elsewhere;
      replaced = inl v.unowned;
      ordered = v.ordered;
    }) in
    subst (All (λ (r : Row). has n r.members ≡ false))
      (sym (closed _ (lookup [] (add_names names ix).creds) none_open))
      (rows_without n (add_names names ix).creds (
        All-lookup (λ q c. has n c.members ≡ false) _ t.ordered
          (everywhere n p (add_names names ix) t (add_names-owned names p ix k) differ)))
