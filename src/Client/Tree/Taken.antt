-- ===== src/Client/Tree/Taken.antt =====
-- What the loop over the names makes of an entry that is named like a bundle.
use secd.Base.{
  false, ◌≡◌, ◌⊎◌, inl, inr, none, some, List, [], ◌∷◌, arith, Bool-cases, Option-cases,
}
use secd.Base.Text.{Str, str_eq, str_eq_iff}
use secd.Base.Map.{lookup}
use secd.Base.Ordered.{put, has}
use secd.Base.Ordered.Laws.{lookup-put, IsOrdered, put-IsOrdered}
use secd.Client.Tree.{Cred, Index, add_name, add_names}
use secd.Client.Tree.Owned.{add_name_kept, add_name_new, own_cred}

-- While the names are added: `n` belongs to the credential `p` and to no other, and `p` is either no
-- owned entry yet or has been given a credential of its own.
pub record Taken (n p : Str) (ix : Index) : Type 0 where
  pub owned : lookup n ix.owner ≡ some p
  pub elsewhere :
      (k : Str) (c : Cred)
      → lookup k ix.creds ≡ some c
      → str_eq p k ≡ false
      → has n c.members ≡ false
  pub replaced : (lookup p ix.owner ≡ none) ⊎ (lookup p ix.creds ≡ some (own_cred p))
  pub ordered : IsOrdered ix.creds

add_name-Taken :
    (n p m : Str) (ix : Index) → str_eq p n ≡ false → Taken n p ix → Taken n p (add_name m ix)
unfolding has
add_name-Taken n p m ix differ v = elim (Option-cases (lookup m ix.owner)) [
  | inr (q, e) ↦ rw (add_name_kept m q ix e) v
  | inl e ↦ rw (add_name_new m ix e) (record {
    owned = ground (arith, lookup-put m n m ix.owner, str_eq_iff m n, v.owned, e);
    elsewhere = elsewhere e;
    replaced = replaced e v.replaced;
    ordered = put-IsOrdered m (own_cred m) ix.creds v.ordered;
  })
]
  where
    elsewhere :
        lookup m ix.owner ≡ none
        → (k : Str) (c : Cred) → lookup k (put m (own_cred m) ix.creds) ≡ some c
        → str_eq p k ≡ false
        → has n c.members ≡ false
    elsewhere e k c l d =
        ground
          (arith, lookup-put m k (own_cred m) ix.creds, str_eq_iff m n, v.owned, v.elsewhere k c)

    replaced :
        lookup m ix.owner ≡ none
        → (lookup p ix.owner ≡ none) ⊎ (lookup p ix.creds ≡ some (own_cred p))
        → (lookup p (put m m ix.owner) ≡ none)
          ⊎ (lookup p (put m (own_cred m) ix.creds) ≡ some (own_cred p))
    replaced e r = elim (Bool-cases (str_eq m p)) [
      | inl same ↦ inr (ground (arith, lookup-put m p (own_cred m) ix.creds, str_eq_iff m p))
      | inr other ↦ elim r [
        | inl q ↦ inl (ground (arith, lookup-put m p m ix.owner))
        | inr q ↦ inr (ground (arith, lookup-put m p (own_cred m) ix.creds))
      ]
    ]

pub add_names-Taken :
    (n p : Str) (ns : List Str) (ix : Index)
    → str_eq p n ≡ false
    → Taken n p ix
    → Taken n p (add_names ns ix)
unfolding add_names
add_names-Taken n p [] ix d v = v
add_names-Taken n p (m ∷ ns) ix d v =
    add_names-Taken n p ns (add_name m ix) d (add_name-Taken n p m ix d v)
