-- ===== src/Client/With/Claimed.antt =====
-- src/policy.rs: behind `check_with_collision` no two fields declare one variable.
use secd.Base.{
  ℕ, ◌+◌, ◌≤◌, Bool, true, false, ◌≡◌, refl, inl, inr, Option, none, some, List, [], ◌∷◌,
  if◌then◌else◌, arith, Bool-cases, subst,
}
use secd.Base.Text.{Str, str_eq, str_eq_iff}
use secd.Base.Map.{Map, contains_key}
use secd.Base.Ordered.{put}
use secd.Base.Ordered.Laws.{lookup-put}
use secd.Base.Result.{ok, ok-bind, ok_or}
use secd.Core.Provider.{Provider, Field}
use secd.Core.Provider.Builtins.{builtins}
use secd.Client.With.{WithSpec, find_provider, provider_of, claim_fields, claim_all}

pub ok_or-ok : {A : Type 0} (o : Option A) (e : Str) {a : A} → ok_or o e ≡ ok a → o ≡ some a
ok_or-ok none e h = absurd (cc)
ok_or-ok (some b) e h = cc

pub contains_key-put :
    (k j v : Str) (m : Map Str)
    → contains_key k (put j v m) ≡ (if str_eq j k then true else contains_key k m)
contains_key-put k j v m = ground (arith, lookup-put j k v m)

-- How many of the fields declare the variable `k`.
unfoldable pub declared_in : List Field → Str → ℕ
declared_in [] k = 0
declared_in (f ∷ fs) k = (if str_eq f.env k then 1 else 0) + declared_in fs k

abbrev in_schema : Option Provider → Str → ℕ
in_schema none k = 0
in_schema (some schema) k = declared_in schema.fields k

-- How many fields of the named schemas declare it.
unfoldable pub declared : List WithSpec → Str → ℕ
unfolding declared_in
declared [] k = 0
declared (s ∷ ss) k = in_schema (find_provider s.provider builtins) k + declared ss k

abbrev claims : Str → Map Str → ℕ
claims k claimed = if contains_key k claimed then 1 else 0

claims-put :
    (k j v : Str) (m : Map Str)
    → contains_key j m ≡ false
    → claims k (put j v m) ≡ (if str_eq j k then 1 else 0) + claims k m
claims-put k j v m free = elim (Bool-cases (str_eq j k)) [
  | inl same ↦
      let shut : contains_key k m ≡ false =
        subst (λ i. contains_key i m ≡ false) ((str_eq_iff j k).0 same) free in
      rw (contains_key-put k j v m, same, shut) refl
  | inr other ↦ rw (contains_key-put k j v m, other) (omega arith)
]

claim_fields-count :
    (provider : Str) (fs : List Field) (claimed claimed' : Map Str) (k : Str)
    → claim_fields provider fs claimed ≡ ok claimed'
    → declared_in fs k + claims k claimed ≡ claims k claimed'
unfolding claim_fields declared_in
claim_fields-count provider [] claimed claimed' k h =
    let e : claimed' ≡ claimed = cc in rw e (omega arith)
claim_fields-count provider (f ∷ fs) claimed claimed' k h =
    elim (Bool-cases (contains_key f.env claimed)) [
      | inl taken ↦ absurd (let e = rw taken at h in cc)
      | inr free ↦
          let rest =
            claim_fields-count provider fs (put f.env provider claimed) claimed' k (rw free at h) in
          omega (arith, rest, claims-put k f.env provider claimed free)
    ]

claim_all-count :
    (ss : List WithSpec) (claimed claimed' : Map Str) (k : Str)
    → claim_all ss claimed ≡ ok claimed'
    → declared ss k + claims k claimed ≡ claims k claimed'
unfolding claim_all declared
claim_all-count [] claimed claimed' k h = let e : claimed' ≡ claimed = cc in rw e (omega arith)
claim_all-count (s ∷ ss) claimed claimed' k h =
    let (schema, p, h1) = ok-bind (provider_of s.provider) _ h in
    let (more, f, h2) = ok-bind (claim_fields s.provider schema.fields claimed) _ h1 in
    let first = claim_fields-count s.provider schema.fields claimed more k f in
    let rest = claim_all-count ss more claimed' k h2 in
    rw (ok_or-ok _ _ p) (omega (arith, first, rest))

pub declared_once :
    (ss : List WithSpec) (claimed' : Map Str) (k : Str)
    → claim_all ss [] ≡ ok claimed'
    → declared ss k ≤ 1
declared_once ss claimed' k h =
    at_most (contains_key k claimed') (claim_all-count ss [] claimed' k h)
  where
    at_most : (b : Bool) → declared ss k + claims k [] ≡ (if b then 1 else 0) → declared ss k ≤ 1
    at_most true e = omega arith
    at_most false e = omega arith
