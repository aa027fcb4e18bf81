-- ===== src/Client/Forge/Picked.antt =====
-- src/policy.rs: a credential is offered to its own host alone.
use secd.Base.{
  true, ◌≡◌, refl, ◌∙◌, inl, inr, Option, none, some, List, [], ◌∷◌, In, arith, Bool-cases,
  and_true,
}
use secd.Base.Text.{Str, str_eq, str_eq_iff}
use secd.Base.Trim.{trim}
use secd.Client.Bundles.{Bundle, lower, is_some}
use secd.Client.Forge.{
  forge_token, forge_host, strip_default_port, same_host, serves, ready, named, only_one,
  pick_forge,
}

-- The bundle has a token, and its host is the requested one but for the case of letters.
abbrev pub Serves : Str → Bundle → Type 0
Serves host b =
    ((t : Str) × (forge_token b ≡ some t))
    × ((h : Str) × (forge_host b ≡ some h) × (lower h ≡ lower host))

token_there : (o : Option Str) → is_some o ≡ true → (t : Str) × (o ≡ some t)
token_there none e = absurd (cc)
token_there (some t) e = (t, refl)

host_there :
    (host : Str) (o : Option Str)
    → same_host host o ≡ true
    → (h : Str) × (o ≡ some h) × (lower h ≡ lower host)
host_there host none e = absurd (cc)
host_there host (some h) e = (h, refl, (str_eq_iff (lower h) (lower host)).0 e)

serves-Serves : (host : Str) (b : Bundle) → serves host b ≡ true → Serves host b
serves-Serves host b e =
    let (t, h) = (and_true (is_some (forge_token b)) (same_host host (forge_host b))).0 e in
    (token_there _ t, host_there host _ h)

ready-In :
    (host : Str) (bs : List Bundle) (b : Bundle) → In b (ready host bs) → In b bs × Serves host b
unfolding ready
ready-In host [] b i = absurd (i tt)
ready-In host (c ∷ bs) b i = elim (Bool-cases (serves host c)) [
  | inl e ↦ kept (rw e at i) e (ready-In host bs b)
  | inr e ↦ let (j, s) = ready-In host bs b (rw e at i) in (inr j, s)
]
  where
    kept :
        In b (c ∷ ready host bs)
        → serves host c ≡ true
        → (In b (ready host bs) → In b bs × Serves host b)
        → In b (c ∷ bs) × Serves host b
    kept (inl q) e f = (inl q, rw q (serves-Serves host c e))
    kept (inr j) e f = let (k, s) = f j in (inr k, s)

named_sound :
    (name : Str) (bs : List Bundle) (b : Bundle)
    → named name bs ≡ some b
    → In b bs × (b.name ≡ name)
unfolding named
named_sound name [] b e = absurd (cc)
named_sound name (c ∷ bs) b e = elim (Bool-cases (str_eq c.name name)) [
  | inl q ↦ first (rw q at e) ((str_eq_iff c.name name).0 q)
  | inr q ↦ let (i, n) = named_sound name bs b (rw q at e) in (inr i, n)
]
  where
    first : some c ≡ some b → c.name ≡ name → In b (c ∷ bs) × (b.name ≡ name)
    first p n = let same : c ≡ b = cc p in rw (← same) (inl refl, n)

only_one_sound : (bs : List Bundle) (b : Bundle) → only_one bs ≡ some b → bs ≡ b ∷ []
only_one_sound [] b e = absurd (cc)
only_one_sound (c ∷ []) b e = let same : c ≡ b = cc e in rw same refl
only_one_sound (c ∷ d ∷ bs) b e = absurd (cc)

-- The bundle that answers for a host is one of the bundles, has a token, and its own host is the
-- requested one but for the case of letters and a default port; it is the bundle of the wanted name, and
-- where no name is wanted it is the only one that could answer.
pub pick_forge_sound :
    (bundles : List Bundle) (want : Option Str) (host : Str) (b : Bundle)
    → pick_forge bundles want host ≡ some b
    → In b bundles
      × Serves (strip_default_port (trim host)) b
      × ((name : Str) → want ≡ some name → b.name ≡ name)
      × (want ≡ none → ready (strip_default_port (trim host)) bundles ≡ b ∷ [])
unfolding pick_forge
pick_forge_sound bundles none host b e =
    let one = only_one_sound _ b e in
    let (i, s) = ready-In _ bundles b (rw one (inl refl)) in
    (i, s, (λ name q. absurd (cc)), λ q. one)
pick_forge_sound bundles (some want) host b e =
    let (j, n) = named_sound want _ b e in
    let (i, s) = ready-In _ bundles b j in (i, s, (λ name q. n ∙ ground arith), λ q. absurd (cc))
