-- ===== src/Core/Provider/Infer.antt =====
-- When a set of field keys names a provider.
use secd.Base.{
  true, false, ◌≡◌, refl, ap, ◌↔◌, inl, inr, some, List, [], ◌∷◌, any, arith, Bool-cases,
}
use secd.Base.Text.{Str, is_empty}
use secd.Core.Provider.{Provider, covers, filter_names, candidates, only, infer}

-- No provider of the list has a schema with all of the keys.
abbrev pub NoneCovers : List Str → List Provider → Type 0
NoneCovers keys ps = any (covers keys) ps ≡ false

-- Exactly one place of the list has a schema with all of the keys, and its provider has the name.
pub data OneCovers (keys : List Str) (n : Str) : List Provider → Type 0 where
  here :
      {p : Provider} {ps : List Provider}
      → covers keys p ≡ true
      → p.name ≡ n
      → NoneCovers keys ps
      → OneCovers keys n (p ∷ ps)
  further :
      {p : Provider} {ps : List Provider}
      → covers keys p ≡ false
      → OneCovers keys n ps
      → OneCovers keys n (p ∷ ps)

names-none : (keys : List Str) (ps : List Provider) → filter_names keys ps ≡ [] → NoneCovers keys ps
unfolding filter_names
names-none keys [] h = refl
names-none keys (p ∷ ps) h = elim (Bool-cases (covers keys p)) [
  | inl e ↦ absurd (let q : p.name ∷ filter_names keys ps ≡ [] = rw e at h in cc)
  | inr e ↦ rw (e, names-none keys ps (rw e at h)) refl
]

none-names : (keys : List Str) (ps : List Provider) → NoneCovers keys ps → filter_names keys ps ≡ []
unfolding filter_names
none-names keys [] h = refl
none-names keys (p ∷ ps) h = ground (arith, none-names keys ps)

one-names :
    (keys : List Str) (n : Str) (ps : List Provider)
    → OneCovers keys n ps
    → filter_names keys ps ≡ n ∷ []
unfolding filter_names
one-names keys n _ (here {ps = ps} e q alone) = rw (e, q, none-names keys ps alone) refl
one-names keys n _ (further {ps = ps} e rest) = rw (e, one-names keys n ps rest) refl

names-one :
    (keys : List Str) (n : Str) (ps : List Provider)
    → filter_names keys ps ≡ n ∷ []
    → OneCovers keys n ps
unfolding filter_names
names-one keys n [] h = absurd (cc)
names-one keys n (p ∷ ps) h = elim (Bool-cases (covers keys p)) [
  | inr e ↦ further e (names-one keys n ps (rw e at h))
  | inl e ↦
      let q : p.name ∷ filter_names keys ps ≡ n ∷ [] = rw e at h in
      here e (cc q) (names-none keys ps (cc q))
]

only-eq-some : (ns : List Str) (n : Str) → only ns ≡ some n → ns ≡ n ∷ []
only-eq-some [] n h = absurd (cc)
only-eq-some (m ∷ []) n h = let same : m ≡ n = cc h in ap (λ x. x ∷ []) same
only-eq-some (m ∷ k ∷ ns) n h = absurd (cc)

-- `infer` names a provider exactly where there are keys and one place alone of the list of providers
-- has a schema with all of them: keys that two schemas share name none.
pub infer_iff :
    (ps : List Provider) (keys : List Str) (n : Str)
    → (infer ps keys ≡ some n) ↔ ((is_empty keys ≡ false) × OneCovers keys n ps)
unfolding infer candidates
infer_iff ps [] n = ((λ h. absurd (cc)), λ h. absurd (let e = h.0 in cc))
infer_iff ps (k ∷ keys) n = (
  (λ h. (refl, names-one (k ∷ keys) n ps (only-eq-some (filter_names (k ∷ keys) ps) n h))),
  λ h. rw (one-names (k ∷ keys) n ps h.1) refl,
)
