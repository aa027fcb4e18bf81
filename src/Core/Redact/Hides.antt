-- ===== src/Core/Redact/Hides.antt =====
-- No value is left in what crates/secd-core/src/redact.rs returns, and nothing else is changed.
use secd.Base.{
  ℕ, zero, suc, ◌-◌, Bool, true, false, ◌||◌, ◌==◌, ◌≡◌, refl, ap, sym, ◌∙◌, ◌⊎◌, inl, inr, List,
  [], ◌∷◌, ◌++◌, length, any, In, ltb, arith, Bool-cases, subst,
}
use secd.Base.Text.{Str, codes, str_eq, str_eq_iff, starts_with, contains, is_empty}
use secd.Core.Redact.{
  replacement, replace_from, non_empty, insert_by_length, longest_first, dedup_after, dedup,
  replace_all, redact,
}

abbrev pub has_byte : ℕ → Str → Bool
has_byte c = any (λ b. b == c)

-- A value that cannot come about from the replacement and what stands beside it.
pub record IsPlain (u : Str) : Type 0 where
  pub filled : is_empty u ≡ false
  pub opens : has_byte b'[' u ≡ false
  pub closes : has_byte b']' u ≡ false
  pub inner : contains u (codes "redacted") ≡ false

-- A text without the byte `c` stands before it or behind it.
starts_with-cut :
    (c : ℕ) (u a t : Str) → has_byte c u ≡ false → starts_with u (a ++ c ∷ t) ≡ starts_with u a
unfolding starts_with
starts_with-cut c [] a t h = refl
starts_with-cut c (x ∷ u) [] t h = ground arith
starts_with-cut c (x ∷ u) (y ∷ a) t h = ground (arith, starts_with-cut c u a t)

contains-cut :
    (c : ℕ) (u a t : Str)
    → has_byte c u ≡ false
    → contains u (a ++ c ∷ t) ≡ (contains u a || contains u t)
unfolding contains
contains-cut c u [] t h = rw (starts_with-cut c u [] t h) refl
contains-cut c u (y ∷ a) t h =
    rw (starts_with-cut c u (y ∷ a) t h, contains-cut c u a t h) (ground arith)

contains-replacement : (u t : Str) → IsPlain u → contains u (replacement ++ t) ≡ contains u t
contains-replacement u t p =
    contains-cut b'[' u [] (codes "redacted" ++ b']' ∷ t) p.opens
    ∙ rw (contains-cut b']' u (codes "redacted") t p.closes, p.inner, none_in u p.filled) refl
  where
    none_in : (v : Str) → is_empty v ≡ false → contains v [] ≡ false
    none_in [] h = cc
    none_in (b ∷ v) h = unfold contains starts_with in refl

replace_from_hit :
    (v w s : Str) (b : ℕ)
    → starts_with v (b ∷ s) ≡ true
    → replace_from zero v w (b ∷ s) ≡ w ++ replace_from (length v - 1) v w s
unfolding replace_from
replace_from_hit v w s b h = rw (replace_from, h) refl

pub replace_from_miss :
    (v w s : Str) (b : ℕ)
    → starts_with v (b ∷ s) ≡ false
    → replace_from zero v w (b ∷ s) ≡ b ∷ replace_from zero v w s
unfolding replace_from
replace_from_miss v w s b h = rw (replace_from, h) refl

replace_from_skip :
    (n b : ℕ) (v w s : Str) → replace_from (suc n) v w (b ∷ s) ≡ replace_from n v w s
unfolding replace_from
replace_from_skip n b v w s = refl

-- What starts the text behind a replacement started it before.
starts_with-replace_from :
    (v u s : Str)
    → has_byte b'[' u ≡ false
    → starts_with u (replace_from zero v replacement s) ≡ true
    → starts_with u s ≡ true
unfolding starts_with
starts_with-replace_from v [] s h e = refl
starts_with-replace_from v (x ∷ u) [] h e = unfold replace_from in e
starts_with-replace_from v (x ∷ u) (b ∷ s) h e = elim (Bool-cases (starts_with v (b ∷ s))) [
  | inl hit ↦
      let f : starts_with (x ∷ u) (replacement ++ replace_from (length v - 1) v replacement s)
          ≡ true =
        subst (λ t. starts_with (x ∷ u) t ≡ true) (replace_from_hit v replacement s b hit) e in
      ground arith
  | inr miss ↦
      let f : starts_with (x ∷ u) (b ∷ replace_from zero v replacement s) ≡ true =
        subst (λ t. starts_with (x ∷ u) t ≡ true) (replace_from_miss v replacement s b miss) e in
      ground (arith, starts_with-replace_from v u s)
]

-- No replacement brings a plain value back.
replace_from-keeps :
    (n : ℕ) (v u s : Str)
    → IsPlain u
    → contains u s ≡ false
    → contains u (replace_from n v replacement s) ≡ false
unfolding contains
replace_from-keeps n v u [] p h = unfold replace_from in h
replace_from-keeps (suc n) v u (b ∷ s) p h =
    rw (replace_from_skip n b v replacement s) (replace_from-keeps n v u s p (ground arith))
replace_from-keeps zero v u (b ∷ s) p h =
    let later : contains u s ≡ false = ground arith in
    elim (Bool-cases (starts_with v (b ∷ s))) [
      | inl hit ↦ rw (replace_from_hit v replacement s b hit) (
          contains-replacement u (replace_from (length v - 1) v replacement s) p
          ∙ replace_from-keeps (length v - 1) v u s p later)
      | inr miss ↦
          let rest = replace_from-keeps zero v u s p later in
          let start : starts_with u (b ∷ replace_from zero v replacement s) ≡ true
              → starts_with u (b ∷ s) ≡ true =
            λ e. starts_with-replace_from v u (b ∷ s) p.opens (
              subst (λ t. starts_with u t ≡ true) (sym (replace_from_miss v replacement s b miss))
                e) in
          rw (replace_from_miss v replacement s b miss) (ground arith)
    ]

-- A plain value is gone behind its own replacement.
replace_from-gone :
    (n : ℕ) (v s : Str) → IsPlain v → contains v (replace_from n v replacement s) ≡ false
unfolding contains
replace_from-gone n v [] p = unfold replace_from in none_in v p.filled
  where
    none_in : (u : Str) → is_empty u ≡ false → starts_with u [] ≡ false
    none_in [] h = cc
    none_in (b ∷ u) h = unfold starts_with in refl
replace_from-gone (suc n) v (b ∷ s) p =
    rw (replace_from_skip n b v replacement s) (replace_from-gone n v s p)
replace_from-gone zero v (b ∷ s) p = elim (Bool-cases (starts_with v (b ∷ s))) [
  | inl hit ↦ rw (replace_from_hit v replacement s b hit) (
      contains-replacement v (replace_from (length v - 1) v replacement s) p
      ∙ replace_from-gone (length v - 1) v s p)
  | inr miss ↦
      let rest = replace_from-gone zero v s p in
      let start : starts_with v (b ∷ replace_from zero v replacement s) ≡ true
          → starts_with v (b ∷ s) ≡ true =
        λ e. starts_with-replace_from v v (b ∷ s) p.opens (
          subst (λ t. starts_with v t ≡ true) (sym (replace_from_miss v replacement s b miss)) e) in
      rw (replace_from_miss v replacement s b miss) (ground arith)
]

replace_all-keeps :
    (vs : List Str) (u out : Str)
    → IsPlain u
    → contains u out ≡ false
    → contains u (replace_all vs out) ≡ false
unfolding replace_all
replace_all-keeps [] u out p h = h
replace_all-keeps (v ∷ vs) u out p h =
    replace_all-keeps vs u (replace_from zero v replacement out) p
      (replace_from-keeps zero v u out p h)

replace_all-gone :
    (vs : List Str) (u out : Str) → IsPlain u → In u vs → contains u (replace_all vs out) ≡ false
unfolding replace_all
replace_all-gone [] u out p i = absurd (i tt)
replace_all-gone (v ∷ vs) u out p (inl e) =
    replace_all-keeps vs u (replace_from zero v replacement out) p (
      subst (λ x. contains u (replace_from zero x replacement out) ≡ false) e
        (replace_from-gone zero u out p))
replace_all-gone (v ∷ vs) u out p (inr i) =
    replace_all-gone vs u (replace_from zero v replacement out) p i

In-non_empty : (u : Str) (vs : List Str) → is_empty u ≡ false → In u vs → In u (non_empty vs)
In-non_empty u [] h i = i
In-non_empty u ([] ∷ vs) h (inl e) = absurd (let f = ap is_empty e in cc)
In-non_empty u ([] ∷ vs) h (inr i) = In-non_empty u vs h i
In-non_empty u ((b ∷ v) ∷ vs) h (inl e) = inl e
In-non_empty u ((b ∷ v) ∷ vs) h (inr i) = inr (In-non_empty u vs h i)

In-insert_by_length : (u v : Str) (xs : List Str) → (u ≡ v) ⊎ In u xs → In u (insert_by_length v xs)
In-insert_by_length u v [] i = i
In-insert_by_length u v (x ∷ xs) i = elim (Bool-cases (ltb (length v) (length x))) [
  | inr e ↦ rw e i
  | inl e ↦ rw e (elim i [
    | inl same ↦ inr (In-insert_by_length u v xs (inl same))
    | inr later ↦ elim later [
      | inl here ↦ inl here
      | inr j ↦ inr (In-insert_by_length u v xs (inr j))
    ]
  ])
]

In-longest_first : (u : Str) (vs : List Str) → In u vs → In u (longest_first vs)
In-longest_first u [] i = i
In-longest_first u (v ∷ vs) (inl e) = In-insert_by_length u v (longest_first vs) (inl e)
In-longest_first u (v ∷ vs) (inr i) =
    In-insert_by_length u v (longest_first vs) (inr (In-longest_first u vs i))

pub dedup_after_hit :
    (v x : Str) (xs : List Str) → str_eq x v ≡ true → dedup_after v (x ∷ xs) ≡ dedup_after v xs
dedup_after_hit v x xs e = rw (dedup_after, e) refl

pub dedup_after_miss :
    (v x : Str) (xs : List Str) → str_eq x v ≡ false → dedup_after v (x ∷ xs) ≡ x ∷ dedup_after x xs
dedup_after_miss v x xs e = rw (dedup_after, e) refl

In-dedup_after : (u v : Str) (xs : List Str) → In u xs → (u ≡ v) ⊎ In u (dedup_after v xs)
In-dedup_after u v [] i = inr i
In-dedup_after u v (x ∷ xs) i = elim (Bool-cases (str_eq x v)) [
  | inl e ↦
      subst (λ ys. (u ≡ v) ⊎ In u ys) (sym (dedup_after_hit v x xs e))
        (elim i [
          | inl here ↦ inl (here ∙ (str_eq_iff x v).0 e)
          | inr later ↦ In-dedup_after u v xs later
        ])
  | inr e ↦ inr (
      subst (In u) (sym (dedup_after_miss v x xs e))
        (elim i [ inl here ↦ inl here | inr later ↦ In-dedup_after u x xs later ]))
]

In-dedup : (u : Str) (vs : List Str) → In u vs → In u (dedup vs)
In-dedup u [] i = i
In-dedup u (v ∷ vs) (inl e) = inl e
In-dedup u (v ∷ vs) (inr i) = In-dedup_after u v vs i

-- Behind a redaction no value of the list stands in the text, for values that are not empty, have
-- neither bracket, and are no part of the word between the brackets of the replacement.
pub redact_hides :
    (output : Str) (values : List Str) (u : Str)
    → In u values
    → IsPlain u
    → contains u (redact output values) ≡ false
unfolding redact
redact_hides output values u i p =
    replace_all-gone (dedup (longest_first (non_empty values))) u output p
      (In-dedup u _ (In-longest_first u _ (In-non_empty u values p.filled i)))
