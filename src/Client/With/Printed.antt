-- ===== src/Client/With/Printed.antt =====
-- src/run.rs: no value of the vault, and none that the program was given, is printed.
use secd.Base.{
  false, ◌≡◌, refl, ◌⊎◌, inl, inr, Option, none, some, List, [], ◌∷◌, ◌++◌, In, Bool-cases, subst,
}
use secd.Base.Text.{Str, contains, is_empty, str_eq}
use secd.Base.Utf8.{from_utf8}
use secd.Base.Map.{Map, lookup}
use secd.Base.Json.{Value, Members, string, object, members, as_str, as_object}
use secd.Core.Redact.Hides.{IsPlain, redact_hides}
use secd.Client.Bundles.{Row}
use secd.Client.With.{push_text, text_values, values_in, redact_values, env_values, printed}

In-append : (t : Str) (xs ys : List Str) → In t xs ⊎ In t ys → In t (xs ++ ys)
In-append t [] ys (inl i) = absurd (i tt)
In-append t [] ys (inr i) = i
In-append t (x ∷ xs) ys (inl (inl e)) = inl e
In-append t (x ∷ xs) ys (inl (inr i)) = inr (In-append t xs ys (inl i))
In-append t (x ∷ xs) ys (inr i) = inr (In-append t xs ys (inr i))

push_text-here : (t : Str) (out : List Str) → is_empty t ≡ false → In t (push_text (some t) out)
push_text-here t out h = rw h (inl refl)

push_text-later : (o : Option Str) (t : Str) (out : List Str) → In t out → In t (push_text o out)
push_text-later none t out i = i
push_text-later (some u) t out i = elim (Bool-cases (is_empty u)) [
  | inl e ↦ rw e i
  | inr e ↦ rw e (inr i)
]

text_values-In :
    (k t : Str) (ms : List (Str × Value))
    → is_empty t ≡ false
    → In (k, string t) ms
    → In t (text_values ms)
unfolding text_values
text_values-In k t [] h i = absurd (i tt)
text_values-In k t ((j, v) ∷ ms) h (inl same) =
    subst (λ (p : Str × Value). In t (push_text (as_str (some p.1)) (text_values ms))) same
      (push_text-here t (text_values ms) h)
text_values-In k t ((j, v) ∷ ms) h (inr later) =
    push_text-later (as_str (some v)) t (text_values ms) (text_values-In k t ms h later)

env_values-In :
    (k t : Str) (env : Map Str) → is_empty t ≡ false → lookup k env ≡ some t → In t (env_values env)
unfolding env_values lookup
env_values-In k t [] h e = absurd (cc)
env_values-In k t ((j, v) ∷ env) h e = elim (Bool-cases (str_eq j k)) [
  | inl same ↦
      let f : some v ≡ some t = rw same at e in
      let is : t ≡ v = cc f in
      subst (λ u. In t (push_text (some u) (env_values env))) is
        (push_text-here t (env_values env) h)
  | inr other ↦
      push_text-later (some v) t (env_values env) (env_values-In k t env h (rw other at e))
]

module _ (from_str : Str → Option Value) where
  -- A secret text of an entry: the whole value where it is no JSON object, or else a member of it.
  pub data Holds (e : Row) (t : Str) : Type 0 where
    not_json : from_utf8 e.value.as_bytes ≡ some t → from_str t ≡ none → Holds e t
    no_object :
        (v : Value)
        → from_utf8 e.value.as_bytes ≡ some t
        → from_str t ≡ some v
        → as_object v ≡ none
        → Holds e t
    member :
        (s k : Str) (ms : Members)
        → from_utf8 e.value.as_bytes ≡ some s
        → from_str s ≡ some (object ms)
        → In (k, string t) (members ms)
        → Holds e t

  Holds-In :
      (e : Row) (t : Str)
      → is_empty t ≡ false
      → Holds e t
      → In t (values_in from_str (from_utf8 e.value.as_bytes))
  Holds-In e t h (not_json u p) = rw (u, p) (push_text-here t [] h)
  Holds-In e t h (no_object v u p o) = rw (u, p, o) (push_text-here t [] h)
  Holds-In e t h (member s k ms u p i) = rw (u, p) (text_values-In k t (members ms) h i)

  redact_values-In :
      (e : Row) (es : List Row) (t : Str)
      → In e es
      → In t (values_in from_str (from_utf8 e.value.as_bytes))
      → In t (redact_values from_str es)
  unfolding redact_values
  redact_values-In e [] t i j = absurd (i tt)
  redact_values-In e (x ∷ es) t (inl same) j =
      In-append t (values_in from_str (from_utf8 x.value.as_bytes)) (redact_values from_str es)
        (inl (subst (λ (y : Row). In t (values_in from_str (from_utf8 y.value.as_bytes))) same j))
  redact_values-In e (x ∷ es) t (inr later) j =
      In-append t (values_in from_str (from_utf8 x.value.as_bytes)) (redact_values from_str es)
        (inr (redact_values-In e es t later j))

  -- A text that an entry of the vault holds, or that a variable has.
  abbrev pub IsSecret : List Row → Map Str → Str → Type 0
  IsSecret entries env t =
      ((e : Row) × In e entries × Holds e t) ⊎ ((k : Str) × (lookup k env ≡ some t))

  -- What `run` prints of a program's output holds no secret text of the vault and no value of the
  -- variables that the program was given, for texts that the replacement cannot bring about.
  pub printed_hides :
      (entries : List Row) (env : Map Str) (output t : Str)
      → IsSecret entries env t
      → IsPlain t
      → contains t (printed from_str entries env output) ≡ false
  unfolding printed
  printed_hides entries env output t (inl (e, i, holds)) p =
      redact_hides output (redact_values from_str entries ++ env_values env) t
        (In-append t _ _ (inl (redact_values-In e entries t i (Holds-In e t p.filled holds)))) p
  printed_hides entries env output t (inr (k, l)) p =
      redact_hides output (redact_values from_str entries ++ env_values env) t
        (In-append t _ _ (inr (env_values-In k t env p.filled l))) p
