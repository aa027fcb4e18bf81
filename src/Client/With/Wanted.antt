-- ===== src/Client/With/Wanted.antt =====
-- src/policy.rs: `apply_with` gives each variable the value of the one field that declares it.
use secd.Base.{
  ◌≤◌, false, ◌≡◌, refl, ap, sym, ◌∙◌, Option, none, some, List, [], ◌∷◌, if◌then◌else◌, arith,
  Bool-cases, inl, inr, subst,
}
use secd.Base.Text.{Str, str_eq, str_eq_iff}
use secd.Base.Map.{Map, lookup, contains_key}
use secd.Base.Ordered.{put}
use secd.Base.Ordered.Laws.{lookup-put}
use secd.Base.Result.{ok, ok-bind}
use secd.Core.Provider.{Provider, Field}
use secd.Core.Provider.Builtins.{builtins}
use secd.Client.Bundles.{Bundle}
use secd.Client.Forge.{field_get}
use secd.Client.With.Claimed.{ok_or-ok, contains_key-put, declared, declared_once}
use secd.Client.With.{
  WithSpec, find_provider, find_bundle, provider_of, bundle_of, claim_fields, claim_all,
  check_with_collision, set_env, apply_fields, apply_all, apply_with,
}

-- The value that a bundle has for the field with the variable `k`, and `later` where no field has it.
unfoldable pub wanted_of : Bundle → List Field → Str → Option Str → Option Str
wanted_of bundle [] k later = later
wanted_of bundle (f ∷ fs) k later =
    let rest = wanted_of bundle fs k later in
    if str_eq f.env k then field_get bundle f.key f.env else rest

abbrev from_both : Option Bundle → Option Provider → Str → Option Str → Option Str
from_both (some bundle) (some schema) k later = wanted_of bundle schema.fields k later
from_both _ _ k later = later

-- The value of the variable `k`: that of the first field that declares it.
unfoldable pub wanted : List WithSpec → List Bundle → Str → Option Str
wanted [] bundles k = none
wanted (s ∷ ss) bundles k =
    from_both (find_bundle s.bundle bundles) (find_provider s.provider builtins) k
      (wanted ss bundles k)

abbrev kept_or : Map Str → Map Str → Str → Option Str → Option Str
kept_or claimed env k other = if contains_key k claimed then lookup k env else other

-- Every variable that is set is claimed.
abbrev Within : Map Str → Map Str → Type 0
Within env claimed = (k : Str) → contains_key k claimed ≡ false → lookup k env ≡ none

lookup-set_env :
    (k j : Str) (o : Option Str) (env : Map Str)
    → lookup j env ≡ none
    → lookup k (set_env j o env) ≡ (if str_eq j k then o else lookup k env)
lookup-set_env k j none env h = ground (arith, str_eq_iff j k)
lookup-set_env k j (some v) env h = lookup-put j k v env

kept_or_step :
    (f : Field) (provider : Str) (claimed env : Map Str) (o : Option Str) (k : Str) (x : Option Str)
    → contains_key f.env claimed ≡ false
    → lookup f.env env ≡ none
    → kept_or (put f.env provider claimed) (set_env f.env o env) k x
      ≡ kept_or claimed env k (if str_eq f.env k then o else x)
kept_or_step f provider claimed env o k x free absent =
    let a = contains_key-put k f.env provider claimed in
    let b = lookup-set_env k f.env o env absent in
    elim (Bool-cases (str_eq f.env k)) [
      | inl same ↦
          let shut : contains_key k claimed ≡ false =
            subst (λ j. contains_key j claimed ≡ false) ((str_eq_iff f.env k).0 same) free in
          rw (a, b, same, shut) refl
      | inr other ↦ rw (a, b, other) refl
    ]

-- What the check claims and what the fields set agree.
record Agrees (claimed env claimed' env' : Map Str) (value : Str → Option Str → Option Str)
    : Type 0 where
  within : Within env' claimed'
  same :
      (k : Str) (later : Option Str)
      → kept_or claimed' env' k later ≡ kept_or claimed env k (value k later)

fields-Agrees :
    (bundle : Bundle) (provider : Str) (fs : List Field) (claimed env claimed' : Map Str)
    → claim_fields provider fs claimed ≡ ok claimed'
    → Within env claimed
    → Agrees claimed env claimed' (apply_fields bundle fs env) (wanted_of bundle fs)
unfolding claim_fields apply_fields wanted_of
fields-Agrees bundle provider [] claimed env claimed' h w =
    let e : claimed' ≡ claimed = cc in rw e (record { within = w; same = λ k later. refl })
fields-Agrees bundle provider (f ∷ fs) claimed env claimed' h w =
    elim (Bool-cases (contains_key f.env claimed)) [
      | inl taken ↦ absurd (let e = rw taken at h in cc)
      | inr free ↦
          let o = field_get bundle f.key f.env in
          let next : Within (set_env f.env o env) (put f.env provider claimed) =
            λ k u. still k u free in
          let rest =
            fields-Agrees bundle provider fs (put f.env provider claimed) (set_env f.env o env)
              claimed' (rw free at h) next in
          record {
            within = rest.within;
            same = λ k later.
                rest.same k later
                ∙ kept_or_step f provider claimed env o k (wanted_of bundle fs k later) free
                    (w f.env free);
          }
    ]
  where
    still :
        (k : Str)
        → contains_key k (put f.env provider claimed) ≡ false
        → contains_key f.env claimed ≡ false
        → lookup k (set_env f.env (field_get bundle f.key f.env) env) ≡ none
    still k u free = ground (
      arith,
      contains_key-put k f.env provider claimed,
      lookup-set_env k f.env (field_get bundle f.key f.env) env (w f.env free),
      w k,
    )

all-Agrees :
    (ss : List WithSpec) (bundles : List Bundle) (claimed env claimed' env' : Map Str)
    → claim_all ss claimed ≡ ok claimed'
    → apply_all ss bundles env ≡ ok env'
    → Within env claimed
    → (k : Str) → lookup k env' ≡ kept_or claimed env k (wanted ss bundles k)
unfolding claim_all apply_all wanted
all-Agrees [] bundles claimed env claimed' env' h r w k =
    let e : env ≡ env' = cc r in
    elim (Bool-cases (contains_key k claimed)) [
      | inl c ↦ rw c (ap (lookup k) (sym e))
      | inr c ↦ rw c (ap (lookup k) (sym e) ∙ w k c)
    ]
all-Agrees (s ∷ ss) bundles claimed env claimed' env' h r w k =
    let (schema, p, h1) = ok-bind (provider_of s.provider) _ h in
    let (more, f, h2) = ok-bind (claim_fields s.provider schema.fields claimed) _ h1 in
    let (bundle, b, r1) = ok-bind (bundle_of s.bundle bundles) _ r in
    let (schema', p', r2) = ok-bind (provider_of s.provider) _ r1 in
    let one : schema' ≡ schema = cc (sym p' ∙ p) in
    let step = fields-Agrees bundle s.provider schema.fields claimed env more f w in
    let later : apply_all ss bundles (apply_fields bundle schema.fields env) ≡ ok env' =
      subst (λ (x : Provider). apply_all ss bundles (apply_fields bundle x.fields env) ≡ ok env')
        one r2 in
    all-Agrees ss bundles more (apply_fields bundle schema.fields env) claimed' env' h2 later
      step.within k
    ∙ rw (ok_or-ok _ _ b, ok_or-ok _ _ p) (step.same k (wanted ss bundles k))

-- Where `--with` arguments are applied, no two fields of the named schemas declare one variable, and
-- the variables are those of the schemas alone: each has the value that the named bundle holds for the
-- field which declares it.
pub apply_with_lem :
    (specs : List WithSpec) (bundles : List Bundle) (env : Map Str) (k : Str)
    → apply_with specs bundles ≡ ok env
    → (declared specs k ≤ 1) × (lookup k env ≡ wanted specs bundles k)
unfolding apply_with check_with_collision
apply_with_lem specs bundles env k h =
    let (_, c, r) = ok-bind (check_with_collision specs) _ h in
    let (claimed, a, _) = ok-bind (claim_all specs []) _ c in
    (
      declared_once specs claimed k a,
      all-Agrees specs bundles [] [] claimed env a r (λ j u. none_there j) k ∙ none_kept,
    )
  where
    none_there : (j : Str) → lookup {V = Str} j [] ≡ none
    none_there j = unfold lookup in refl

    none_kept : kept_or [] [] k (wanted specs bundles k) ≡ wanted specs bundles k
    none_kept = unfold lookup in refl
