-- ===== src/Server/Vault/Refuses.antt =====
-- Every refusal of a body by crates/secd-web/src/vault.rs has the status 400.
use secd.Base.{
  Bool, true, false, not, ◌||◌, ◌≡◌, refl, ap, sym, subst, Option, none, some, [], ◌∷◌, any,
}
use secd.Base.Text.{Str, codes, str_eq}
use secd.Base.Result.{Result, ok, err, ◌>>=◌, ok_or}
use secd.Base.Json.{
  Value, null, bool, number, string, array, object, Items, nil, cons, get, as_str, as_array,
  as_object, keys,
}
use secd.Core.Name.{check_name}
use secd.Core.NameError.{NameError}
use secd.Server.Headers.{Reply}
use secd.Server.Vault.Requests.{
  has_forbidden, entry_key, refuse_if, named, is_null, meta_of, bad_request, parse_entry,
  parse_entries, parse_vault, parse_rollback, positive_i64,
}

-- A check whose refusals are replies with the status 400.
pub record Refuses {A : Type 0} (m : Result Reply A) : Type 0 where
  pub status : (e : Reply) → m ≡ err e → e.status ≡ 400

bind-Refuses :
    {A B : Type 0} (m : Result Reply A) (f : A → Result Reply B)
    → Refuses m
    → ((a : A) → Refuses (f a))
    → Refuses (m >>= f)
bind-Refuses (ok a) f rm rf = rf a
bind-Refuses (err e) f rm rf = record {
  status = λ d h.
      let same : e ≡ d = cc h in subst (λ (x : Reply). x.status ≡ 400) same (rm.status e refl);
}

ok-Refuses : {A : Type 0} (a : A) → Refuses (ok a)
ok-Refuses a = record { status = λ e h. absurd (cc) }

error-Refuses : {A : Type 0} (word : Str) → Refuses {A = A} (err (bad_request word))
error-Refuses word = record {
  status = λ e h. let same : bad_request word ≡ e = cc h in sym (ap (λ (r : Reply). r.status) same);
}

ok_or-Refuses : {A : Type 0} (o : Option A) (word : Str) → Refuses (ok_or o (bad_request word))
ok_or-Refuses none word = error-Refuses word
ok_or-Refuses (some a) word = ok-Refuses a

refuse_if-Refuses : (b : Bool) (word : Str) → Refuses (refuse_if b (bad_request word))
refuse_if-Refuses true word = error-Refuses word
refuse_if-Refuses false word = ok-Refuses tt

named-Refuses : (r : Result NameError (Unit {0})) → Refuses (named r)
named-Refuses (ok u) = ok-Refuses tt
named-Refuses (err e) = error-Refuses (codes "name")

meta_of-Refuses : (o : Option Value) → Refuses (meta_of o)
meta_of-Refuses none = ok-Refuses _
meta_of-Refuses (some (object ms)) = ok-Refuses _
meta_of-Refuses (some null) = error-Refuses _
meta_of-Refuses (some (bool b)) = error-Refuses _
meta_of-Refuses (some (number n)) = error-Refuses _
meta_of-Refuses (some (string s)) = error-Refuses _
meta_of-Refuses (some (array vs)) = error-Refuses _

parse_entry-Refuses : (v : Value) → Refuses (parse_entry v)
unfolding parse_entry
parse_entry-Refuses v = bind-Refuses (refuse_if (has_forbidden v) _) _ (refuse_if-Refuses _ _) (λ _.
    bind-Refuses (ok_or (as_object v) _) _ (ok_or-Refuses _ _) (λ o.
      bind-Refuses (refuse_if (any (λ k. not (entry_key k)) (keys o)) _) _ (refuse_if-Refuses _ _)
        (λ _. bind-Refuses (ok_or (as_str (get (codes "name") o)) _) _ (ok_or-Refuses _ _) (λ name.
          bind-Refuses (named (check_name name)) _ (named-Refuses _) (λ _.
            bind-Refuses (ok_or (get (codes "ciphertext") o) _) _ (ok_or-Refuses _ _) (λ ct.
              bind-Refuses (refuse_if (is_null ct) _) _ (refuse_if-Refuses _ _) (λ _.
                bind-Refuses (meta_of (get (codes "meta") o)) _ (meta_of-Refuses _)
                  (λ _. ok-Refuses _))))))))

parse_entries-Refuses : (vs : Items) → Refuses (parse_entries vs)
unfolding parse_entries
parse_entries-Refuses nil = ok-Refuses []
parse_entries-Refuses (cons v vs) =
    bind-Refuses (parse_entry v) _ (parse_entry-Refuses v) (λ e.
      bind-Refuses (parse_entries vs) _ (parse_entries-Refuses vs) (λ es. ok-Refuses (e ∷ es)))

pub parse_vault-Refuses : (body : Value) → Refuses (parse_vault body)
unfolding parse_vault
parse_vault-Refuses body =
    bind-Refuses (refuse_if (has_forbidden body) _) _ (refuse_if-Refuses _ _) (λ _.
      bind-Refuses (ok_or (as_object body) _) _ (ok_or-Refuses _ _) (λ obj.
        bind-Refuses (refuse_if (any (λ k. not (str_eq k (codes "entries"))) (keys obj)) _) _
          (refuse_if-Refuses _ _)
          (λ _.
            bind-Refuses (ok_or (as_array (get (codes "entries") obj)) _) _ (ok_or-Refuses _ _)
              (λ arr. parse_entries-Refuses arr))))

pub parse_rollback-Refuses : (body : Value) → Refuses (parse_rollback body)
unfolding parse_rollback
parse_rollback-Refuses body = bind-Refuses (ok_or (as_object body) _) _ (ok_or-Refuses _ _) (λ obj.
    bind-Refuses
      (refuse_if (any (λ k. not (str_eq k (codes "name") || str_eq k (codes "version"))) (keys obj))
        _)
      _ (refuse_if-Refuses _ _)
      (λ _. bind-Refuses (ok_or (as_str (get (codes "name") obj)) _) _ (ok_or-Refuses _ _) (λ name.
        bind-Refuses (named (check_name name)) _ (named-Refuses _) (λ _.
          bind-Refuses (ok_or (positive_i64 (get (codes "version") obj)) _) _ (ok_or-Refuses _ _)
            (λ _. ok-Refuses _)))))
