-- ===== src/Base/Result.antt =====
-- Rust's `Result<A, E>`, with `?` as bind.
use mathlib.Core.Path.{◌≡◌, refl}
use mathlib.Core.Option.{Option, none, some}

pub data Result (E A : Type 0) : Type 0 where
  ok : A → Result E A
  err : E → Result E A

infixl 5 ◌>>=◌ ◌>>◌
abbrev pub ◌>>=◌ : {E A B : Type 0} → Result E A → (A → Result E B) → Result E B
ok a >>= f = f a
err e >>= f = err e

abbrev pub ◌>>◌ : {E B : Type 0} → Result E (Unit {0}) → Result E B → Result E B
m >> k = m >>= λ _. k

-- `ok_or`
abbrev pub ok_or : {E A : Type 0} → Option A → E → Result E A
ok_or none e = err e
ok_or (some a) e = ok a

-- Where `?` goes on to a value, it went on from one.
pub ok-bind :
    {E A B : Type 0} (first : Result E A) (next : A → Result E B) {value : B}
    → (first >>= next) ≡ ok value
    → (middle : A) × (first ≡ ok middle) × (next middle ≡ ok value)
ok-bind (ok middle) next returned = (middle, refl, returned)
ok-bind (err e) next returned = cc

pub ok-injective : {E A : Type 0} {a b : A} → ◌≡◌ {A = Result E A} (ok a) (ok b) → b ≡ a
ok-injective h = cc
