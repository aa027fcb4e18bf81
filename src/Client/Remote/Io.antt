-- ===== src/Client/Remote/Io.antt =====
-- Calls that may fail and change the world, with `?` as bind.
use secd.Base.{Bool, true, false, Option, none, some, ◌≡◌, refl}
use secd.Base.Text.{Str}
use secd.Base.Result.{Result, ok, err}

-- What the client does with the world: a result or an error, and the world behind it.
abbrev pub Io : Type 0 → Type 0 → Type 0
Io W A = W → Result Str A × W

abbrev pub go_on : {W A B : Type 0} → Result Str A × W → (A → Io W B) → Result Str B × W
go_on (ok a, w) f = f a w
go_on (err e, w) f = (err e, w)

infixl 5 ◌>>=◌ ◌>>◌
abbrev pub ◌>>=◌ : {W A B : Type 0} → Io W A → (A → Io W B) → Io W B
m >>= f = λ w. go_on (m w) f

abbrev pub ◌>>◌ : {W B : Type 0} → Io W (Unit {0}) → Io W B → Io W B
m >> k = m >>= λ _. k

abbrev pub pure : {W A : Type 0} → A → Io W A
pure a w = (ok a, w)

abbrev pub bail : {W A : Type 0} → Str → Io W A
bail e w = (err e, w)

-- `bail!` where a test fails
abbrev pub ensure : {W : Type 0} → Bool → Str → Io W (Unit {0})
ensure true e = pure tt
ensure false e = bail e

abbrev pub or_bail : {W A : Type 0} → Option A → Str → Io W A
or_bail none e = bail e
or_bail (some a) e = pure a

abbrev pub of_result : {W A : Type 0} → Result Str A → Io W A
of_result r w = (r, w)

abbrev pub context_of : {W A : Type 0} → Str → Result Str A × W → Result Str A × W
context_of e (ok a, w) = (ok a, w)
context_of e (err _, w) = (err e, w)

-- `context(e)`
abbrev pub with_context : {W A : Type 0} → Str → Io W A → Io W A
with_context e m = λ w. context_of e (m w)

-- Where a call and its successor return, the call returned, and the successor from there.
pub io-bind :
    {W A B : Type 0} (r : Result Str A × W) (f : A → Io W B) {b : B} {w' : W}
    → go_on r f ≡ (ok b, w')
    → (a : A) × (w : W) × (r ≡ (ok a, w)) × (f a w ≡ (ok b, w'))
io-bind (ok a, w) f h = (a, w, refl, h)
io-bind (err e, w) f h = absurd (cc)

pub ensure-ok :
    {W B : Type 0} (b : Bool) (e : Str) (next : Io W B) {w w' : W} {x : B}
    → (ensure b e >> next) w ≡ (ok x, w')
    → (b ≡ true) × (next w ≡ (ok x, w'))
ensure-ok true e next h = (refl, h)
ensure-ok false e next h = absurd (cc)

pub with_context-ok :
    {W A : Type 0} (e : Str) (r : Result Str A × W) {a : A} {w : W}
    → context_of e r ≡ (ok a, w)
    → r ≡ (ok a, w)
with_context-ok e (ok a, w) h = h
with_context-ok e (err _, w) h = absurd (cc)
