-- ===== src/Server/Auth/Tests.antt =====
-- Runs of the request checks of sign-in, and the theorems at them.
use secd.Base.{
  ℕ, ◌+◌, ◌*◌, ◌^◌, true, false, ◌≡◌, refl, ◌⊎◌, none, some, List, [], ◌∷◌, replicate, arith,
}
use secd.Base.Text.{codes, str_eq, contains, starts_with, split_once}
use secd.Base.Trim.{trim}
use secd.Base.Map.{lookup, insert, remove, retain}
use secd.Base.Result.{err}
use secd.Base.Json.{Value, string, json_object}
use secd.Server.Auth.{
  StoredWrap, PendingEntry, PendingErr, normalize_email, recent, allow_rate, parse_client_wrap,
  insert_pending, take_pending, sweep,
}
use secd.Server.Auth.Rate.{Call, specified, decisions, allow_rate_refines}
use secd.Server.Auth.Wraps.{DecodesTo, IsPasswordWrap, IsPasskeyWrap, parse_client_wrap_sound}

-- Eleven calls of one address within ten seconds, one of another, and one a minute later.
abbrev second : ℕ
second = 10 ^ 9

abbrev calls_from : ℕ → ℕ → List Call
calls_from ℕ.zero start = []
calls_from (ℕ.suc n) start = (codes "10.0.0.1", start) ∷ calls_from n (start + second)

abbrev eleven : List Call
eleven = calls_from 11 0

abbrev calls : List Call
calls = (codes "10.0.0.1", 0) ∷ (codes "10.0.0.2", second) ∷ (codes "10.0.0.1", 61 * second) ∷ []

eleventh_refused :
    decisions [] eleven
    ≡ true ∷ true ∷ true ∷ true ∷ true ∷ true ∷ true ∷ true ∷ true ∷ true ∷ false ∷ []
unfolding decisions allow_rate recent lookup insert str_eq
eleventh_refused = refl

allow_rate_refines_example : decisions [] calls ≡ specified [] calls
allow_rate_refines_example =
    allow_rate_refines calls (omega arith, (omega arith, (omega arith, tt)))

abbrev wrap : Value
wrap = json_object (
    (codes "factor", string (codes "password"))
    ∷ (codes "blob", string (replicate 144 b'a'))
    ∷ (codes "salt", string (replicate 32 b'0'))
    ∷ [])

abbrev stored : StoredWrap
stored = record {
  factor = codes "password";
  cred_id = none;
  salt = some (replicate 32 b'0');
  blob = replicate 144 b'a';
}

parse_client_wrap_sound_example :
    (codes "password" ≡ codes "password")
    × DecodesTo 72 (replicate 144 b'a')
    × (IsPasswordWrap stored ⊎ IsPasskeyWrap stored)
unfolding parse_client_wrap str_eq
parse_client_wrap_sound_example = parse_client_wrap_sound (some wrap) (codes "password") stored refl

address : normalize_email (λ s. s) (codes " ada@example.org ") ≡ some (codes "ada@example.org")
unfolding normalize_email trim contains starts_with split_once
address = refl

two_signs : normalize_email (λ s. s) (codes "ada@x@example.org") ≡ none
unfolding normalize_email trim contains starts_with split_once
two_signs = refl

-- A handle is taken once.
abbrev one_handle : PendingEntry (Unit {0})
one_handle = record { email = some (codes "ada@example.org"); state = tt; created = 0 }

taken_once :
    (take_pending 2 2
      (codes "h")
      (take_pending 1 1 (codes "h") (insert_pending 0 (codes "h") one_handle [])).1).0
    ≡ err PendingErr.missing
unfolding take_pending insert_pending sweep retain lookup insert remove str_eq
taken_once = refl
