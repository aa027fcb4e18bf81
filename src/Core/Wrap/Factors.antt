-- ===== src/Core/Wrap/Factors.antt =====
-- Which wraps a factor opens, and that the last factor stays.
use secd.Base.{
  ℕ, zero, suc, ◌+◌, ◌≤◌, ◌<◌, false, ◌≡◌, refl, ap, Option, some, List, [], ◌∷◌, ◌++◌, length,
  take, drop, get_elem?, arith, ltb, Option-cases, length-append, take-append, take_exact, sym, ◌∙◌,
  inl, inr,
}
use secd.Base.Text.{Str}
use secd.Base.Result.{ok, err}
use secd.Core.Error.{Error, last_factor}
use secd.Core.Aead.{Cipher}
use secd.Core.Wrap.{
  Wrap, Kdf, passkey, password, unwrap_password, unwrap_passkey, wrap_passkey, prf_kek, remove_at,
  remove_wrap,
}

prf_kek-append : (p more : Str) → length p ≡ 32 → prf_kek (p ++ more) ≡ prf_kek p
unfolding prf_kek
prf_kek-append p more h =
    let long : ltb (length (p ++ more)) 32 ≡ false = ground (arith, length-append p more) in
    let exact : ltb (length p) 32 ≡ false = ground arith in
    rw (long, exact) (ap ok (take-append 32 p more h ∙ sym (take_exact 32 p h)))

-- The key of a passkey is the first 32 bytes of its PRF output: whatever follows them, in a longer
-- output, changes neither a wrap nor an unwrap, and a wrap of either kind is opened by its own
-- factor's function only.
pub passkey_prefix :
    (c : Cipher) (d : Kdf) (w : Wrap) (random : Option Str) (dek pw p more id : Str)
    → length p ≡ 32
    → (unwrap_passkey c w (p ++ more) ≡ unwrap_passkey c w p)
      × (wrap_passkey c random dek (p ++ more) id ≡ wrap_passkey c random dek p id)
      × (w.factor ≡ password → unwrap_passkey c w p ≡ err Error.factor)
      × (w.factor ≡ passkey → unwrap_password c d w pw ≡ err Error.factor)
unfolding unwrap_password unwrap_passkey wrap_passkey
passkey_prefix c d w random dek pw p more id h =
    let same : prf_kek (p ++ more) ≡ prf_kek p = prf_kek-append p more h in
    (rw same, rw same, (λ e. rw e), λ e. rw e)

remove_at_total :
    (ws : List Wrap) (i : ℕ)
    → i < length ws
    → (w : Wrap) × (remove_at ws i ≡ some (w, take i ws ++ drop (suc i) ws))
      × (get_elem? ws i ≡ some w)
unfolding remove_at
remove_at_total [] i h = absurd (omega arith)
remove_at_total (w ∷ ws) zero h = (w, refl, refl)
remove_at_total (w ∷ ws) (suc i) h =
    let (x, e, g) = remove_at_total ws i (omega arith) in (x, rw e, g)

-- `remove_wrap` refuses to touch a list of one wrap or none, refuses an index out of range, and
-- otherwise takes out the wrap at the index and keeps all others in their order.
pub remove_wrap_lem :
    (ws : List Wrap) (i : ℕ)
    → (length ws ≤ 1 → remove_wrap ws i ≡ err last_factor)
      × (2 ≤ length ws → length ws ≤ i → remove_wrap ws i ≡ err Error.factor)
      × (2 ≤ length ws
          → i < length ws
          → (w : Wrap) × (get_elem? ws i ≡ some w)
            × (remove_wrap ws i ≡ ok (w, take i ws ++ drop (suc i) ws)))
unfolding remove_wrap
remove_wrap_lem ws i = (
  (λ h. ground arith),
  (λ h k. ground arith),
  λ h k. let (w, e, g) = remove_at_total ws i k in (w, g, ground (arith, e)),
)

length-remove_at :
    (ws rest : List Wrap) (i : ℕ) (w : Wrap)
    → remove_at ws i ≡ some (w, rest)
    → length ws ≡ length rest + 1
unfolding remove_at
length-remove_at [] rest i w h = absurd (cc)
length-remove_at (x ∷ ws) rest zero w h = ground arith
length-remove_at (x ∷ ws) rest (suc i) w h = elim (Option-cases (remove_at ws i)) [
  | inl e ↦ absurd (ground arith)
  | inr ((y, more), e) ↦ ground (arith, length-remove_at ws more i y e)
]

-- A removal that succeeds takes out one wrap and leaves at least one.
remove_wrap_keeps_one :
    (ws rest : List Wrap) (i : ℕ) (w : Wrap)
    → remove_wrap ws i ≡ ok (w, rest)
    → (1 ≤ length rest) × (length ws ≡ length rest + 1)
unfolding remove_wrap
remove_wrap_keeps_one ws rest i w h = elim (Option-cases (remove_at ws i)) [
  | inl e ↦ absurd (ground arith)
  | inr ((y, more), e) ↦ ground (arith, length-remove_at ws more i y e)
]
