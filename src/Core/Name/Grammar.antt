-- ===== src/Core/Name/Grammar.antt =====
-- The language of `[A-Za-z0-9._@-]+(?:/[A-Za-z0-9._@-]+)*`, and its bridge to the pieces that
-- `check_name` looks at.
use secd.Base.{
  ℕ, Bool, true, false, ◌≡◌, inl, inr, List, [], ◌∷◌, all, arith, ◌==◌, ==_iff, Bool-cases,
}
use secd.Base.Text.{Str, split, push_head}
use secd.Core.Name.{is_name_byte, segment_ok}

-- The regular expression, read as a grammar: a name byte ends a name, or goes before more of the
-- same segment, or before a slash and a further name.
pub data Matches : Str → Type 0 where
  last : (b : ℕ) → is_name_byte b ≡ true → Matches (b ∷ [])
  more : (b : ℕ) {s : Str} → is_name_byte b ≡ true → Matches s → Matches (b ∷ s)
  slash : (b c : ℕ) {s : Str} → is_name_byte b ≡ true → c ≡ b'/' → Matches s → Matches (b ∷ c ∷ s)

not_slash : (b : ℕ) → is_name_byte b ≡ true → (b == b'/') ≡ false
unfolding is_name_byte
not_slash b h = ground arith

unfoldable pub segments_ok : Str → Bool
segments_ok s = all segment_ok (split b'/' s)

-- Inside a segment a name byte may be put in front of an accepted text.
push-segments_ok :
    (b : ℕ) (ws : List Str)
    → is_name_byte b ≡ true
    → all segment_ok ws ≡ true
    → all segment_ok (push_head b ws) ≡ true
push-segments_ok b [] h k = rw h
push-segments_ok b ([] ∷ ws) h k = cc
push-segments_ok b ((c ∷ w) ∷ ws) h k = ground arith

pub Matches-segments_ok : {s : Str} → Matches s → segments_ok s ≡ true
unfolding segments_ok split
Matches-segments_ok (last b h) = rw (not_slash b h) (rw h)
Matches-segments_ok (more b {s} h m) =
    rw (not_slash b h) (push-segments_ok b (split b'/' s) h (Matches-segments_ok m))
Matches-segments_ok (slash b c {s} h e m) = rw (not_slash b h) (rw e (rw h (Matches-segments_ok m)))

-- What the pieces of a text say about its first two bytes.
pull-segments_ok :
    (b : ℕ) (ws : List Str) → all segment_ok (push_head b ws) ≡ true → is_name_byte b ≡ true
pull-segments_ok b [] h = ground arith
pull-segments_ok b (w ∷ ws) h = ground arith

keep-segments_ok :
    (b c : ℕ) (ws : List Str)
    → all segment_ok (push_head b (push_head c ws)) ≡ true
    → all segment_ok (push_head c ws) ≡ true
keep-segments_ok b c [] h = ground arith
keep-segments_ok b c (w ∷ ws) h = ground arith

split_slash : (c : ℕ) (s : Str) → (c == b'/') ≡ true → split b'/' (c ∷ s) ≡ [] ∷ split b'/' s
unfolding split
split_slash c s e = rw e

split_other :
    (c : ℕ) (s : Str) → (c == b'/') ≡ false → split b'/' (c ∷ s) ≡ push_head c (split b'/' s)
unfolding split
split_other c s e = rw e

segments_ok_slash : (b : ℕ) (s : Str) → (b == b'/') ≡ true → segments_ok (b ∷ s) ≡ false
unfolding segments_ok
segments_ok_slash b s e = rw (split_slash b s e)

pub segments_ok-Matches : (s : Str) → segments_ok s ≡ true → Matches s
unfolding segments_ok split
segments_ok-Matches [] h = absurd (cc)
segments_ok-Matches (b ∷ []) h = last b (ground arith)
segments_ok-Matches (b ∷ c ∷ s) h = elim (Bool-cases (b == b'/')) [
  | inl e ↦ absurd (cc (segments_ok_slash b (c ∷ s) e))
  | inr e ↦
      let k : all segment_ok (push_head b (split b'/' (c ∷ s))) ≡ true = rw e at h in
      let name : is_name_byte b ≡ true = pull-segments_ok b (split b'/' (c ∷ s)) k in
      elim (Bool-cases (c == b'/')) [
        | inl d ↦
            slash b c name ((==_iff c b'/').0 d)
              (segments_ok-Matches s (ground (arith, split_slash c s d)))
        | inr d ↦ more b name (
            segments_ok-Matches (c ∷ s) (
              rw (split_other c s d)
                (keep-segments_ok b c (split b'/' s) (rw (split_other c s d) at k))))
      ]
]
