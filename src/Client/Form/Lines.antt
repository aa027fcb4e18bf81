-- ===== src/Client/Form/Lines.antt =====
-- The caret stands in its text, whatever is typed: no index into a line is past its end.
use secd.Base.{
  ℕ, zero, suc, ◌+◌, ◌-◌, ◌≤◌, ◌<◌, ◌≡◌, refl, ap, inl, inr, List, [], ◌∷◌, length, take, drop,
  replicate, All, All-append, All-take, length-append, length-take, length-drop, arith, ltb, ◌==◌,
  Bool-cases,
}
use secd.Base.Text.{Str}
use secd.Base.Utf8.{IsScalar}
use secd.Base.Utf8.RoundTrip.{chars-IsScalar}
use secd.Client.Form.Line
use secd.Client.Form.Line.{Input, insert_at, remove_at, start_of, end_of, from_text, window, bullet}

pub record IsLine (input : Input) : Type 0 where
  pub within : input.caret ≤ length input.chars
  pub scalars : All IsScalar input.chars

pub All-drop : (n : ℕ) (cs : List ℕ) → All IsScalar cs → All IsScalar (drop n cs)
All-drop zero cs h = h
All-drop (suc n) [] h = tt
All-drop (suc n) (c ∷ cs) h = All-drop n cs h.1

pub All-replicate : (n c : ℕ) → IsScalar c → All IsScalar (replicate n c)
All-replicate zero c h = tt
All-replicate (suc n) c h = (h, All-replicate n c h)

pub length-replicate : (n c : ℕ) → length (replicate n c) ≡ n
length-replicate zero c = refl
length-replicate (suc n) c = ap suc (length-replicate n c)

length-insert_at :
    (i c : ℕ) (cs : List ℕ) → i ≤ length cs → length (insert_at i c cs) ≡ length cs + 1
length-insert_at i c cs h =
    omega (arith, length-append (take i cs) (c ∷ drop i cs), length-take i cs, length-drop i cs)

length-remove_at : (i : ℕ) (cs : List ℕ) → i < length cs → length (remove_at i cs) + 1 ≡ length cs
length-remove_at i cs h =
    omega
      (arith, length-append (take i cs) (drop (i + 1) cs), length-take i cs, length-drop (i + 1) cs)

All-insert_at :
    (i c : ℕ) (cs : List ℕ) → IsScalar c → All IsScalar cs → All IsScalar (insert_at i c cs)
All-insert_at i c cs s h =
    All-append IsScalar (take i cs) (c ∷ drop i cs) (All-take IsScalar i cs h) (s, All-drop i cs h)

All-remove_at : (i : ℕ) (cs : List ℕ) → All IsScalar cs → All IsScalar (remove_at i cs)
All-remove_at i cs h =
    All-append IsScalar (take i cs) (drop (i + 1) cs) (All-take IsScalar i cs h)
      (All-drop (i + 1) cs h)

module _ {input : Input} (v : IsLine input) where
  pub insert-IsLine : (c : ℕ) → IsScalar c → IsLine (Line.insert c input)
  unfolding Line.insert
  insert-IsLine c s = record {
    within = omega (arith, length-insert_at input.caret c input.chars v.within);
    scalars = All-insert_at input.caret c input.chars s v.scalars;
  }

  pub backspace-IsLine : IsLine (Line.backspace input)
  unfolding Line.backspace
  backspace-IsLine = elim (Bool-cases (input.caret == 0)) [
    | inl e ↦ rw e v
    | inr e ↦ rw e (record {
      within =
          let some_left : 0 < input.caret = ground arith in
          let w = v.within in
          omega (arith, length-remove_at (input.caret - 1) input.chars (omega arith));
      scalars = All-remove_at (input.caret - 1) input.chars v.scalars;
    })
  ]

  pub delete-IsLine : IsLine (Line.delete input)
  unfolding Line.delete
  delete-IsLine = elim (Bool-cases (ltb input.caret (length input.chars))) [
    | inl e ↦ rw e (record {
      within =
          let more : input.caret < length input.chars = ground arith in
          omega (arith, length-remove_at input.caret input.chars more);
      scalars = All-remove_at input.caret input.chars v.scalars;
    })
    | inr e ↦ rw e v
  ]

  pub left-IsLine : IsLine (Line.left input)
  unfolding Line.left
  left-IsLine = let w = v.within in record { within = omega arith; scalars = v.scalars }

  pub right-IsLine : IsLine (Line.right input)
  unfolding Line.right
  right-IsLine = let w = v.within in record { within = ground arith; scalars = v.scalars }

  pub home-IsLine : IsLine (Line.home input)
  unfolding Line.home
  home-IsLine = record { within = omega arith; scalars = v.scalars }

  pub end-IsLine : IsLine (Line.end input)
  unfolding Line.end
  end-IsLine = record { within = omega arith; scalars = v.scalars }

pub from_text-IsLine : (s : Str) → IsLine (Line.from_text s)
unfolding Line.from_text
from_text-IsLine s = record { within = omega arith; scalars = chars-IsScalar s }
