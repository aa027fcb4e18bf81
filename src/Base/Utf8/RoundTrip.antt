-- ===== src/Base/Utf8/RoundTrip.antt =====
-- Writing and reading characters are inverse to one another.
use Prim.Native.Nat.{ℕ, suc, zero, ◌+◌, ◌-◌, ◌*◌, ◌<◌, ◌≤◌}
use mathlib.Core.Path.{◌≡◌, refl, ap, ◌∙◌, sym}
use mathlib.Core.Logic.{inl, inr}
use mathlib.Core.Bool.{false}
use mathlib.Core.Option.{Option, none, some}
use mathlib.Core.List.{List, [], ◌∷◌, ◌++◌, reverse, reverse-append, append_assoc, reverse-reverse}
use native.Mathlib.Omega.{arith}
use secd.Base.Bools.{ltb, ◌==◌, if◌then◌else◌, between, Bool-cases, Option-cases}
use secd.Base.Lists.{All}
use secd.Base.Text.{Str}
use secd.Base.Utf8.{
  IsScalar, encode_char, collect, Reader, ready, within, refused, lead, then_char, read, decode,
  chars, push_char, drop_char, pop_char,
}
use secd.Base.Utf8.Reading.{
  read-lead, read_last, read_more, read_one, lead_two, lead_three, lead_four, read-encode_char,
}

decode-collect : (cs : List ℕ) → All IsScalar cs → decode (collect cs) ≡ some cs
unfolding decode collect
decode-collect [] h = refl
decode-collect (c ∷ cs) h =
    read-encode_char c (collect cs) h.0 ∙ ap (then_char c) (decode-collect cs h.1)

pub chars-collect : (cs : List ℕ) → All IsScalar cs → chars (collect cs) ≡ cs
unfolding chars
chars-collect cs h = rw (decode-collect cs h) refl

-- However the bytes to come are read, `seen` and they are the encoding of a scalar value.
abbrev Sees : ℕ → ℕ → ℕ → ℕ → Str → Type 0
Sees zero acc lo hi seen =
    (b : ℕ)
    → lo ≤ b
    → b ≤ hi
    → (encode_char (acc * 64 + (b - 0x80)) ≡ seen ++ b ∷ []) × IsScalar (acc * 64 + (b - 0x80))
Sees (suc n) acc lo hi seen =
    (b : ℕ) → lo ≤ b → b ≤ hi → Sees n (acc * 64 + (b - 0x80)) 0x80 0xbf (seen ++ b ∷ [])

abbrev SeesAt : Reader → Str → Type 0
SeesAt ready seen = seen ≡ []
SeesAt (within n acc lo hi) seen = Sees n acc lo hi seen
SeesAt refused seen = Unit

Sees-two : (a : ℕ) → 0xc2 ≤ a → a ≤ 0xdf → Sees 0 (a - 0xc0) 0x80 0xbf (a ∷ [])
unfolding encode_char
Sees-two a h k b l r = ground arith

Sees-three :
    (a : ℕ)
    → 0xe0 ≤ a
    → a ≤ 0xef
    → Sees 1
        (a - 0xe0)
        (if a == 0xe0 then 0xa0 else 0x80)
        (if a == 0xed then 0x9f else 0xbf)
        (a ∷ [])
unfolding encode_char
Sees-three a h k b l r d l' r' = ground arith

Sees-four :
    (a : ℕ)
    → 0xf0 ≤ a
    → a ≤ 0xf4
    → Sees 2
        (a - 0xf0)
        (if a == 0xf0 then 0x90 else 0x80)
        (if a == 0xf4 then 0x8f else 0xbf)
        (a ∷ [])
unfolding encode_char
Sees-four a h k b l r d l' r' f m n = ground arith

lead-SeesAt : (b : ℕ) → 128 ≤ b → SeesAt (lead b) (b ∷ [])
lead-SeesAt b h = elim (Bool-cases (between 0xc2 0xdf b)) [
  | inl e ↦ rw (lead_two b (ground arith) (ground arith)) (Sees-two b (ground arith) (ground arith))
  | inr e ↦ elim (Bool-cases (between 0xe0 0xef b)) [
    | inl f ↦
        rw (lead_three b (ground arith) (ground arith)) (Sees-three b (ground arith) (ground arith))
    | inr f ↦ elim (Bool-cases (between 0xf0 0xf4 b)) [
      | inl g ↦
          rw (lead_four b (ground arith) (ground arith)) (Sees-four b (ground arith) (ground arith))
      | inr g ↦ rw (lead_none b (ground arith) (ground arith) (ground arith)) tt
    ]
  ]
]
  where
    lead_none :
        (a : ℕ)
        → between 0xc2 0xdf a ≡ false
        → between 0xe0 0xef a ≡ false
        → between 0xf0 0xf4 a ≡ false
        → lead a ≡ refused
    lead_none a p q r = unfold lead in ground arith

then_char-eq-some :
    (c : ℕ) (o : Option (List ℕ)) (cs : List ℕ)
    → then_char c o ≡ some cs
    → (ds : List ℕ) × (o ≡ some ds) × (cs ≡ c ∷ ds)
then_char-eq-some c none cs h = absurd (cc)
then_char-eq-some c (some ds) cs h = (ds, refl, cc)

read_outside :
    (n acc lo hi b : ℕ) (s : Str)
    → between lo hi b ≡ false
    → read (within n acc lo hi) (b ∷ s) ≡ none
unfolding read
read_outside zero acc lo hi b s h = ground arith
read_outside (suc n) acc lo hi b s h = ground arith

encode_one : (b : ℕ) → b < 0x80 → encode_char b ≡ b ∷ []
unfolding encode_char
encode_one b h = ground arith

accept_char :
    (c : ℕ) (ds cs : List ℕ) (bytes s : Str)
    → encode_char c ≡ bytes
    → IsScalar c
    → cs ≡ c ∷ ds
    → (collect ds ≡ s) × All IsScalar ds
    → (collect cs ≡ bytes ++ s) × All IsScalar cs
unfolding collect
accept_char c ds cs bytes s enc scalar e h = rw (e, enc, h.0) (refl, (scalar, h.1))

-- What a reader accepts is the encoding of what it returns.
accepted :
    (r : Reader) (s seen : Str) (cs : List ℕ)
    → SeesAt r seen
    → read r s ≡ some cs
    → (collect cs ≡ seen ++ s) × All IsScalar cs
unfolding collect read
accepted ready [] seen cs h e = let none_left : cs ≡ [] = cc in rw (none_left, h) (refl, tt)
accepted refused [] seen cs h e = absurd (cc)
accepted refused (b ∷ s) seen cs h e = absurd (cc)
accepted (within n acc lo hi) [] seen cs h e = absurd (cc)
accepted ready (b ∷ s) seen cs h e = elim (Bool-cases (ltb b 0x80)) [
  | inl t ↦
      let small : b < 0x80 = ground arith in
      let (ds, f, g) = then_char-eq-some b (read ready s) cs (sym (read_one b s small) ∙ e) in
      rw h (
        accept_char b ds cs (b ∷ []) s (encode_one b small) (inl (omega arith)) g
          (accepted ready s [] ds refl f))
  | inr t ↦
      let more : 128 ≤ b = ground arith in
      let (same, all) =
        accepted (lead b) s (b ∷ []) cs (lead-SeesAt b more) (sym (read-lead b s more) ∙ e) in
      rw h (same, all)
]
accepted (within zero acc lo hi) (b ∷ s) seen cs h e = elim (Bool-cases (between lo hi b)) [
  | inl t ↦
      let c = acc * 64 + (b - 0x80) in
      let (ds, f, g) =
        then_char-eq-some c (read ready s) cs
          (sym (read_last acc lo hi b s (ground arith) (ground arith)) ∙ e) in
      let (bytes, scalar) = h b (ground arith) (ground arith) in
      let (same, all) =
        accept_char c ds cs (seen ++ b ∷ []) s bytes scalar g (accepted ready s [] ds refl f) in
      (same ∙ append_assoc seen (b ∷ []) s, all)
  | inr t ↦ absurd (let q = read_outside zero acc lo hi b s t in cc)
]
accepted (within (suc n) acc lo hi) (b ∷ s) seen cs h e = elim (Bool-cases (between lo hi b)) [
  | inl t ↦
      let (same, all) =
        accepted (within n (acc * 64 + (b - 0x80)) 0x80 0xbf) s (seen ++ b ∷ []) cs
          (h b (ground arith) (ground arith))
          (sym (read_more n acc lo hi b s (ground arith) (ground arith)) ∙ e) in
      (same ∙ append_assoc seen (b ∷ []) s, all)
  | inr t ↦ absurd (let q = read_outside (suc n) acc lo hi b s t in cc)
]

-- What decodes is the encoding of its characters, which are scalar values.
pub collect-decode :
    (s : Str) (cs : List ℕ) → decode s ≡ some cs → (collect cs ≡ s) × All IsScalar cs
unfolding decode
collect-decode s cs h = accepted ready s [] cs refl h

pub collect-chars : (s : Str) (cs : List ℕ) → decode s ≡ some cs → collect (chars s) ≡ s
unfolding chars
collect-chars s cs h = rw h (collect-decode s cs h).0

last_char : (c : ℕ) (t : Str) → IsScalar c → drop_char (reverse (encode_char c) ++ t) ≡ t
unfolding encode_char drop_char
last_char c t h = ground arith

-- `pop` takes back what `push` added.
pub pop_char-push_char : (s : Str) (c : ℕ) → IsScalar c → pop_char (push_char s c) ≡ s
unfolding pop_char push_char
pop_char-push_char s c h =
    rw (reverse-append s (encode_char c))
      (ap reverse (last_char c (reverse s) h) ∙ reverse-reverse s)

pub chars-IsScalar : (s : Str) → All IsScalar (chars s)
chars-IsScalar s = elim (Option-cases (decode s)) [
  | inl e ↦ unfold chars in rw e tt
  | inr (cs, e) ↦ unfold chars in rw e (collect-decode s cs e).1
]
