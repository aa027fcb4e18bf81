-- ===== src/Server/Auth/Rate.antt =====
-- The rate limit against a specification that keeps every call that was allowed.
use secd.Base.{
  ℕ, ◌≤◌, Bool, true, false, ◌≡◌, refl, sym, ap, ◌∙◌, inl, inr, List, [], ◌∷◌, ◌++◌, length, leb,
  ltb, if◌then◌else◌, arith, Bool-cases, subst,
}
use secd.Base.Text.{Str, str_eq, str_eq_iff, str_eq_refl}
use secd.Base.Map.{Map, lookup, insert, lookup-insert_same, lookup-insert_other}
use secd.Server.Auth.{recent, bucket, allow_rate}

-- A call is an address and a time. The specification remembers the allowed ones, in their order.
abbrev pub Call : Type 0
Call = Str × ℕ

-- The allowed times of an address.
unfoldable pub times : Str → List Call → List ℕ
times ip [] = []
times ip ((j, t) ∷ h) = let rest = times ip h in if str_eq j ip then t ∷ rest else rest

-- Allowed where fewer than ten calls of the address were allowed within the last minute.
abbrev pub allowed : Str → ℕ → List Call → Bool
allowed ip now h = ltb (length (recent now (times ip h))) 10

-- The decisions over a sequence of calls, by the specification and by the program.
unfoldable pub specified : List Call → List Call → List Bool
specified h [] = []
specified h ((ip, now) ∷ calls) =
    allowed ip now h ∷ specified (if allowed ip now h then h ++ (ip, now) ∷ [] else h) calls

unfoldable pub decisions : Map (List ℕ) → List Call → List Bool
decisions m [] = []
decisions m ((ip, now) ∷ calls) = let (ok, next) = allow_rate ip now m in ok ∷ decisions next calls

-- The clock does not run backwards.
abbrev pub Ascending : ℕ → List Call → Type 0
Ascending last [] = Unit
Ascending last ((ip, now) ∷ calls) = (last ≤ now) × Ascending now calls

recent-later :
    (last now : ℕ) (ts : List ℕ) → last ≤ now → recent now (recent last ts) ≡ recent now ts
unfolding recent
recent-later last now [] le = refl
recent-later last now (t ∷ ts) le = ground (arith, recent-later last now ts le)

recent-append : (now : ℕ) (ts : List ℕ) → recent now (ts ++ now ∷ []) ≡ recent now ts ++ now ∷ []
unfolding recent
recent-append now [] = ground arith
recent-append now (t ∷ ts) = ground (arith, recent-append now ts)

times-append_same :
    (ip : Str) (t : ℕ) (h : List Call) → times ip (h ++ (ip, t) ∷ []) ≡ times ip h ++ t ∷ []
unfolding times
times-append_same ip t [] = rw (str_eq_refl ip) refl
times-append_same ip t ((j, s) ∷ h) = ground (arith, times-append_same ip t h)

times-append_other :
    (ip j : Str) (t : ℕ) (h : List Call)
    → str_eq j ip ≡ false
    → times ip (h ++ (j, t) ∷ []) ≡ times ip h
unfolding times
times-append_other ip j t [] e = rw e refl
times-append_other ip j t ((k, s) ∷ h) e = ground (arith, times-append_other ip j t h e)

-- What the buckets and the specification agree on at a time.
record Agrees (now : ℕ) (m : Map (List ℕ)) (h : List Call) : Type 0 where
  at : (ip : Str) → recent now (bucket ip m) ≡ recent now (times ip h)

Agrees-later :
    (last now : ℕ) (m : Map (List ℕ)) (h : List Call)
    → last ≤ now
    → Agrees last m h
    → Agrees now m h
Agrees-later last now m h le a = record {
  at = λ ip.
      sym (recent-later last now (bucket ip m) le)
      ∙ ap (recent now) (a.at ip)
      ∙ recent-later last now (times ip h) le;
}

Agrees-insert :
    (now : ℕ) (ip : Str) (w : List ℕ) (m : Map (List ℕ)) (h h' : List Call)
    → Agrees now m h
    → recent now w ≡ recent now (times ip h')
    → ((j : Str) → str_eq ip j ≡ false → times j h' ≡ times j h)
    → Agrees now (insert ip w m) h'
Agrees-insert now ip w m h h' a same others = record {
  at = λ j. elim (Bool-cases (str_eq ip j)) [
    | inl e ↦
        let q : ip ≡ j = (str_eq_iff ip j).0 e in
        subst (λ k. recent now (bucket k (insert ip w m)) ≡ recent now (times k h')) q
          (rw (lookup-insert_same ip w m) same)
    | inr e ↦ rw (lookup-insert_other ip j w m e, others j e) (a.at j)
  ];
}

decisions_lem :
    (calls : List Call) (last : ℕ) (m : Map (List ℕ)) (h : List Call)
    → Ascending last calls
    → Agrees last m h
    → decisions m calls ≡ specified h calls
unfolding decisions specified allow_rate
decisions_lem [] last m h up a = refl
decisions_lem ((ip, now) ∷ calls) last m h (le, up) a =
    let b = Agrees-later last now m h le a in
    let w = recent now (times ip h) in
    let same = b.at ip in
    let still : recent now w ≡ w = recent-later now now (times ip h) (omega arith) in
    elim (Bool-cases (leb 10 (length w))) [
      | inl full ↦
          let no_more : ltb (length w) 10 ≡ false = ground arith in
          let next = Agrees-insert now ip w m h h b still (λ j e. refl) in
          rw (same, full, no_more) (ap (λ ds. false ∷ ds) (decisions_lem calls now _ h up next))
      | inr room ↦
          let one_more : ltb (length w) 10 ≡ true = ground arith in
          let h' = h ++ (ip, now) ∷ [] in
          let grown = recent-append now w ∙ ap (λ l. l ++ now ∷ []) still in
          let spec : recent now (times ip h') ≡ w ++ now ∷ [] =
            ap (recent now) (times-append_same ip now h) ∙ recent-append now (times ip h) in
          let next =
            Agrees-insert now ip (w ++ now ∷ []) m h h' b (grown ∙ sym spec)
              (λ j e. times-append_other j ip now h e) in
          rw (same, room, one_more) (ap (λ ds. true ∷ ds) (decisions_lem calls now _ h' up next))
    ]

-- Over any sequence of calls from any addresses whose times do not fall, the rate limit decides like
-- the specification that remembers every allowed call: a call is allowed exactly where fewer than ten
-- calls of its address were allowed within the minute before it.
pub allow_rate_refines :
    (calls : List Call) → Ascending 0 calls → decisions [] calls ≡ specified [] calls
unfolding lookup times
allow_rate_refines calls up = decisions_lem calls 0 [] [] up (record { at = λ ip. refl })
