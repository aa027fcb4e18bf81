-- ===== src/Client/Tree/Rows.antt =====
-- Which entries the rows of the register show.
use secd.Base.{true, ◌&&◌, ◌≡◌, refl, some, List, [], ◌∷◌, All, arith, if◌then◌else◌}
use secd.Base.Text.{Str, str_eq_iff, str_eq_refl}
use secd.Base.Map.{Map, lookup}
use secd.Base.Ordered.{put, has}
use secd.Base.Ordered.Laws.{lookup-put}
use secd.Client.Tree.{held, own}

-- `m` stands among the members of a shape, and the register holds it.
pub has-held :
    (names : List Str) (n : Str) (ms : List Str) → has n (held names ms) ≡ (has n ms && has n names)
unfolding has held
has-held names n [] = refl
has-held names n (m ∷ ms) = ground (arith, has-held names n ms, str_eq_iff m n)

pub lookup-own :
    (p : Str) (ms : List Str) (n : Str) (owner : Map Str)
    → lookup n (own p ms owner) ≡ (if has n ms then some p else lookup n owner)
unfolding has own
lookup-own p [] n owner = refl
lookup-own p (m ∷ ms) n owner =
    ground (arith, lookup-own p ms n (put m p owner), lookup-put m n p owner)

abbrev pub Held : List Str → List Str → Type 0
Held names = All (λ n. has n names ≡ true)

pub All-has_self :
    (names ns : List Str) → ((n : Str) → has n ns ≡ true → has n names ≡ true) → Held names ns
unfolding has
All-has_self names [] f = tt
All-has_self names (n ∷ ns) f =
    (f n (rw (str_eq_refl n) refl), All-has_self names ns (λ m h. f m (ground (arith, h))))
