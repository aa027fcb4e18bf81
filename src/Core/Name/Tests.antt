-- ===== src/Core/Name/Tests.antt =====
-- Runs of `check_name`, and its theorems at concrete names.
use secd.Base.{◌≡◌, refl, ◌↔◌}
use secd.Base.Text.{codes, starts_with, contains, split}
use secd.Base.Result.{ok, err}
use secd.Core.NameError.{slash, dot_dot, bad_char, empty}
use secd.Core.Name.{check_name}
use secd.Core.Name.Accepts.{IsName, check_name_iff}

check_name_tests :
    (check_name (codes "kv/gitea/token") ≡ ok tt)
    × (check_name (codes "") ≡ err empty)
    × (check_name (codes "a/") ≡ err slash)
    × (check_name (codes "a/../b") ≡ err dot_dot)
    × (check_name (codes "a//b") ≡ err bad_char)
    × (check_name (codes "a b") ≡ err bad_char)
unfolding check_name starts_with contains split
check_name_tests = (refl, refl, refl, refl, refl, refl)

check_name_iff_example : (check_name (codes "prod/github") ≡ ok tt) ↔ IsName (codes "prod/github")
check_name_iff_example = check_name_iff (codes "prod/github")
