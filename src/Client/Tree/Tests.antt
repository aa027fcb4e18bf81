-- ===== src/Client/Tree/Tests.antt =====
-- The tree of a register with a bundle, and of one with an entry that has the name of the bundle.
use secd.Base.{◌≡◌, refl, true, false, In, none, some, List, [], ◌∷◌, All}
use secd.Base.Text.{Str, codes, str_eq, rsplit_once, strip_prefix}
use secd.Base.Utf8.{from_utf8}
use secd.Base.Map.{lookup}
use secd.Core.Provider.{infer, candidates, filter_names}
use secd.Core.Provider.Builtins.{builtins}
use secd.Base.Json.{object, end}
use secd.Base.Ordered.{has, put}
use secd.Client.Bundles
use secd.Client.Bundles.{BundleShape, shapes_of}
use secd.Client.Tree.{Row, build, rows, is_bundle, owner_of}
use secd.Client.Tree.Shown.{entry_shown}
use secd.Client.Tree.Hidden.{bundle_hidden}

abbrev entry : Str → Bundles.Row
entry name = record { name = name; value = record { as_bytes = codes "x" }; meta = object end }

abbrev shape : BundleShape
shape = record {
  name = codes "g";
  provider = some (codes "gitea");
  members = codes "g/token" ∷ codes "g/url" ∷ [];
}

-- The shape is what the entries give.
shapes : shapes_of (λ s. none) (entry (codes "g/token") ∷ entry (codes "g/url") ∷ []) ≡ shape ∷ []
unfolding shapes_of has rsplit_once put str_eq lookup from_utf8 infer candidates filter_names
    builtins strip_prefix
shapes = refl

abbrev names : List Str
names = codes "g/token" ∷ codes "g/url" ∷ codes "other" ∷ []

entry_shown_example :
    (r : Row) × In r (rows [] [] (build names (shape ∷ [])))
    × (has (codes "g/url") r.members ≡ true)
    × (owner_of (codes "g/url") (build names (shape ∷ [])) ≡ some r.label)
unfolding has str_eq is_bundle build lookup put
entry_shown_example =
    entry_shown names (shape ∷ []) (codes "g/url") (tt, tt) ((λ h. absurd (cc)), tt) refl refl

-- With an entry `g` the register has one row, and it stands for that entry.
abbrev clashing : List Str
clashing = codes "g" ∷ codes "g/token" ∷ codes "g/url" ∷ []

one_row :
    rows [] [] (build clashing (shape ∷ []))
    ≡ record { label = codes "g"; provider = none; members = codes "g" ∷ [] } ∷ []
unfolding build rows lookup str_eq has put
one_row = refl

bundle_hidden_example :
    All
      (λ (r : Row). has (codes "g/url") r.members ≡ false)
      (rows [] [] (build clashing (shape ∷ [])))
unfolding has str_eq is_bundle build lookup put
bundle_hidden_example =
    bundle_hidden clashing (shape ∷ []) (codes "g/url") (codes "g") (((λ h. absurd (cc)), refl), tt)
      refl refl refl refl refl
