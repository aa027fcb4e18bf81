-- ===== src/Client/Tree.antt =====
-- src/tui/tree.rs: the rows of the register, one for each credential.
pub mod Rows
pub mod Owned
pub mod Taken
pub mod Shown
pub mod Hidden
mod Tests
use secd.Base.{
  ℕ, zero, suc, ◌+◌, Bool, true, false, ◌&&◌, ◌||◌, Option, none, some, List, [], ◌∷◌, ◌++◌, map,
  length, take, ltb, ◌==◌, if◌then◌else◌,
}
use secd.Base.Text.{Str, str_eq, is_empty, contains, rsplit_once}
use secd.Base.Map.{Map, lookup, contains_key}
use secd.Base.Ordered.{put, has}
use secd.Client.Bundles.{BundleShape, lower}

pub record Row : Type 0 where
  pub label : Str
  pub provider : Option Str
  pub members : List Str

unfoldable pub descends : Row → Bool
descends row = ltb 1 (length row.members)

abbrev one_of : List Str → Option Str
one_of (one ∷ []) = some one
one_of _ = none

-- `Row::only`
unfoldable pub sole : Row → Option Str
sole row = one_of row.members

-- `zip(..).take_while(|(a, b)| a == b).count()`
unfoldable pub common : Str → Str → ℕ
common [] t = 0
common (_ ∷ _) [] = 0
common (a ∷ s) (b ∷ t) = let n = common s t in if a == b then suc n else 0

abbrev behind_slash : Option (Str × Str) → ℕ
behind_slash none = 0
behind_slash (some (l, _)) = length l + 1

unfoldable pub shared : Row → Option Row → ℕ
unfolding common
shared row none = 0
shared row (some prev) =
    behind_slash (rsplit_once b'/' (take (common row.label prev.label) row.label))

pub record Cred : Type 0 where
  pub provider : Option Str
  pub members : List Str

pub record Index : Type 0 where
  pub owner : Map Str
  pub creds : Map Cred

unfoldable pub held : List Str → List Str → List Str
held names [] = []
held names (m ∷ ms) = let rest = held names ms in if has m names then m ∷ rest else rest

-- `for m in &members { owner.insert(m, name) }`
unfoldable pub own : Str → List Str → Map Str → Map Str
own name [] owner = owner
own name (m ∷ ms) owner = own name ms (put m name owner)

-- One round of the loop over the shapes.
unfoldable pub add_shape : List Str → BundleShape → Index → Index
unfolding own held
add_shape names s ix =
    let members = held names s.members in
    if is_empty members then ix else record {
      owner = own s.name members ix.owner;
      creds = put s.name (record { provider = s.provider; members = members }) ix.creds;
    }

unfoldable pub add_shapes : List Str → List BundleShape → Index → Index
unfolding add_shape
add_shapes names [] ix = ix
add_shapes names (s ∷ ss) ix = add_shapes names ss (add_shape names s ix)

-- One round of the loop over the names.
unfoldable pub add_name : Str → Index → Index
add_name n ix = if contains_key n ix.owner then ix else record {
  owner = put n n ix.owner;
  creds = put n (record { provider = none; members = n ∷ [] }) ix.creds;
}

unfoldable pub add_names : List Str → Index → Index
unfolding add_name
add_names [] ix = ix
add_names (n ∷ ns) ix = add_names ns (add_name n ix)

abbrev pub empty : Index
empty = record { owner = []; creds = [] }

unfoldable pub build : List Str → List BundleShape → Index
unfolding add_shapes add_names
build names shapes = add_names names (add_shapes names shapes empty)

unfoldable pub owner_of : Str → Index → Option Str
owner_of name ix = lookup name ix.owner

abbrev is_many : Option Cred → Bool
is_many none = false
is_many (some c) = ltb 1 (length c.members)

unfoldable pub is_bundle : Str → Index → Bool
is_bundle prefix ix = is_many (lookup prefix ix.creds)

abbrev pub member_row : Str → Row
member_row m = record { label = m; provider = none; members = m ∷ [] }

abbrev pub cred_row : Str → Cred → Row
cred_row prefix c = record { label = prefix; provider = c.provider; members = c.members }

abbrev found_in : Str → Option Str → Bool
found_in want none = false
found_in want (some p) = contains want (lower p)

-- The test of the filter, in lower case.
unfoldable pub matches : Str → Str → Cred → Bool
matches want prefix c = is_empty want || (contains want (lower prefix) || found_in want c.provider)

unfoldable pub cred_rows : Str → Map Cred → List Row
unfolding matches
cred_rows want [] = []
cred_rows want ((prefix, c) ∷ creds) =
    let rest = cred_rows want creds in
    if matches want prefix c then cred_row prefix c ∷ rest else rest

abbrev opened : Option Cred → List Row → List Row
opened none register = register
opened (some c) register = if ltb 1 (length c.members) then map member_row c.members else register

unfoldable pub rows : Str → Str → Index → List Row
unfolding cred_rows
rows inside filter ix = opened (lookup inside ix.creds) (cred_rows (lower filter) ix.creds)

unfoldable pub total : Index → ℕ
total ix = length ix.creds
