-- ===== src/Assets/Paths.antt =====
-- The paths of `process.registerAssets`: the data folder of the user, and the slashes at the ends.
use node_apphost.Base.{
  ℕ, Str, js, Bool, true, false, List, [], ◌∷◌, ◌++◌, Option, none, some, if◌then◌else◌, ◌==◌, leb,
  ◌&&◌, drop,
}
use node_apphost.Base.Text.{split_on}
use node_apphost.Base.Search.{starts_with}

-- `[0-9]+\/` of the regular expression, behind `/data/user/`: what follows the match.
after_digits : Bool → Str → Option Str
after_digits seen [] = none
after_digits seen (c ∷ s) =
    let more = after_digits true s in
    if leb b'0' c && leb c b'9' then more else (if seen && (c == b'/') then some s else none)

after_user : Str → Option Str
unfolding after_digits
after_user s = if starts_with (js "/data/user/") s then after_digits false (drop 11 s) else none

-- `s.replace(/\/data\/user\/[0-9]+\//, "/data/data/")`.
unfoldable pub replace_user : Str → Str
unfolding after_user
replace_user [] = []
replace_user (c ∷ s) =
    let later = replace_user s in
    elim (after_user (c ∷ s)) [ none ↦ c ∷ later | some rest ↦ js "/data/data/" ++ rest ]

-- `while (pathname[0] == '/') pathname = pathname.substr(1);`.
unfoldable pub strip_front : Str → Str
strip_front [] = []
strip_front (c ∷ s) = let rest = strip_front s in if c == b'/' then rest else c ∷ s

-- `while (pathname[pathname.length - 1] == '/') pathname = pathname.substr(0, length - 1);`.
add_unless_slash : ℕ → Str → Str
add_unless_slash c [] = if c == b'/' then [] else c ∷ []
add_unless_slash c (d ∷ s) = c ∷ d ∷ s

unfoldable pub strip_back : Str → Str
unfolding add_unless_slash
strip_back [] = []
strip_back (c ∷ s) = add_unless_slash c (strip_back s)

-- The parts that `getLast` walks.
unfoldable pub parts : Str → List Str
unfolding strip_front strip_back
parts pathname = split_on b'/' (strip_back (strip_front pathname))
