-- ===== src/Assets/Tree.antt =====
-- The virtual directories: a plain object for each, whose key `!s` is the size of a file and whose
-- other keys are the entries. No entry of a package is called `!s` or `__proto__`.
pub mod Sizes
pub mod Walks
use node_apphost.Base.{
  ℕ, Str, js, str_eq, Bool, true, false, List, [], ◌∷◌, ◌++◌, Option, none, some, if◌then◌else◌,
  ◌==◌,
}
use node_apphost.Base.Text.{split_on}
use node_apphost.Base.Dict.{Dict}
use node_apphost.Mobile.Methods.{is_inherited}

mutual
  pub data Tree : Type 0 where
    node : Option ℕ → Forest → Tree

  pub data Forest : Type 0 where
    nil : Forest
    entry : Str → Tree → Forest → Forest

abbrev pub empty : Tree
empty = node none nil

-- `last['!s']`.
abbrev pub size : Tree → Option ℕ
size (node n f) = n

abbrev pub entries : Tree → Forest
entries (node n f) = f

-- `last[loc]` of an own key.
unfoldable pub child : Str → Forest → Option Tree
child k nil = none
child k (entry j t f) = if str_eq j k then some t else child k f

-- `last[loc] = t`.
unfoldable pub put_child : Str → Tree → Forest → Forest
put_child k t nil = entry k t nil
put_child k t (entry j u f) = if str_eq j k then entry j t f else entry j u (put_child k t f)

-- `if (!last.hasOwnProperty(loc)) last[loc] = {}`, and the entry that is then there.
unfoldable pub or_empty : Option Tree → Tree
or_empty none = empty
or_empty (some t) = t

-- One round of the first loop of `prepVirtualDirs`: the path is walked, and the size set at its end. A
-- path with a part `__proto__` or `hasOwnProperty`, which breaks the loop's own tests, is not modelled.
unfoldable pub add_file : List Str → ℕ → Tree → Tree
unfolding or_empty child put_child
add_file [] n (node s f) = node (some n) f
add_file (loc ∷ sub) n (node s f) =
    node s (put_child loc (add_file sub n (or_empty (child loc f))) f)

-- The first loop of `prepVirtualDirs`, over what `assetReadDirSync` lists.
unfoldable pub add_files : List (Str × ℕ) → Tree → Tree
unfolding add_file
add_files [] t = t
add_files ((o, n) ∷ folders) t = add_files folders (add_file (split_on b'/' o) n t)

-- `if (sp[0] === '') sp.shift()`.
unfoldable pub shift_empty : List Str → List Str
shift_empty ([] ∷ sp) = sp
shift_empty sp = sp

-- The second loop: a folder for each part of the root but `jxcore`, and the files below.
unfoldable pub wrap : List Str → Tree → Tree
wrap [] files = node none (entry (js "jxcore") files nil)
wrap (spo ∷ sp) files =
    let below = wrap sp files in
    if str_eq spo (js "jxcore") then below else node none (entry spo below nil)

-- The variables `folders` and `jxcore_root` that `prepVirtualDirs` leaves.
pub record Roots : Type 0 where
  pub folders : Tree
  pub jxcore_root : Tree

unfoldable pub prep_virtual_dirs : Str → List (Str × ℕ) → Roots
unfolding add_files shift_empty wrap
prep_virtual_dirs sroot assets =
    let files = add_files assets empty in
    record { folders = wrap (shift_empty (split_on b'/' sroot)) files; jxcore_root = files }

-- What a walk can end at: a directory object, or another value that is truthy (a size, or what
-- every object inherits).
pub data Found : Type 0 where
  directory : Tree → Found
  other : Found

nonzero : Option ℕ → Option Found
nonzero none = none
nonzero (some n) = if n == 0 then none else some other

-- `last[subject]`, if it is truthy.
unfoldable pub member_of : Str → Option Tree → Option ℕ → Option Found
unfolding nonzero
member_of subject (some t) n = some (directory t)
member_of subject none n =
    if str_eq subject (js "!s")
    then nonzero n
    else (if is_inherited subject then some other else none)

member : Str → Tree → Option Found
unfolding member_of child
member subject (node n f) = member_of subject (child subject f) n

-- `findIn`. `chain` tells whether a walk through further members of a value that is no directory
-- ends at a truthy one.
unfoldable pub find_in : (List Str → Bool) → List Str → Tree → Option Found
unfolding member
find_in chain [] last = some (directory last)
find_in chain (subject ∷ what) last = elim (member subject last) [
  | none ↦ none
  | some (directory t) ↦ find_in chain what t
  | some other ↦ if chain what then some other else none
]
