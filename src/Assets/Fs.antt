-- ===== src/Assets/Fs.antt =====
-- The `fs` extension of `process.registerAssets`: existsSync, readFileSync and readDirSync.
pub mod Lookups
pub mod Registered
pub mod Inodes
pub mod Listing
use node_apphost.Base.{
  ℕ, zero, suc, ◌+◌, Str, js, Bool, true, false, List, [], ◌∷◌, ◌++◌, Option, none, some,
  if◌then◌else◌, is_empty,
}
use node_apphost.Base.Dict.{Dict, lookup, insert}
use node_apphost.Base.Search.{starts_with, index_of, replace}
use node_apphost.Assets.Tree.{
  Tree, node, Forest, nil, entry, size, Roots, prep_virtual_dirs, Found, directory, other, find_in,
}
use node_apphost.Assets.Paths.{replace_user, parts}

-- The variables `root`, `sroot`, `hasRootLink`, `folders` and `jxcore_root`.
pub record Package : Type 0 where
  pub root : Str
  pub sroot : Str
  pub has_root_link : Bool
  pub roots : Roots

-- The start of `registerAssets`; `root` is `process.cwd()`.
unfoldable pub register_assets : Str → List (Str × ℕ) → Package
register_assets root assets =
    let linked = starts_with (js "/data/user/") root in
    let sroot = if linked then replace_user root else root in
    record {
      root = root;
      sroot = sroot;
      has_root_link = linked;
      roots = prep_virtual_dirs sroot assets;
    }

pub record Stat : Type 0 where
  pub size : ℕ
  pub mode : ℕ
  pub ino : ℕ

-- `stat_archive`, and how often `fs.virtualFiles.getNewIno` has been called.
pub record Archive : Type 0 where
  pub stats : Dict Stat
  pub drawn : ℕ

-- `false`, a stat object, or `undefined` for a path that holds the root further on.
pub data Answer : Type 0 where
  missing : Answer
  stat : Stat → Answer
  unanswered : Answer

-- What this file does not hold: the number that the n-th call of `getNewIno` gives, `path.join`,
-- and the members of values that are no directories.
pub record Host : Type 0 where
  pub new_ino : ℕ → ℕ
  pub join : Str → Str → Str
  pub chain : List Str → Bool

unfoldable pub or_found : Option Found → Option Found → Option Found
or_found none b = b
or_found (some a) b = some a

-- `getLast`.
unfoldable pub get_last : Host → Package → Str → Option Found
unfolding or_found
get_last h p pathname =
    or_found (find_in h.chain (parts pathname) p.roots.jxcore_root)
      (find_in h.chain (parts pathname) p.roots.folders)

or_index : Option ℕ → Bool → Option ℕ → Option ℕ
or_index (some n) linked m = some n
or_index none linked m = if linked then m else none

-- `n` of `existssync`.
unfoldable pub position : Package → Str → Option ℕ
unfolding or_index
position p pathname =
    or_index (index_of p.root pathname) p.has_root_link (index_of p.sroot pathname)

-- The path below the root.
unfoldable pub below_root : Package → Str → Str
below_root p pathname =
    let shorter = replace p.root [] pathname in
    if p.has_root_link then replace p.sroot [] shorter else shorter

-- A size marks a file.
stat_of : Found → ℕ → Stat
stat_of (directory (node (some n) f)) ino = record { size = n; mode = 33188; ino = ino }
stat_of _ ino = record { size = 340; mode = 16877; ino = ino }

archived : Host → Str → Found → Option Stat → Archive → Answer × Archive
unfolding stat_of
archived h key found (some s) a = (stat s, a)
archived h key found none a =
    let s = stat_of found (h.new_ino a.drawn) in
    (stat s, record a { stats = insert key s a.stats; drawn = a.drawn + 1 })

answer : Host → Str → Option Found → Archive → Answer × Archive
unfolding archived
answer h key none a = (missing, a)
answer h key (some found) a = archived h key found (lookup key a.stats) a

look : Host → Package → Str → Archive → Answer × Archive
unfolding answer
look h p pathname a =
    answer h pathname
      (if is_empty pathname then some (directory p.roots.jxcore_root) else get_last h p pathname) a

at_position : Host → Package → Str → Option ℕ → Archive → Answer × Archive
unfolding look
at_position h p pathname none a = look h p pathname a
at_position h p pathname (some zero) a = look h p (below_root p pathname) a
at_position h p pathname (some (suc n)) a = (unanswered, a)

-- `existssync`.
unfoldable pub exists_sync : Host → Package → Str → Archive → Answer × Archive
unfolding at_position
exists_sync h p pathname a = at_position h p pathname (position p pathname) a

-- `readfilesync` asks the package for an asset, throws, or returns `undefined`.
pub data Read : Type 0 where
  asset : Str → Read
  throws : Str → Read
  no_value : Read

is_truthy : Answer → Bool
is_truthy (stat s) = true
is_truthy _ = false

read_at : Host → Str → Str → Option ℕ → Read
read_at h rt pathname (some zero) = asset (h.join (js "www/jxcore/") (replace rt [] pathname))
read_at h rt pathname _ = no_value

-- The second search, by `sroot`, if the first one did not find `root` at the front.
read_from_root : Host → Package → Str → Option ℕ → Read
unfolding read_at
read_from_root h p pathname (some zero) = read_at h p.root pathname (some 0)
read_from_root h p pathname n =
    if p.has_root_link
    then read_at h p.sroot pathname (index_of p.sroot pathname)
    else read_at h p.root pathname n

unfoldable pub read_file_sync : Host → Package → Str → Archive → Read × Archive
unfolding is_truthy read_from_root
read_file_sync h p pathname a =
    let (found, a') = exists_sync h p pathname a in
    if is_truthy found
    then (read_from_root h p pathname (index_of p.root pathname), a')
    else (throws (pathname ++ js " does not exist"), a')

unfoldable pub names : Forest → List Str
names nil = []
names (entry k t f) = k ∷ names f

unfoldable pub list_entries : Option Found → Option (List Str)
unfolding names
list_entries (some (directory (node none f))) = some (names f)
list_entries (some other) = some []
list_entries _ = none

list_at : Host → Package → Str → Option ℕ → Option (List Str)
unfolding list_entries
list_at h p pathname (some (suc n)) = none
list_at h p pathname _ = list_entries (get_last h p pathname)

-- `readdirsync`; `none` is null. The root is not cut off here.
unfoldable pub read_dir_sync : Host → Package → Str → Option (List Str)
unfolding list_at
read_dir_sync h p pathname =
    let rt =
      if starts_with (js "/data/") pathname
      then (if p.has_root_link then p.sroot else p.root)
      else p.root in
    list_at h p pathname (index_of rt pathname)
