-- ===== src/Vfs.antt =====
-- patch/node/fs_patch.js and patch/node/module_patch.js: files that are linked into the binary, and
-- the cache of the module loader. The native table of files, the functions that are replaced, and
-- Node's `path` are fields of `Node`.
pub mod Lookups
pub mod Cache
pub mod Table
use node_apphost.Base.{
  ℕ, Str, Bool, true, false, List, [], ◌∷◌, Option, none, some, if◌then◌else◌, ◌==◌, ◌||◌,
}
use node_apphost.Base.Dict.{Dict, lookup, insert}
use node_apphost.Base.Search.{replace}

-- What `vfile.getFileData` answers, an object with these properties and no other: `contents` is
-- there if it was asked for.
pub record FileData : Type 0 where
  pub ino : ℕ
  pub length : ℕ
  pub contents : Option Str

-- A size of `none` is `undefined`.
pub record Stats : Type 0 where
  pub ino : ℕ
  pub size : Option ℕ
  pub is_directory : Bool

-- A call returns, or throws.
pub data Outcome (A : Type 0) : Type 0 where
  value : A → Outcome A
  error : Str → Outcome A

pub record Node : Type 0 where
  pub sep : ℕ
  pub exec_path : Str
  pub cwd : Str
  pub relative : Str → Str → Str
  pub make_long : Str → Str
  pub get_file_data : Str → Bool → Option FileData
  pub orig_stat_sync : Str → Outcome Stats
  pub orig_read_file_sync : Str → Outcome (Option Str)

-- `CLEAN`.
unfoldable pub clean : Node → Str → Str
clean n [] = []
clean n (c ∷ s) = let rest = clean n s in if c == n.sep || c == b'?' then rest else c ∷ s

or_data : Option FileData → Option FileData → Option FileData
or_data none d = d
or_data (some r) d = some r

-- `GetVFile`: three spellings of the path are tried in turn.
unfoldable pub get_vfile : Node → Str → Bool → Option FileData
unfolding or_data
get_vfile n path get_contents =
    or_data (n.get_file_data (clean n (n.relative n.exec_path path)) get_contents) (
      or_data (n.get_file_data (clean n (n.relative n.cwd path)) get_contents)
        (n.get_file_data (clean n (replace n.cwd [] path)) get_contents))

-- `file_data.size`, a property that the object does not have.
unfoldable pub size_of : FileData → Option ℕ
size_of d = none

-- The stat object of the executable, with the number of the file and `file_data.size`.
sample : FileData → Outcome Stats → Outcome Stats
unfolding size_of
sample d (value s) = value (record s { ino = d.ino; size = size_of d })
sample d (error e) = error e

stat_of : Node → Str → Option FileData → Outcome Stats
unfolding sample
stat_of n path (some d) = sample d (n.orig_stat_sync n.exec_path)
stat_of n path none = n.orig_stat_sync path

-- `fs.statSync`.
unfoldable pub stat_sync : Node → Str → Outcome Stats
unfolding stat_of
stat_sync n path = stat_of n path (get_vfile n path false)

-- `fs.realpathSync` answers a path or, as it is written, a stat object.
pub data RealPath : Type 0 where
  path_of : Str → RealPath
  stats_of : Stats → RealPath

pub stats_result : Outcome Stats → Outcome RealPath
stats_result (value s) = value (stats_of s)
stats_result (error e) = error e

real_path_of : Node → Str → Option FileData → Outcome RealPath
unfolding stats_result
real_path_of n path (some d) = value (path_of path)
real_path_of n path none = stats_result (n.orig_stat_sync path)

unfoldable pub realpath_sync : Node → Str → Outcome RealPath
unfolding real_path_of
realpath_sync n path = real_path_of n path (get_vfile n path false)

contents_of : Node → Str → Option FileData → Outcome (Option Str)
contents_of n path (some d) = value d.contents
contents_of n path none = n.orig_read_file_sync path

-- `fs.readFileSync`.
unfoldable pub read_file_sync : Node → Str → Outcome (Option Str)
unfolding contents_of
read_file_sync n path = contents_of n path (get_vfile n path true)

-- What `stat` of module_patch.js returns: -2, 1, 0, or the cached object.
pub data Rc : Type 0 where
  absent directory file : Rc
  object : Stats → Rc

abbrev pub code_of : Stats → Rc
code_of s = if s.is_directory then directory else file

-- `stat.cache` is null or a map.
abbrev pub StatCache : Type 0
StatCache = Option (Dict Stats)

cached : StatCache → Str → Option Stats
cached none filename = none
cached (some m) filename = lookup filename m

remember : StatCache → Str → Stats → StatCache
remember none filename s = none
remember (some m) filename s = some (insert filename s m)

fresh_stat : StatCache → Str → Outcome Stats → Rc × StatCache
unfolding remember
fresh_stat cache filename (value s) = (code_of s, remember cache filename s)
fresh_stat cache filename (error e) = (absent, cache)

cached_or : Option Stats → StatCache → Str → Outcome Stats → Rc × StatCache
unfolding fresh_stat
cached_or (some s) cache filename o = (object s, cache)
cached_or none cache filename o = fresh_stat cache filename o

-- `stat`.
unfoldable pub stat : Node → Str → StatCache → Rc × StatCache
unfolding cached cached_or
stat n filename cache =
    let long = n.make_long filename in cached_or (cached cache long) cache long (stat_sync n long)
