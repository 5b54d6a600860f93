-- ===== src/Build/Disk.antt =====
-- build.js: what `createBatch`, `safeCreate` and `createRelease` do to the disk. Paths on the disk
-- are absolute.
pub mod Batches
pub mod Runnable
pub mod Folders
use node_apphost.Base.{
  is_in, ℕ, Str, js, str_eq, Bool, true, false, List, [], ◌∷◌, ◌++◌, Option, none, some,
  if◌then◌else◌, ◌&&◌, ◌||◌, not,
}
use node_apphost.Base.Options.{◌>>=◌}
use node_apphost.Base.Dict.{Dict, has, insert}
use node_apphost.Build.{Host, Settings}
use node_apphost.Build.Release.{Plan, create_release}
use node_apphost.Build.Main.{batch_files}

-- Folders, the contents of files, and the files whose mode is 0755.
pub record Disk : Type 0 where
  pub folders : List Str
  pub files : Dict Str
  pub executable : List Str

-- The machine, and its file system: the folder that a path stands in, and whether a folder that is
-- not there can be made, which permissions and parents decide.
pub record System : Type 0 where
  pub host : Host
  pub parent : Str → Str
  pub may_create : Str → Bool

unfoldable pub is_folder : Str → Disk → Bool
unfolding is_in
is_folder p d = is_in p d.folders

unfoldable pub is_executable : Str → Disk → Bool
unfolding is_in
is_executable p d = is_in p d.executable

-- `fs.existsSync`.
unfoldable pub on_disk : Str → Disk → Bool
unfolding is_folder
on_disk p d = is_folder p d || has p d.files

-- `fs.mkdirSync`, `fs.writeFileSync` and `fs.chmodSync`; `none` is an exception.
unfoldable pub mkdir : System → Str → Disk → Option Disk
unfolding on_disk
mkdir sys p d =
    if on_disk p d || not (sys.may_create p)
    then none
    else some (record d { folders = p ∷ d.folders })

unfoldable pub write_file : System → Str → Str → Disk → Option Disk
unfolding is_folder
write_file sys p contents d =
    if is_folder (sys.parent p) d && not (is_folder p d)
    then some (record d { files = insert p contents d.files })
    else none

unfoldable pub chmod : Str → Disk → Option Disk
unfolding on_disk
chmod p d = if on_disk p d then some (record d { executable = p ∷ d.executable }) else none

-- `safeCreate`: an exception of `mkdirSync` is thrown on only if the target is not there.
caught : Bool → Disk → Option Disk → Option Disk
caught there d (some d') = some d'
caught there d none = if there then some d else none

unfoldable pub safe_create : System → Str → Disk → Option Disk
unfolding caught mkdir
safe_create sys target d =
    let p = sys.host.join sys.host.dirname target in caught (on_disk p d) d (mkdir sys p d)

-- The `try` around the first `mkdirSync` of `createBatch`.
ignored : Disk → Option Disk → Disk
ignored d none = d
ignored d (some d') = d'

unfoldable pub make_temp : System → Disk → Disk
unfolding ignored mkdir
make_temp sys d = ignored d (mkdir sys (sys.host.resolve (js "./temp")) d)

unfoldable pub write_all : System → List (Str × Str) → Disk → Option Disk
write_all sys [] d = some d
write_all sys ((p, contents) ∷ fs) d =
    write_file sys (sys.host.resolve p) contents d >>= write_all sys fs

unfoldable pub chmod_all : System → List Str → Disk → Option Disk
chmod_all sys [] d = some d
chmod_all sys (p ∷ ps) d = chmod (sys.host.resolve p) d >>= chmod_all sys ps

-- The files that are made executable, where the system is not Windows.
unfoldable pub chmod_names : List Str
unfolding js
chmod_names =
    js "./temp/test.bat"
    ∷ js "./temp/clean.bat"
    ∷ js "./temp/compile.bat"
    ∷ js "./temp/checkout_node.bat"
    ∷ js "./temp/checkout_jxcore.bat"
    ∷ []

-- `createBatch`, with what `createScript` returned.
unfoldable pub create_batch : System → Str → Settings → Disk → Option Disk
unfolding make_temp write_all chmod_all chmod_names
create_batch sys text st d =
    write_all sys (batch_files sys.host text st) (make_temp sys d) >>= λ d'.
    if sys.host.is_windows then some d' else chmod_all sys chmod_names d'

-- `createRelease`, behind the making of `out`.
write_script : System → Plan → Disk → Option Disk
unfolding write_file chmod
write_script sys plan d = do
  d' ← safe_create sys plan.output_folder d
  d'' ← write_file sys plan.script_file plan.copy_script d'
  if sys.host.is_windows then some d'' else chmod plan.script_file d''

write_plan : System → Option Plan → Disk → Option Disk
unfolding write_script
write_plan sys none d = none
write_plan sys (some plan) d = write_script sys plan d

unfoldable pub make_release : System → Settings → Disk → Option Disk
unfolding safe_create write_plan
make_release sys st d = safe_create sys (js "out") d >>= write_plan sys (create_release sys.host st)
