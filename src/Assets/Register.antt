-- ===== src/Assets/Register.antt =====
-- samples/android/assets/jxcore_cordova.js, the whole of `process.registerAssets`: the folders that it
-- makes on the disk, the package, and what it sets in the process.
pub mod Folders
use node_apphost.Base.{
  ℕ, Str, js, is_in, Bool, true, false, List, [], ◌∷◌, ◌++◌, Option, none, some, if◌then◌else◌,
}
use node_apphost.Base.Search.{starts_with}
use node_apphost.Assets.Paths.{replace_user}
use node_apphost.Assets.Fs.{Package, register_assets}

-- The folders on the disk, and the paths that `console.error` named.
pub record Storage : Type 0 where
  pub made : List Str
  pub refused : List Str

-- Whether `fs.mkdirSync` can make a folder, where these folders are there.
abbrev pub May : Type 0
May = Str → List Str → Bool

-- One round of the loop of `createRealPath`, its `try` included.
unfoldable pub make_folder : May → Str → Storage → Storage
make_folder may p d =
    if is_in p d.made
    then d
    else (if may p d.made
        then record d { made = p ∷ d.made }
        else record d { refused = d.refused ++ p ∷ [] })

-- `arr`.
unfoldable pub real_paths : Str → List Str
unfolding js
real_paths pd = pd ∷ (pd ++ js "/www") ∷ (pd ++ js "/www/jxcore") ∷ []

make_folders : May → List Str → Storage → Storage
unfolding make_folder
make_folders may [] d = d
make_folders may (p ∷ ps) d = make_folders may ps (make_folder may p d)

-- `createRealPath`.
unfoldable pub create_real_path : May → Str → Storage → Storage
unfolding make_folders
create_real_path may pd d = make_folders may (real_paths pd) d

-- What the function sets in the process: `process.execPath`, the extension of `fs`, and the paths
-- where modules are looked for.
pub record Process : Type 0 where
  pub storage : Storage
  pub exec_path : Str
  pub extension : Option Package
  pub global_paths : List Str

-- `root` is `process.cwd()`, `user_path` is `process.userPath`.
unfoldable pub storage_of : May → Str → Str → Storage → Storage
unfolding create_real_path
storage_of may root user_path d =
    let d' = create_real_path may user_path d in
    if starts_with (js "/data/user/") root
    then create_real_path may (replace_user user_path) d'
    else d'

-- The end of the function.
set_process : Str → Str → Package → Process → Process
set_process root user_path found p = record p {
  extension = some found;
  global_paths = p.global_paths ++ root ∷ user_path ∷ [];
}

unfoldable pub register_process : May → Str → Str → List (Str × ℕ) → Process → Process
unfolding storage_of set_process
register_process may root user_path assets p =
    set_process root user_path (register_assets root assets)
      (record p { exec_path = root; storage = storage_of may root user_path p.storage })
