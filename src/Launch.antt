-- ===== src/Launch.antt =====
-- samples/android/src/io/jxcore/node/jxcore.java and samples/android/JNI_JXCORE/jni/jxcore.cpp: the start of
-- the engine on Android, and the native method that lists the package for `process.registerAssets`.
pub mod Reader
pub mod Listing
pub mod Packaged
pub mod Started
pub mod AssetFiles
use node_apphost.Base.{
  ℕ, Str, js, Bool, true, false, List, [], ◌∷◌, ◌++◌, Option, none, some, if◌then◌else◌, ◌==◌,
  length, drop,
}
use node_apphost.Base.Decimal.{decimal}
use node_apphost.Base.Search.{starts_with}
use node_apphost.Base.Options.{◌>>=◌}
use node_apphost.Wrapper.{Js, JsValue, Engine, set_json}
use node_apphost.Wrapper.Natives.{
  Vm, Natives, process_natives, call_method, set_node_native, start_natives,
}
use node_apphost.Wrapper.Calls.{Returned}
use node_apphost.Vfs.Table.{Table, define_main_file}

-- The application's archive: the names of its entries, unless it cannot be opened, and the sizes of its
-- assets, by `FileManager.aproxFileSize`.
pub record Apk : Type 0 where
  pub entries : Option (List Str)
  pub asset_size : Str → ℕ

abbrev pub folder : Str
unfolding js
folder = js "assets/www/jxcore/"

-- A member of the listing. `substring(18)` is what stands behind the folder.
unfoldable pub entry_text : Apk → Str → Str
entry_text apk name = b'"' ∷ (drop 18 name ++ b'"' ∷ b':' ∷ decimal (apk.asset_size (drop 7 name)))

-- One round of the loop: the text so far, and `first_entry`.
unfoldable pub append_entry : Apk → Str × Bool → Str → Str × Bool
unfolding entry_text starts_with
append_entry apk (text, first) name =
    if starts_with folder name
    then (text ++ (if first then entry_text apk name else b',' ∷ entry_text apk name), false)
    else (text, first)

unfoldable pub append_entries : Apk → List Str → Str × Bool → Str × Bool
unfolding append_entry
append_entries apk [] st = st
append_entries apk (n ∷ ns) st = append_entries apk ns (append_entry apk st n)

unfoldable pub names_of : Option (List Str) → List Str
names_of none = []
names_of (some ns) = ns

-- `assets`, the text for `prepareEngine`.
unfoldable pub assets_text : Apk → Str
unfolding append_entries names_of
assets_text apk = (append_entries apk (names_of apk.entries) (b'{' ∷ [], true)).0 ++ b'}' ∷ []

-- `data`, the text of the main file.
unfoldable pub main_text : Str → Str → Str → Str
main_text home user_path main_file =
    js "process.setPaths = function(){ process.cwd = function() { return '"
    ++ home
    ++ js "/www/jxcore';};\nprocess.userPath ='"
    ++ user_path
    ++ js "';\n};"
    ++ main_file

-- What the native side holds: `files_json`, the table of native methods, and that of files.
pub record Device : Type 0 where
  pub files_json : Str
  pub natives : Natives
  pub table : Table

-- The native functions of jxcore.cpp.
abbrev pub asset_exists_sync : ℕ
asset_exists_sync = 0

abbrev pub asset_read_sync : ℕ
asset_read_sync = 1

abbrev pub asset_read_dir_sync : ℕ
asset_read_dir_sync = 2

abbrev pub define_event_callback : ℕ
define_event_callback = 3

abbrev pub call_jxcore_native : ℕ
call_jxcore_native = 4

abbrev pub device_natives : List (Str × ℕ)
device_natives =
    (js "assetExistsSync", asset_exists_sync)
    ∷ (js "assetReadSync", asset_read_sync)
    ∷ (js "assetReadDirSync", asset_read_dir_sync)
    ∷ (js "defineEventCB", define_event_callback)
    ∷ (js "callJXcoreNative", call_jxcore_native)
    ∷ []

unfoldable pub set_all : Vm → List (Str × ℕ) → Natives → Option Natives
unfolding set_node_native
set_all vm [] n = some n
set_all vm ((name, callback) ∷ cs) n = set_node_native vm name callback n >>= set_all vm cs

-- `prepareEngine`.
unfoldable pub prepare_engine : Vm → Str → Device → Option Device
prepare_engine vm files d =
    set_all vm device_natives d.natives >>= λ n. some (record d { files_json = files; natives = n })

unfoldable pub started_device : Vm → Device → Option Device
started_device vm d = start_natives vm d.natives >>= λ n. some (record d { natives = n })

-- `Initialize`: `main_file` is jxcore_cordova.js, `home` and `user_path` the folder of the application.
unfoldable pub initialize_device : Vm → Apk → Str → Str → Str → Device → Option Device
unfolding prepare_engine started_device assets_text main_text define_main_file
initialize_device vm apk home user_path main_file d = prepare_engine vm (assets_text apk) d >>= λ d.
    started_device vm
      (record d { table = define_main_file false (main_text home user_path main_file) d.table })

-- A call of a native function: `assetReadDirSync` is `JS_SetJSON` on the slot of the result, and what the others do
-- is `others`.
unfoldable pub run_native :
    Engine
    → (ℕ → List JsValue → JsValue → Option (List JsValue × JsValue))
    → Str
    → ℕ
    → List JsValue
    → JsValue
    → Option (List JsValue × JsValue)
unfolding set_json
run_native g others files callback args slot =
    let other = others callback args slot in
    if callback == asset_read_dir_sync
    then set_json g files (length files) slot >>= (λ r. some (args, r))
    else other

-- The engine with the native code of jxcore.cpp, where `files_json` is this text.
abbrev pub device_vm :
    Vm → (ℕ → List JsValue → JsValue → Option (List JsValue × JsValue)) → Str → Vm
device_vm vm others files = record vm { run = run_native vm.engine others files }

-- A call of a native method in JavaScript on the device, with the `files_json` that it holds then.
unfoldable pub call_native_method :
    Vm
    → (ℕ → List JsValue → JsValue → Option (List JsValue × JsValue))
    → Device
    → Str
    → List Js
    → Option Returned
call_native_method vm others d name args =
    call_method (device_vm vm others d.files_json) process_natives name args d.natives
