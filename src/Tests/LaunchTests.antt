-- ===== src/Tests/LaunchTests.antt =====
-- The start on Android, run.
use node_apphost.Base.{
  ℕ, Str, js, str_eq, Bool, not, List, [], ◌∷◌, ◌++◌, ◌+◌, Option, none, some, true, false, ◌≡◌,
  ◌↔◌, refl, arith, length, All, ◌&&◌, ◌==◌, leb,
}
use node_apphost.Base.Dict.{Dict, insert}
use node_apphost.Base.Decimal.{decimal}
use node_apphost.Base.Search.{starts_with}
use node_apphost.Base.Text.{split_on}
use node_apphost.Assets.Tree.{shift_empty}
use node_apphost.Assets.Paths.{strip_front, strip_back}
use node_apphost.Assets.Fs.{Archive, Host, missing, exists_sync}
use node_apphost.Assets.Fs.Lookups.{package_at, below, NoSlashEnds}
use node_apphost.Mobile.Methods.{is_inherited}
use node_apphost.Wrapper.{Js, js_int32, js_object, js_string, JsValue}
use node_apphost.Wrapper.Calls.{returns}
use node_apphost.Wrapper.Natives.{Vm, no_natives, run_callback}
use node_apphost.Vfs.Table.{VFile, get_file}
use node_apphost.Wrapper.Getters.{Reads}
use node_apphost.Launch.AssetFiles.{AssetFiles, asset_natives, read_answer, asset_read_lem}
use node_apphost.Launch.{
  asset_read_sync, Apk, assets_text, main_text, Device, initialize_device, device_vm,
  call_native_method, names_of,
}
use node_apphost.Launch.Reader.{read_object}
use node_apphost.Launch.Listing.{IsClear, HasClearNames}
use node_apphost.Launch.Packaged.{packaged, exists_sync-packaged}
use node_apphost.Launch.Started.{initialize_device_lem}

abbrev apk : Apk
unfolding js
apk = record {
  entries =
      some (js "classes.dex" ∷ js "assets/www/jxcore/lib/b.js" ∷ js "assets/www/jxcore/a.js" ∷ []);
  asset_size = λ name. length name;
}

-- Files outside of the folder are left out.
apk_listing :
    (assets_text apk ≡ js "{\"lib/b.js\":19,\"a.js\":15}")
    × (read_object (js "{\"lib/b.js\":19,\"a.js\":15}")
        ≡ some ((js "lib/b.js", 19) ∷ (js "a.js", 15) ∷ []))
unfolding assets_text js read_object decimal insert str_eq starts_with names_of
apk_listing = (refl, refl)

abbrev all_clear : Str → Bool
all_clear [] = true
all_clear (c ∷ s) = (not (c == 34) && not (c == 92) && leb 32 c) && all_clear s

clear : (s : Str) → all_clear s ≡ true → All IsClear s
clear [] h = tt
clear (c ∷ s) h =
    let p : IsClear c = (ground arith, ground arith, ground arith) in
    let q : all_clear s ≡ true = ground arith in (p, clear s q)

apk-HasClearNames : HasClearNames apk
unfolding js names_of
apk-HasClearNames = (
  clear (js "classes.dex") refl,
  (clear (js "assets/www/jxcore/lib/b.js") refl, (clear (js "assets/www/jxcore/a.js") refl, tt)),
)

abbrev host : Host
host = record { new_ino = λ n. 700 + n; join = λ a b. a ++ b; chain = λ what. false }

-- The root `/app`, as code units.
abbrev app : Str
app = b'p' ∷ b'p' ∷ []

b_ends : NoSlashEnds (js "lib/b.js")
unfolding js strip_front strip_back
b_ends = (refl, refl)

exists_sync-packaged_example :
    (listing : Dict ℕ) × (read_object (assets_text apk) ≡ some listing)
    × ((ar : Archive)
        → ((exists_sync host
              (package_at host b'/' app listing (js "lib/b.js"))
              (below host b'/' app listing (js "lib/b.js"))
              ar).0
            ≡ missing)
          ↔ (packaged (split_on b'/' (js "lib/b.js")) (names_of apk.entries) ≡ false))
unfolding js split_on str_eq is_inherited shift_empty
exists_sync-packaged_example =
    exists_sync-packaged apk host b'/' app (js "lib/b.js") (js "lib") (js "b.js" ∷ [])
      apk-HasClearNames b_ends refl ((refl, refl), ((refl, refl), tt)) refl

abbrev uint : Js → Option ℕ
uint (js_int32 n) = some n
uint _ = none

abbrev text_of : Js → Str
text_of (js_string s) = s
text_of v = []

abbrev vm : Vm
vm = record {
  engine = record {
    wrapper_size = 24;
    utf8_length = length;
    parse = λ s. js_object (length s);
    invoke = λ f vs. none;
  };
  compiles = λ name. true;
  uint32 = uint;
  type_error = λ name. name;
  run = λ callback args slot. none;
  other = λ t name args. none;
}

abbrev nothing_runs : ℕ → List JsValue → JsValue → Option (List JsValue × JsValue)
nothing_runs callback args slot = none

abbrev device : Device
device = record {
  files_json = [];
  natives = no_natives;
  table = record { inode_counter = 0; files = [] };
}

initialize_device_lem_example :
    (d' : Device) × (f : VFile) × (initialize_device vm apk
        (js "/data/files")
        (js "/data/files")
        (js "x()")
        device
      ≡ some d')
    × (call_native_method vm nothing_runs d' (js "assetReadDirSync") []
        ≡ some (returns (vm.engine.parse (assets_text apk))))
    × (get_file (js "main.js") d'.table ≡ some f)
    × (f.contents ≡ main_text (js "/data/files") (js "/data/files") (js "x()"))
unfolding js
initialize_device_lem_example =
    initialize_device_lem vm nothing_runs apk (js "/data/files") (js "/data/files") (js "x()")
      device (λ n h. refl)
      (
        (refl, omega arith),
        (
          (refl, omega arith),
          ((refl, omega arith), ((refl, omega arith), ((refl, omega arith), tt))),
        ),
      )
      refl

abbrev reads : Reads
reads = record {
  to_int32 = λ v. 0;
  to_double = λ v. 0;
  to_boolean = λ v. true;
  to_text = text_of;
  stringify = λ v. [];
  message_of = λ v. none;
}

-- One file, of two bytes.
abbrev files : AssetFiles
files = record { contents = λ name. some (7 ∷ 8 ∷ []); beyond = λ name. 9 ∷ [] }

asset_read_lem_example :
    run_callback
      (device_vm vm (asset_natives reads files nothing_runs) [])
      asset_read_sync
      (js_string (js "a") ∷ [])
    ≡ read_answer (some (7 ∷ 8 ∷ []))
unfolding js
asset_read_lem_example = asset_read_lem vm reads files nothing_runs [] (js "a") refl
