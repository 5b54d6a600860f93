-- ===== src/Launch/Started.antt =====
-- What the start of the engine leaves.
use node_apphost.Base.{
  ℕ, Str, js, str_eq, false, List, [], ◌∷◌, Option, none, some, ◌==◌, ◌≤◌, ◌≡◌, refl, arith, ap,
  ◌∙◌, length, length-append, All, inl,
}
use node_apphost.Base.Options.{◌>>=◌}
use node_apphost.Wrapper.{JsValue, new_value, set_json, set_as}
use node_apphost.Wrapper.Calls.{returns, result_of}
use node_apphost.Wrapper.Natives.{
  same_target, Vm, Natives, process_natives, no_natives, start_natives, run_callback,
  register_natives, register_at,
}
use node_apphost.Wrapper.Natives.Named.{last_callback, on_process, HasName}
use node_apphost.Wrapper.Natives.Called.{
  ReadsNumbers, answer_for, call_method-Linked, started_Linked,
}
use node_apphost.Vfs.Table.{Table, VFile, define_main_file, get_file}
use node_apphost.Vfs.Table.{define_files, define_file}
use node_apphost.Vfs.Table.Numbers.{made}
use node_apphost.Vfs.Table.Defined.{defined}
use node_apphost.Launch.{
  Apk, assets_text, main_text, Device, device_natives, asset_read_dir_sync, set_all, prepare_engine,
  started_device, initialize_device, run_native, device_vm, call_native_method,
}

bind_ap :
    (o : Option Natives) (f g : Natives → Option Natives)
    → ((n : Natives) → f n ≡ g n)
    → (o >>= f) ≡ (o >>= g)
bind_ap none f g h = refl
bind_ap (some n) f g h = h n

set_all-register_natives :
    (vm : Vm) (cs : List (Str × ℕ)) (n : Natives)
    → set_all vm cs n ≡ register_natives vm (on_process cs) n
unfolding set_all register_natives register_at
set_all-register_natives vm [] n = refl
set_all-register_natives vm ((name, callback) ∷ cs) n =
    bind_ap _ (set_all vm cs) (register_natives vm (on_process cs)) (set_all-register_natives vm cs)

-- What `assetReadDirSync` returns.
listing_returned :
    (vm : Vm) (others : ℕ → List JsValue → JsValue → Option (List JsValue × JsValue)) (files : Str)
    → (length files == 0) ≡ false
    → run_callback (device_vm vm others files) asset_read_dir_sync []
      ≡ some (returns (vm.engine.parse files))
unfolding run_callback run_native set_json set_as result_of new_value
listing_returned vm others files h = rw h (ground arith)

text_is_not_empty : (apk : Apk) → (length (assets_text apk) == 0) ≡ false
unfolding assets_text
text_is_not_empty apk = grind (arith, length-append)

started_from :
    (vm : Vm) (files text : Str) (d : Device) (n : Natives) (o : Option Natives)
    → (o >>= start_natives vm) ≡ some n
    → (o
        >>= (λ m. some (record d { files_json = files; natives = m }))
        >>= (λ d. started_device vm (record d { table = define_main_file false text d.table })))
      ≡ some
          (record { files_json = files; natives = n; table = define_main_file false text d.table })
unfolding started_device
started_from vm files text d n none p = absurd (cc)
started_from vm files text d n (some m) p = rw p refl

-- The state behind the start.
started_natives :
    (vm : Vm) (apk : Apk) (home user_path main_file : Str) (d : Device) (n : Natives)
    → d.natives ≡ no_natives
    → (register_natives vm (on_process device_natives) no_natives >>= start_natives vm) ≡ some n
    → initialize_device vm apk home user_path main_file d
      ≡ some (record {
        files_json = assets_text apk;
        natives = n;
        table = define_main_file false (main_text home user_path main_file) d.table;
      })
unfolding initialize_device prepare_engine
started_natives vm apk home user_path main_file d n e p =
    started_from vm (assets_text apk) (main_text home user_path main_file) d n
      (set_all vm device_natives d.natives)
      (ap (λ o. o >>= start_natives vm)
          (ap (set_all vm device_natives) e ∙ set_all-register_natives vm device_natives no_natives)
        ∙ p)

define_main_file_lem :
    (text : Str) (t : Table)
    → get_file (js "main.js") (define_main_file false text t) ≡ some (made text (length text) t)
unfolding define_main_file define_files define_file
define_main_file_lem text t = defined false (js "main.js") (js "main.js") text [] t (inl refl) tt

last_listing :
    last_callback process_natives (js "assetReadDirSync") none (on_process device_natives)
    ≡ some asset_read_dir_sync
unfolding js str_eq same_target
last_listing = refl

-- When the application starts the engine on Android, with no native method registered before, in a V8 that
-- reads small numbers as unsigned and that compiles the scripts of the five native methods: they
-- are registered, main.js is the text of jxcore_cordova.js behind the two paths, and
-- `process.natives.assetReadDirSync()` returns what `JSON.parse` makes of the listing of the archive.
pub initialize_device_lem :
    (vm : Vm) (others : ℕ → List JsValue → JsValue → Option (List JsValue × JsValue)) (apk : Apk)
    (home user_path main_file : Str) (d : Device)
    → ReadsNumbers vm
    → All (HasName vm) (on_process device_natives)
    → d.natives ≡ no_natives
    → (d' : Device) × (f : VFile) × (initialize_device vm apk home user_path main_file d ≡ some d')
      × (call_native_method vm others d' (js "assetReadDirSync") []
          ≡ some (returns (vm.engine.parse (assets_text apk))))
      × (get_file (js "main.js") d'.table ≡ some f)
      × (f.contents ≡ main_text home user_path main_file)
unfolding call_native_method
initialize_device_lem vm others apk home user_path main_file d u h e =
    let v = device_vm vm others (assets_text apk) in
    let (n, p, c, r, l) = started_Linked vm device_natives h (omega arith) in
    let text = main_text home user_path main_file in
    (
      record {
        files_json = assets_text apk;
        natives = n;
        table = define_main_file false text d.table;
      },
      made text (length text) d.table,
      started_natives vm apk home user_path main_file d n e p,
      call_method-Linked v process_natives (js "assetReadDirSync") [] n _ u
            (let b : length n.callbacks ≤ 1024 = omega (arith, ap length c) in b)
            (l process_natives (js "assetReadDirSync"))
          ∙ ap (answer_for v process_natives (js "assetReadDirSync") []) last_listing
          ∙ listing_returned vm others (assets_text apk) (text_is_not_empty apk),
      define_main_file_lem text d.table,
      refl,
    )
