-- ===== src/Mobile/Start.antt =====
-- The end of jxcore_cordova.js: what the device's half does when it has been loaded, and the turns
-- of the event loop that follow.
pub mod Sound
pub mod Kept
pub mod Whole
pub mod Lifecycle
use node_apphost.Base.{
  ℕ, zero, suc, Str, js, Bool, true, false, List, [], ◌∷◌, ◌++◌, Option, none, some, if◌then◌else◌,
}
use node_apphost.Mobile.{
  Value, undefined, function, Fn, user, Mobile, Err, Res, ok, throw, M, ◌>>=◌, ◌>>◌, pure, Engine,
}
use node_apphost.Mobile.Events.{
  call_native, ping, Param, register_to_native, get_documents_path, get_connection_status,
  get_device_name, toggle_bluetooth, toggle_wifi,
}
use node_apphost.Mobile.Methods.{register_sync, register_async, unregister, call, send_report}
use node_apphost.Mobile.Execute.{Json, execute_json}

-- `process.emit`, which runs the program's listeners.
abbrev pub Emit : Type 0
Emit = Str → List Value → M (Unit {0})

unfoldable pub resume_name : Str
unfolding js
resume_name = js "JXcore_Device_OnResume"

unfoldable pub pause_name : Str
unfolding js
pause_name = js "JXcore_Device_OnPause"

unfoldable pub status_name : Str
unfolding js
status_name = js "JXcore_Device_OnConnectionStatusChanged"

-- The first argument that a function is called with.
abbrev pub first : List Value → Value
first [] = undefined
first (v ∷ _) = v

-- The engine in which the functions 0, 1 and 2 are the three that are registered at the end of the
-- file, and the program's own come behind them.
unfoldable pub with_lifecycle : Engine → Emit → ℕ → List Value → M Value
with_lifecycle g emit zero args = emit (js "resume") [] >> pure undefined
with_lifecycle g emit (suc zero) args = emit (js "pause") [] >> pure undefined
with_lifecycle g emit (suc (suc zero)) args =
    emit (js "connectionStatusChanged") (first args ∷ []) >> pure undefined
with_lifecycle g emit (suc (suc (suc n))) args = g.invoke n args

abbrev pub engine_of : Engine → Emit → Engine
engine_of g emit = record g { invoke = with_lifecycle g emit }

-- What runs at the start of a sub thread, by `jxcore.tasks.register`.
pub data Task : Type 0 where
  set_paths register_assets extend_fs : Task

-- The module's variables, the registered tasks, and the source of `fs` for sub threads.
pub record Boot : Type 0 where
  pub mobile : Mobile
  pub tasks : List Task
  pub fs_source : Str

-- `extendFS`; `source` is the text of `process.registerAssets`.
unfoldable pub extend : Str → Boot → Boot
extend source b = record b { fs_source = b.fs_source ++ (js "(" ++ (source ++ js ")(exports);")) }

register_task : Task → Boot → Boot
register_task t b = record b { tasks = b.tasks ++ t ∷ [] }

-- The three calls of `registerToNative`.
unfoldable pub listen_all : Engine → M (Unit {0})
unfolding register_to_native
listen_all g = do
  register_to_native g resume_name (function (user 0))
  register_to_native g pause_name (function (user 1))
  register_to_native g status_name (function (user 2))

with_mobile : Res (Unit {0}) → Boot → Boot
with_mobile (ok _ s) b = record b { mobile = s }
with_mobile (throw e s) b = record b { mobile = s }

-- The `if (isAndroid)` behind the definition of `registerAssets`.
unfoldable pub start_up : Engine → Str → Boot → Boot
unfolding extend register_task with_mobile listen_all
start_up g source b =
    if g.is_android
    then (let b' =
          register_task extend_fs
            (register_task register_assets (register_task set_paths (extend source b))) in
        with_mobile (listen_all g b'.mobile) b')
    else register_task set_paths b

-- What comes in from native code, from the user interface and from the program.
pub data Op : Type 0 where
  native_call : Str → List Value → Op
  pinged : Str → Param → Op
  json_call : Json → Value → Op
  ui_call : Str → List Value → Op
  listen : Str → Value → Op
  provide_sync provide_async : Str → Value → Op
  withdraw : Str → Op
  documents_path connection_status device_name : Value → Op
  bluetooth wifi : Value → Value → Op

unfoldable pub run_op : Engine → Op → M (Unit {0})
unfolding call_native ping register_to_native get_documents_path get_connection_status
    get_device_name toggle_bluetooth toggle_wifi register_sync register_async unregister call
    execute_json
run_op g (native_call name args) = call_native name args
run_op g (pinged name param) = ping g name param >> pure tt
run_op g (json_call json cid) = execute_json g json cid >> pure tt
run_op g (ui_call name params) = call g name params
run_op g (listen name target) = register_to_native g name target
run_op g (provide_sync name target) = register_sync name target
run_op g (provide_async name target) = register_async name target
run_op g (withdraw name) = unregister name
run_op g (documents_path f) = get_documents_path g f
run_op g (connection_status f) = get_connection_status g f
run_op g (device_name f) = get_device_name g f
run_op g (bluetooth enabled f) = toggle_bluetooth g enabled f
run_op g (wifi enabled f) = toggle_wifi g enabled f

abbrev pub state_of : {A : Type 0} → Res A → Mobile
state_of (ok a s) = s
state_of (throw e s) = s

-- `process.on('uncaughtException', ...)`; `capture` is `Error.captureStackTrace`, which throws for a value
-- that takes no stack: a throw of such a value, which ends the process, is not modelled.
unfoldable pub uncaught : Engine → (Err → Err) → Res (Unit {0}) → Mobile
unfolding send_report
uncaught g capture (ok a s) = s
uncaught g capture (throw e s) = state_of (send_report g (capture e) s)

unfoldable pub turn : Engine → (Err → Err) → Op → Mobile → Mobile
unfolding run_op uncaught
turn g capture op s = uncaught g capture (run_op g op s)

unfoldable pub turns : Engine → (Err → Err) → List Op → Mobile → Mobile
unfolding turn
turns g capture [] s = s
turns g capture (op ∷ ops) s = turns g capture ops (turn g capture op s)
