-- ===== src/Mobile/Events.antt =====
-- The event table of jxcore_cordova.js: `JXMobile.on`, `callJXcoreNative`, `WrapFunction`,
-- `MakeCallback`, `JXMobile.ping` and the calls of native code built on them.
pub mod Callbacks
use node_apphost.Base.{
  ℕ, ◌+◌, ◌%◌, Str, js, Bool, true, false, List, [], ◌∷◌, ◌++◌, Option, none, some, if◌then◌else◌,
  is_empty,
}
use node_apphost.Base.Dict.{Dict, lookup, insert, remove}
use node_apphost.Base.Decimal.{decimal}
use node_apphost.Mobile.{
  Value, undefined, null, bool, text, array, object, function, nil, Values, cons, truthy, Fn, user,
  answer, null_first, noop, values, Target, wrapped, plain, Mobile, Err, Res, ok, throw, M, ◌>>=◌,
  ◌>>◌, pure, fail, modify, catch, Engine, new_error,
}

-- `JXMobile.on`.
unfoldable pub on : Str → Target → M (Unit {0})
on name target = modify (λ s. record s { events = insert name target s.events })

-- The last parameter, if it is a function, and the parameters before it.
split_last : Value → List Value × Option Fn
split_last (function f) = ([], some f)
split_last v = (v ∷ [], none)

unfoldable pub split_callback : List Value → List Value × Option Fn
unfolding split_last
split_callback [] = ([], none)
split_callback (v ∷ []) = split_last v
split_callback (v ∷ w ∷ vs) = let (front, f) = split_callback (w ∷ vs) in (v ∷ front, f)

unfoldable pub callback_name : ℕ → Str
callback_name n = js "$$jxcore_callback_" ++ decimal n

-- `process.natives.callJXcoreNative`: the native side is told, and answers later by `ping`.
unfoldable pub send : List Value → M (Unit {0})
send args = modify (λ s. record s { sent = s.sent ++ args ∷ [] })

-- The part of `callJXcoreNative` under its `if`: name and register the callback.
unfoldable pub register_callback : Option Fn → M Str
unfolding on
register_callback none s = ok [] s
register_callback (some f) s =
    let cb = callback_name s.event_id in
    (on cb (wrapped cb f) >> pure cb) (record s { event_id = (s.event_id + 1) % 100000 })

-- The message to native code: the name, the parameters, and the callback's name or "".
unfoldable pub call_native : Str → List Value → M (Unit {0})
unfolding split_callback register_callback send
call_native name args = do
  let (params, f) = split_callback args
  cb ← register_callback f
  send (text name ∷ (params ++ text cb ∷ []))

-- Applying a function of the bridge, `f.apply(null, args)`.
unfoldable pub apply : Engine → Fn → List Value → M Value
unfolding call_native
apply g (user n) args = g.invoke n args
apply g (answer cid) args = do
  call_native (js "  _callback_  ") (array (values args) ∷ null ∷ cid ∷ [])
  pure undefined
apply g (null_first f) [] = apply g f (null ∷ undefined ∷ [])
apply g (null_first f) (v ∷ _) = apply g f (null ∷ v ∷ [])
apply g noop args = pure undefined

-- Applying any value: what is no function is a `TypeError`.
unfoldable pub apply_value : Engine → Value → List Value → M Value
unfolding apply
apply_value g (function f) args = apply g f args
apply_value g _ args = fail g.type_error

-- The second parameter of `ping`: an array, or an object with the fields `str` and `json`, each
-- "" where it is missing.
pub data Param : Type 0 where
  items : List Value → Param
  fields : Str → Str → Param

-- The arguments that `ping` makes of its parameter; `inl` is the early return of a parse error.
ping_json : Engine → Option Value → Value × List Value × Bool
ping_json g none = (g.parse_error, [], true)
ping_json g (some v) = (undefined, v ∷ [], false)

unfoldable pub ping_args : Engine → Param → Value × List Value × Bool
unfolding ping_json
ping_args g (items vs) = (undefined, vs, false)
ping_args g (fields str json) =
    if is_empty str
    then (if is_empty json then (undefined, [], false) else ping_json g (g.json_parse json))
    else (undefined, text str ∷ [], false)

-- `target.callback.apply(...)` of a `WrapFunction` forgets itself first.
unfoldable pub fire : Engine → Str → Option Target → List Value → M Value
unfolding apply_value
fire g name none x = do modify (λ s. record s { warned = s.warned ++ name ∷ [] }); pure undefined
fire g name (some (plain v)) x = apply_value g v x
fire g name (some (wrapped cb f)) x = do
  modify (λ s. record s { events = remove cb s.events })
  apply g f x

-- `JXMobile.ping`.
unfoldable pub ping : Engine → Str → Param → M Value
unfolding fire ping_args
ping g name param s =
    let (early, x, failed) = ping_args g param in
    if failed then ok early s else fire g name (lookup name s.events) x s

-- `JXMobile.prototype.registerToNative`.
unfoldable pub register_to_native : Engine → Str → Value → M (Unit {0})
unfolding on
register_to_native g name target =
    if g.is_android
    then on name (plain target)
    else modify (λ s. record s { native_events = insert name target s.native_events })

-- `GetDocumentsPath`, `GetDeviceName` and `GetConnectionStatus` differ in the name alone.
unfoldable pub get_from_native : Engine → Str → Value → M (Unit {0})
unfolding call_native
get_from_native g name (function callback) = call_native name (function (null_first callback) ∷ [])
get_from_native g name _ =
    fail (new_error g (js "JXMobile." ++ (name ++ js " expects a function callback")))

pub or_noop : Value → Fn
or_noop (function f) = f
or_noop _ = noop

-- `ToggleBluetooth` and `ToggleWiFi` differ in the name alone.
unfoldable pub toggle : Engine → Str → Value → Value → M (Unit {0})
unfolding call_native apply or_noop
toggle g name enabled callback =
    if g.is_android
    then call_native name (bool (truthy enabled) ∷ function (or_noop callback) ∷ [])
    else (do
      apply g (or_noop callback) (text (js "Warning: iOS does not support " ++ name) ∷ [])
      pure tt)

unfoldable pub get_documents_path : Engine → Value → M (Unit {0})
unfolding get_from_native
get_documents_path g callback = get_from_native g (js "GetDocumentsPath") callback

unfoldable pub get_device_name : Engine → Value → M (Unit {0})
unfolding get_from_native
get_device_name g callback = get_from_native g (js "GetDeviceName") callback

unfoldable pub get_connection_status : Engine → Value → M (Unit {0})
unfolding get_from_native
get_connection_status g callback = get_from_native g (js "GetConnectionStatus") callback

unfoldable pub toggle_bluetooth : Engine → Value → Value → M (Unit {0})
unfolding toggle
toggle_bluetooth g enabled callback = toggle g (js "ToggleBluetooth") enabled callback

unfoldable pub toggle_wifi : Engine → Value → Value → M (Unit {0})
unfolding toggle
toggle_wifi g enabled callback = toggle g (js "ToggleWiFi") enabled callback
