-- ===== src/Mobile/Methods.antt =====
-- The method tables of jxcore_cordova.js: the registrations of `JXMobile.prototype`, `call`, and
-- the internal methods `registerUIMethod` and `loadMainFile`.
pub mod Returns
use node_apphost.Base.{
  ℕ, ◌+◌, ◌%◌, Str, js, str_eq, Bool, true, false, List, [], ◌∷◌, ◌++◌, Option, none, some,
  if◌then◌else◌, is_empty, ◌||◌,
}
use node_apphost.Base.Dict.{Dict, lookup, insert, remove}
use node_apphost.Base.Decimal.{decimal}
use node_apphost.Mobile.{
  Value, undefined, null, bool, text, array, object, function, nil, Values, cons, Fields, end,
  field, Fn, values, truthy, Method, UiEntry, callback, return_callback, Mobile, Err, Res, ok,
  throw, M, ◌>>=◌, ◌>>◌, pure, fail, modify, catch, Engine, new_error,
}
use node_apphost.Mobile.Events.{apply, apply_value, call_native, split_callback}

-- The names that every plain object inherits from `Object.prototype`.
unfoldable pub is_inherited : Str → Bool
unfolding js
is_inherited k =
    str_eq k (js "constructor")
    || str_eq k (js "toString")
    || str_eq k (js "toLocaleString")
    || str_eq k (js "valueOf")
    || str_eq k (js "hasOwnProperty")
    || str_eq k (js "isPrototypeOf")
    || str_eq k (js "propertyIsEnumerable")
    || str_eq k (js "__proto__")
    || str_eq k (js "__defineGetter__")
    || str_eq k (js "__defineSetter__")
    || str_eq k (js "__lookupGetter__")
    || str_eq k (js "__lookupSetter__")

-- `registerSync` and `registerAsync`.
unfoldable pub register_sync : Str → Value → M (Unit {0})
register_sync name target = modify (λ s. record s {
  jx_methods = insert name (record { is_synced = true; method = target }) s.jx_methods;
})

unfoldable pub register_async : Str → Value → M (Unit {0})
register_async name target = modify (λ s. record s {
  jx_methods = insert name (record { is_synced = false; method = target }) s.jx_methods;
})

-- `unregister`: `delete` of a name that is not an own key does nothing.
unfoldable pub unregister : Str → M (Unit {0})
unregister name = modify (λ s. record s { jx_methods = remove name s.jx_methods })

-- The key under which `call` keeps a callback, and the parameter that stands for it.
unfoldable pub reference : ℕ → Str → Str
reference n name = decimal n ++ name

unfoldable pub return_marker : Str → Value
return_marker ref = object (field (js "JXCORE_RETURN_CALLBACK") (text (js "RC-" ++ ref)) end)

-- The part of `call` under its second `if`: keep the callback, and put the marker in its place.
unfoldable pub keep_callback : Str → List Value → Option Fn → M (List Value)
unfolding reference
keep_callback name params none s = ok params s
keep_callback name params (some f) s =
    let ref = reference s.return_reference_counter name in
    ok (params ++ return_marker ref ∷ []) (record s {
      return_reference_counter = (s.return_reference_counter + 1) % 9999;
      ui_methods = insert ref (return_callback f) s.ui_methods;
    })

-- `fnc.callback.apply(null, args)` of an entry of `ui_methods`.
unfoldable pub call_entry : Engine → Option UiEntry → List Value → M Value
unfolding apply_value
call_entry g (some (callback v)) args = apply_value g v args
call_entry g _ args = fail g.type_error

-- `JXMobile.prototype.call`: `fnc` is read before the callback is kept.
unfoldable pub call_with : Engine → Str → Option UiEntry → List Value × Option Fn → M (Unit {0})
unfolding keep_callback call_entry
call_with g name none (front, f) =
    fail (new_error g (js "Method " ++ (name ++ js " is undefined.")))
call_with g name (some entry) (front, f) = do
  params ← keep_callback name front f
  call_entry g (some entry) (text name ∷ array (values params) ∷ null ∷ [])
  pure tt

unfoldable pub call : Engine → Str → List Value → M (Unit {0})
unfolding call_with split_callback
call g name params s =
    call_with g name (lookup (js "callLocalMethods") s.ui_methods) (split_callback params) s

-- `args[i]`, and an array's first element in place of the array.
unfoldable pub arg : List Value → Value
arg [] = undefined
arg (v ∷ _) = v

unfoldable pub unwrap : Value → Value
unwrap (array nil) = undefined
unwrap (array (cons v vs)) = v
unwrap v = v

-- `!v || !v.indexOf` is false of texts that are not empty and of arrays.
unfoldable pub has_index_of : Value → Bool
has_index_of (text (_ ∷ _)) = true
has_index_of (array vs) = true
has_index_of _ = false

unfoldable pub rest_of : List Value → List Value
rest_of [] = []
rest_of (_ ∷ vs) = vs

-- `internal_methods['registerUIMethod']`.
unfoldable pub register_ui_method : Engine → Value → Value → M Value
unfolding unwrap has_index_of
register_ui_method g method_name callback_ =
    let name = unwrap method_name in
    if has_index_of name
    then (do
      modify (λ s. record s {
        ui_methods = insert (g.value_text name) (callback callback_) s.ui_methods;
      })
      pure undefined)
    else fail (
        new_error g (
          js "Couldn't register UI method. '"
          ++ (g.value_text name ++ js "' is undefined or not string")))

-- Reporting an error to the native side: `JXMobile('OnError').callNative(...)`.
unfoldable pub send_report : Engine → Err → M (Unit {0})
send_report g e = call_native (js "OnError") (e.message ∷ text (g.stringify e.stack) ∷ [])

-- The same behind `Error.captureStackTrace(e)`, which sets the stack, or throws.
unfoldable pub report : Engine → Err → M (Unit {0})
unfolding send_report
report g e =
    if e.takes_stack
    then send_report g (record e { stack = g.captured_stack e })
    else fail g.type_error

-- The text of `err.message`.
message_text : Engine → Value → Str
message_text g (text m) = m
message_text g v = g.value_text v

-- `require(path.join(process.cwd(), filePath))`; `path.join` takes nothing but texts.
unfoldable pub require_path : Engine → Value → M (Unit {0})
require_path g (text path) = g.require (g.in_cwd path)
require_path g v = fail g.type_error

unfoldable pub load_file : Engine → Value → M (Value × Value)
unfolding report require_path message_text
load_file g path = catch (require_path g path >> pure (bool true, null)) (λ e.
    report g e
    >> pure (bool false, text (message_text g e.message ++ (js "\n" ++ g.captured_stack e))))

-- `internal_methods['loadMainFile']`.
unfoldable pub load_main_file : Engine → Value → Value → M Value
unfolding unwrap has_index_of load_file apply_value
load_main_file g file_path callback_ =
    let path = unwrap file_path in
    if has_index_of path
    then (do
      (result, err) ← load_file g path
      apply_value g callback_ (result ∷ err ∷ [])
      pure undefined)
    else fail (
        new_error g (
          js "Couldn't load main file. '"
          ++ (g.value_text path ++ js "' is undefined or not string")))
