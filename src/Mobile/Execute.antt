-- ===== src/Mobile/Execute.antt =====
-- `JXMobile.executeJSON` of jxcore_cordova.js: the calls that the user interface makes.
pub mod Answers
pub mod Failures
pub mod Thrown
use node_apphost.Base.{
  ℕ, ◌+◌, ◌%◌, Str, js, str_eq, Bool, true, false, not, List, [], ◌∷◌, ◌++◌, Option, none, some,
  if◌then◌else◌, is_empty, ltb, length, take, drop, ◌||◌, ◌&&◌,
}
use node_apphost.Base.Dict.{Dict, lookup, insert, remove}
use node_apphost.Mobile.{
  Value, undefined, null, bool, text, array, object, function, Fn, answer, truthy, Method, UiEntry,
  callback, return_callback, Mobile, Err, Res, ok, throw, M, ◌>>=◌, ◌>>◌, pure, fail, modify, catch,
  Engine, new_error,
}
use node_apphost.Mobile.Events.{apply, apply_value, call_native}
use node_apphost.Mobile.Methods.{
  is_inherited, arg, rest_of, register_ui_method, load_main_file, report,
}

-- The parameter `json`; `params` may be missing.
pub record Json : Type 0 where
  pub method_name : Str
  pub params : Option (List Value)

-- `json.params.push(v)`.
unfoldable pub push : Engine → Option (List Value) → Value → M (List Value)
push g none v = fail g.type_error
push g (some ps) v = pure (ps ++ v ∷ [])

-- What `internal_methods[name]` finds: its two own methods, or an inherited one.
pub data Internal : Type 0 where
  register_ui load_main : Internal
  inherited : Internal

unfoldable pub internal_method : Str → Option Internal
internal_method name =
    if str_eq name (js "registerUIMethod")
    then some register_ui
    else (if str_eq name (js "loadMainFile")
        then some load_main
        else (if is_inherited name then some inherited else none))

is_primitive : Value → Bool
is_primitive (array vs) = false
is_primitive (object fs) = false
is_primitive (function f) = false
is_primitive _ = true

-- A method of `Object.prototype` applied to `null` throws, but for these; `__proto__` is no function.
pub inherited_returns : Str → Value → Bool
inherited_returns name v =
    str_eq name (js "constructor")
    || str_eq name (js "toString")
    || str_eq name (js "isPrototypeOf") && is_primitive v

unfoldable pub run_internal : Engine → Str → Internal → List Value → M Value
unfolding is_primitive inherited_returns
run_internal g name register_ui ps = register_ui_method g (arg ps) (arg (rest_of ps))
run_internal g name load_main ps = load_main_file g (arg ps) (arg (rest_of ps))
run_internal g name inherited ps =
    if inherited_returns name (arg ps) then pure undefined else fail g.type_error

-- `!json.params || (json.params.length == 1 && json.params[0] === null)`.
unfoldable pub async_params : Option (List Value) → List Value
async_params none = []
async_params (some (null ∷ [])) = []
async_params (some ps) = ps

unfoldable pub sync_params : Option (List Value) → List Value
sync_params none = []
sync_params (some ps) = ps

unfoldable pub run_method : Engine → Method → Option (List Value) → Value → M Value
unfolding async_params sync_params
run_method g fnc params callback_id =
    if fnc.is_synced
    then (do
      ret_val ← apply_value g fnc.method (sync_params params)
      if truthy callback_id
          then (do apply g (answer callback_id) (ret_val ∷ []); pure undefined)
          else pure ret_val)
    else apply_value g fnc.method (async_params params ++ function (answer callback_id) ∷ [])

unfoldable pub unknown_method : Engine → Err
unknown_method g = new_error g (js "JXcore: Method Doesn't Exist [")

-- The name begins with `RC-` and goes on.
unfoldable pub is_return : Str → Bool
is_return name = ltb 3 (length name) && str_eq (take 3 name) (js "RC-")

unfoldable pub run_return : Engine → Str → Option UiEntry → List Value → M Value
unfolding unknown_method
run_return g ref (some (return_callback f)) ps = do
  apply g f ps
  modify (λ s. record s { ui_methods = remove ref s.ui_methods })
  pure undefined
run_return g ref _ ps = fail (unknown_method g)

-- The chain of tests in the `try` block.
unfoldable pub dispatch : Engine → Json → Value → Option Internal → Option Method → M Value
unfolding push run_internal run_method unknown_method run_return
dispatch g json callback_id (some internal) fnc = do
  ps ← push g json.params (function (answer callback_id))
  run_internal g json.method_name internal ps
  pure undefined
dispatch g json callback_id none (some fnc) = run_method g fnc json.params callback_id
dispatch g json callback_id none none =
    if is_return json.method_name
    then (do
      ps ← push g json.params (function (answer callback_id))
      λ s.
          run_return g (drop 3 json.method_name) (lookup (drop 3 json.method_name) s.ui_methods) ps
            s)
    else fail (unknown_method g)

-- `JXMobile.executeJSON`.
unfoldable pub execute_json : Engine → Json → Value → M Value
unfolding dispatch report
execute_json g json callback_id s =
    if is_empty json.method_name
    then ok undefined s
    else catch
        (dispatch g json callback_id (internal_method json.method_name)
          (lookup json.method_name s.jx_methods))
        (λ e. report g e >> pure undefined) s
