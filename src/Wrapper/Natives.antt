-- ===== src/Wrapper/Natives.antt =====
-- patch/node/node_wrapper.cc: the table of native methods, the methods of `process.natives` and of other
-- objects that stand for them, and their calls. `none` is a failed assertion, a read out of bounds,
-- or a name that is no identifier.
pub mod Script
pub mod Linked
pub mod Named
pub mod Called
use node_apphost.Base.{
  ℕ, suc, Str, js, Bool, true, false, List, [], ◌∷◌, ◌++◌, Option, none, some, if◌then◌else◌, ◌==◌,
  ◌&&◌, ltb, length, get_elem?,
}
use node_apphost.Base.Dict.{Dict, lookup, insert}
use node_apphost.Base.Decimal.{decimal}
use node_apphost.Base.Options.{◌>>=◌}
use node_apphost.Mobile.Methods.{is_inherited}
use node_apphost.Wrapper.{
  Js, js_int32, js_string, js_object, Wrap, value_wrap, JsValue, Engine, new_value, convert,
}
use node_apphost.Wrapper.Natives.Script.{proxy_script}
use node_apphost.Wrapper.Calls.{Returned, throws, free_value, result_of}

-- The object that has a method: `process.natives` or another one.
pub data Target : Type 0 where
  process_natives : Target
  host_object : ℕ → Target

-- V8 and the native code of the application: whether a script with this name compiles and makes a member
-- of the object itself, which `__proto__` does not, `IsUint32` with the number, the text of the TypeError
-- for a method that is not there, what a native method makes of its arguments and of the slot for its
-- result, and what a call of a member does that no native code has registered: one that
-- `process.natives` has from `Object.prototype`, or any member of another object.
pub record Vm : Type 0 where
  pub engine : Engine
  pub compiles : Str → Bool
  pub uint32 : Js → Option ℕ
  pub type_error : Str → Str
  pub run : ℕ → List JsValue → JsValue → Option (List JsValue × JsValue)
  pub other : Target → Str → List Js → Option Returned

unfoldable pub same_target : Target → Target → Bool
same_target process_natives process_natives = true
same_target (host_object n) (host_object m) = n == m
same_target _ _ = false

-- `callbacks` up to `extension_id`, and for each method of an object the number that its script passes.
pub record Natives : Type 0 where
  pub callbacks : List (Str × ℕ)
  pub proxies : Target → Dict ℕ
  pub running : Bool

unfoldable pub no_natives : Natives
no_natives = record { callbacks = []; proxies = λ t. []; running = false }

-- The first half of `JS_SetProcessNative` and of `JS_SetNativeMethod`.
unfoldable pub take_id : Str → ℕ → Natives → Option (ℕ × Natives)
take_id name callback n =
    if ltb (length n.callbacks) 1024
    then some (length n.callbacks, record n { callbacks = n.callbacks ++ (name, callback) ∷ [] })
    else none

-- `DeclareProxy`, with what its script does.
unfoldable pub declare_proxy : Vm → Target → Str → ℕ → Natives → Option Natives
declare_proxy vm target name id n =
    let declared : Natives = record n {
      proxies = λ t. if same_target target t then insert name id (n.proxies t) else n.proxies t;
    } in
    if ltb (length (proxy_script name id)) 2048 && vm.compiles name then some declared else none

-- `JS_SetProcessNativeInternal`: nothing before there is an environment.
unfoldable pub set_native_internal : Vm → Str → ℕ → Natives → Option Natives
unfolding declare_proxy
set_native_internal vm name id n =
    let declared = declare_proxy vm process_natives name id n in
    if n.running then declared else some n

unfoldable pub internal_with : Vm → Str → Option (ℕ × Natives) → Option Natives
unfolding set_native_internal
internal_with vm name none = none
internal_with vm name (some (id, n)) = set_native_internal vm name id n

-- `JS_SetProcessNative` of Node.
unfoldable pub set_node_native : Vm → Str → ℕ → Natives → Option Natives
unfolding internal_with take_id
set_node_native vm name callback n = internal_with vm name (take_id name callback n)

unfoldable pub declared_on : Vm → ℕ → Str → Option (ℕ × Natives) → Option Natives
unfolding declare_proxy
declared_on vm o name none = none
declared_on vm o name (some (id, n)) =
    let declared = declare_proxy vm (host_object o) name id n in
    if n.running then declared else none

-- `JS_SetNativeMethod`, for the object `o`.
unfoldable pub set_native_method : Vm → ℕ → Str → ℕ → Natives → Option Natives
unfolding declared_on take_id
set_native_method vm o name callback n = declared_on vm o name (take_id name callback n)

-- The loop of `DEFINE_NATIVES__`, from the number `i` on.
unfoldable pub define_natives : Vm → ℕ → List (Str × ℕ) → Natives → Option Natives
unfolding set_native_internal
define_natives vm i [] n = some n
define_natives vm i ((name, callback) ∷ cs) n =
    set_native_internal vm name i n >>= define_natives vm (suc i) cs

-- The environment is made, and `DEFINE_NATIVES__` is called. The callback for the start, which it calls
-- then, is native code whose calls are calls like any others.
unfoldable pub start_natives : Vm → Natives → Option Natives
unfolding define_natives
start_natives vm n = define_natives vm 0 n.callbacks (record n { running = true })

converted : Engine → List Js → List JsValue
unfolding convert
converted g [] = []
converted g (v ∷ vs) = (convert g v).1 ∷ converted g vs

free_all : Engine → List JsValue → Option JsValue → Option JsValue
unfolding free_value
free_all g [] slot = slot
free_all g (v ∷ vs) slot = free_value g v >>= λ w. free_all g vs slot

finish : Vm → Option (List JsValue × JsValue) → Option Returned
unfolding free_all result_of
finish vm none = none
finish vm (some (vs, slot)) = free_all vm.engine vs (some slot) >>= result_of vm.engine

-- What `extensionCallback` does with a registered callback.
unfoldable pub run_callback : Vm → ℕ → List Js → Option Returned
unfolding finish converted new_value
run_callback vm callback args = finish vm (vm.run callback (converted vm.engine args) new_value)

run_entry : Vm → List Js → Option (Str × ℕ) → Option Returned
unfolding run_callback
run_entry vm args none = some (throws (js_string (js "There is no extension method for given Id")))
run_entry vm args (some (name, callback)) = run_callback vm callback args

-- The number becomes an `int`, which is negative from 2147483648 on.
with_id : Vm → List Js → Natives → Option ℕ → Option Returned
unfolding run_entry
with_id vm args n none =
    some (throws (js_string (js "This method expects the first parameter is unsigned")))
with_id vm args n (some id) =
    let result = run_entry vm args (get_elem? n.callbacks id) in
    if ltb id 2147483648 then result else none

-- `extensionCallback`.
unfoldable pub extension_callback : Vm → List Js → Natives → Option Returned
unfolding with_id
extension_callback vm [] n = with_id vm [] n none
extension_callback vm (v ∷ args) n = with_id vm args n (vm.uint32 v)

-- A member that no native code has registered. `process.natives` is a plain object.
call_unregistered : Vm → Target → Str → List Js → Option Returned
unfolding is_inherited
call_unregistered vm process_natives name args =
    if is_inherited name
    then vm.other process_natives name args
    else some (throws (js_string (vm.type_error name)))
call_unregistered vm (host_object o) name args = vm.other (host_object o) name args

call_proxy : Vm → Target → Str → List Js → Natives → Option ℕ → Option Returned
unfolding extension_callback call_unregistered
call_proxy vm target name args n none = call_unregistered vm target name args
call_proxy vm target name args n (some id) = extension_callback vm (js_int32 id ∷ args) n

-- A call of a method of an object in JavaScript, through the function of the script.
unfoldable pub call_method : Vm → Target → Str → List Js → Natives → Option Returned
unfolding call_proxy
call_method vm target name args n =
    call_proxy vm target name args n (lookup name (n.proxies target))

-- A registration by native code.
pub record Registration : Type 0 where
  pub target : Target
  pub method : Str
  pub callback : ℕ

unfoldable pub register_at : Vm → Target → Str → ℕ → Natives → Option Natives
unfolding set_node_native set_native_method
register_at vm process_natives name callback n = set_node_native vm name callback n
register_at vm (host_object o) name callback n = set_native_method vm o name callback n

unfoldable pub register_natives : Vm → List Registration → Natives → Option Natives
unfolding register_at
register_natives vm [] n = some n
register_natives vm (r ∷ rs) n =
    register_at vm r.target r.method r.callback n >>= register_natives vm rs
