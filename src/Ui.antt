-- ===== src/Ui.antt =====
-- samples/android/assets/www/plugins/io.jxcore.node/www/jxcore.js: the user interface's half of the
-- bridge. Cordova's `exec` and `JSON` are parameters; a request to the device is a value.
pub mod Ready
pub mod Calls
pub mod Device
use node_apphost.Base.{
  ℕ, Str, js, str_eq, Bool, true, false, not, List, [], ◌∷◌, ◌++◌, Option, none, some,
  if◌then◌else◌,
}
use node_apphost.Base.Dict.{Dict, lookup, insert}
use node_apphost.Mobile.{
  Value, undefined, null, text, array, object, function, Values, nil, cons, Fields, end, field, Fn,
  user, truthy,
}
use node_apphost.Mobile.Events.{split_callback}

-- The functions that answers are handed to: one of the page's, `callLocalMethods`, the closure of
-- `isReady` for a callback, and the one that fires `onJXcoreReady`.
pub data Listener : Type 0 where
  page : ℕ → Listener
  local_call : Listener
  ready_probe : ℕ → Listener
  ready_event : Listener

-- A call of Cordova's `exec` with the service `JXcore`.
pub record Request : Type 0 where
  pub action : Str
  pub args : List Value
  pub listener : Option Listener

-- An argument that a local method is called with; `reply id` is the closure that calls the device's
-- method `id`.
pub data Arg : Type 0 where
  plain : Value → Arg
  reply : Str → Arg

-- What the page's functions are called with, in order.
pub data Effect : Type 0 where
  invoked : ℕ → List Value → Effect
  method_invoked : ℕ → List Arg → Effect
  fired : Effect

-- `initialized`, `localMethods`, and what has been asked for: requests, timers of `isReady`, calls.
pub record Page : Type 0 where
  pub initialized : Bool
  pub local_methods : Dict ℕ
  pub requests : List Request
  pub timers : List ℕ
  pub effects : List Effect

-- The parts of the system that this file does not hold.
pub record Web : Type 0 where
  pub is_android : Bool
  pub stringify : Str → List Value → Str
  pub parse_text : Values → Option Value

-- `callNative`: the arguments are `args || []`.
unfoldable pub call_native : Str → List Value → Option Listener → Page → Page
call_native name args listener p = record p {
  requests = p.requests ++ record { action = name; args = args; listener = listener } ∷ [];
}

abbrev pub list_of : Values → List Value
list_of nil = []
list_of (cons v vs) = v ∷ list_of vs

as_list : Value → List Value
as_list (array vs) = list_of vs
as_list v = v ∷ []

parsed_list : Option Value → Option (List Value)
unfolding as_list
parsed_list none = none
parsed_list (some v) = some (as_list v)

-- What the success function `cb` of `callNative` passes on; `none` is an early return, for null and
-- for a text that does not parse.
unfoldable pub answer_args : Web → Value → Option (List Value)
unfolding parsed_list
answer_args w null = none
answer_args w (array vs) = if w.is_android then some (list_of vs) else parsed_list (w.parse_text vs)
answer_args w v = some (v ∷ [])

-- `jxcore.isReady`.
unfoldable pub is_ready : ℕ → Page → Page
unfolding call_native
is_ready cb p = if p.initialized then p else call_native (js "isReady") [] (some (ready_probe cb)) p

first_arg : List Value → Value
first_arg [] = undefined
first_arg (v ∷ _) = v

unfoldable pub on_ready : ℕ → Bool → Page → Page
on_ready cb true p = record p { initialized = true; effects = p.effects ++ invoked cb [] ∷ [] }
on_ready cb false p = record p { timers = p.timers ++ cb ∷ [] }

first_timer : List ℕ → Page → Page
unfolding is_ready
first_timer [] p = p
first_timer (cb ∷ rest) p = is_ready cb (record p { timers = rest })

-- The timer of `isReady` runs out: `jxcore.isReady(callback)`.
unfoldable pub timer_fires : Page → Page
unfolding first_timer
timer_fires p = first_timer p.timers p

-- `hasOwnProperty("JXCORE_RETURN_CALLBACK")` of a last argument, and what it holds.
return_field : Fields → Option Value
return_field end = none
return_field (field k v fs) =
    let rest = return_field fs in if str_eq k (js "JXCORE_RETURN_CALLBACK") then some v else rest

-- The last argument with a marker gives way to the closure that answers; `none` is the `TypeError`
-- for `null` and `undefined`, which have no members. The device's markers hold a text.
marker_arg : Fields → Option Value → Option Arg
marker_arg fs (some (text id)) = some (reply id)
marker_arg fs (some v) = none
marker_arg fs none = some (plain (object fs))

last_arg : Value → Option Arg
unfolding return_field marker_arg
last_arg undefined = none
last_arg null = none
last_arg (object fs) = marker_arg fs (return_field fs)
last_arg v = some (plain v)

pub prepend : Arg → Option (List Arg) → Option (List Arg)
prepend a none = none
prepend a (some as_) = some (a ∷ as_)

one_arg : Option Arg → Option (List Arg)
one_arg none = none
one_arg (some a) = some (a ∷ [])

unfoldable pub array_args : Values → Option (List Arg)
unfolding last_arg prepend one_arg
array_args nil = some []
array_args (cons v nil) = one_arg (last_arg v)
array_args (cons v (cons w vs)) = prepend (plain v) (array_args (cons w vs))

unfoldable pub plain_args : List Value → List Arg
plain_args [] = []
plain_args (v ∷ vs) = plain v ∷ plain_args vs

-- The arguments of the local method: those of an array in the second place, or all behind the name.
local_args : List Value → Option (List Arg)
unfolding array_args plain_args
local_args (array vs ∷ _) = array_args vs
local_args vs = some (plain_args vs)

run_local : Option ℕ → Option (List Arg) → Page → Option Page
run_local none as_ p = some p
run_local (some f) none p = none
run_local (some f) (some as_) p =
    some (record p { effects = p.effects ++ method_invoked f as_ ∷ [] })

-- `callLocalMethods`; `none` is a thrown `TypeError`. The device passes a name that is a text.
unfoldable pub call_local : List Value → Page → Option Page
unfolding local_args run_local
call_local (text name ∷ rest) p = run_local (lookup name p.local_methods) (local_args rest) p
call_local _ p = some p

-- `callback.apply(null, data)`.
unfoldable pub hear : Listener → List Value → Page → Option Page
unfolding call_local on_ready first_arg
hear (page n) args p = some (record p { effects = p.effects ++ invoked n args ∷ [] })
hear local_call args p = call_local args p
hear (ready_probe cb) args p = some (on_ready cb (truthy (first_arg args)) p)
hear ready_event args p = some (record p { effects = p.effects ++ fired ∷ [] })

hear_if : Option Listener → Option (List Value) → Page → Option Page
hear_if (some l) (some args) p = hear l args p
hear_if _ _ p = some p

-- The success function of a request is called with data, and its error function with an error.
unfoldable pub respond : Web → Option Listener → Value → Page → Option Page
unfolding answer_args hear_if
respond w listener v p = hear_if listener (answer_args w v) p

unfoldable pub respond_error : Option Listener → Value → Page → Option Page
unfolding hear_if
respond_error listener err p = hear_if listener (some (null ∷ err ∷ [])) p

-- `callFunction`.
unfoldable pub call_function : Web → Str → List Value → Option Listener → Page → Page
unfolding call_native
call_function w name params listener p =
    call_native (js "Evaluate") (text (js "Mobile.executeJSON(" ++ w.stringify name params) ∷ [])
      listener p

page_listener : Option Fn → Option Listener
page_listener (some (user n)) = some (page n)
page_listener _ = none

-- `jxcore.prototype.call`: a last argument that is a function is the callback.
unfoldable pub call : Web → Str → List Value → Page → Page
unfolding call_function split_callback page_listener
call w name args p =
    let (params, f) = split_callback args in call_function w name params (page_listener f) p

-- `jxcore.prototype.register`; `none` is the `TypeError`.
unfoldable pub register : Str → Value → Page → Option Page
register name (function (user n)) p =
    some (record p { local_methods = insert name n p.local_methods })
register name _ p = none

-- `jxcore.prototype.loadMainFile`.
unfoldable pub load_main_file : Web → Str → Option Listener → Page → Page
unfolding call_function
load_main_file w name listener p = call_function w (js "loadMainFile") (text name ∷ []) listener (
    call_function w (js "registerUIMethod") (text (js "callLocalMethods") ∷ []) (some local_call) p)

-- `onPause`, `onResume`, and the subscriber of `onCordovaReady`.
unfoldable pub on_pause : Page → Page
unfolding call_native
on_pause p = call_native (js "onPause") [] none p

unfoldable pub on_resume : Page → Page
unfolding call_native
on_resume p = call_native (js "onResume") [] none p

unfoldable pub on_cordova_ready : Page → Page
unfolding call_native
on_cordova_ready p = call_native (js "onResume") [] (some ready_event) p
