-- ===== src/Exec/Ios.antt =====
-- samples/ios/www/cordova-js-src/exec.js: the transport under the page's half of the bridge on iOS.
-- Commands wait in a queue until native code fetches them; a poke and a timer see to it that it does.
pub mod Attended
pub mod Proxy
use node_apphost.Base.{
  ℕ, suc, ◌-◌, ◌==◌, Str, js, str_eq, Bool, true, false, not, List, [], ◌∷◌, ◌++◌, Option, none,
  some, if◌then◌else◌, ◌&&◌, ◌||◌, is_empty, length,
}
use node_apphost.Base.Dict.{Dict, insert, lookup}
use node_apphost.Base.Decimal.{decimal}
use node_apphost.Mobile.{
  Value, undefined, text, array, object, Values, nil, cons, Fields, end, field, truthy,
}
use node_apphost.Exec.Bridge.{Callbacks, has_callback}

-- An argument of a request: an `ArrayBuffer` or any other value.
pub data IosArg : Type 0 where
  plain : Value → IosArg
  array_buffer : Str → IosArg

-- What a callback is called with: a value, or the `ArrayBuffer` of a base64 text.
pub data IosItem : Type 0 where
  value : Value → IosItem
  decoded : Value → IosItem

-- An entry of `commandQueue`, which is kept as its JSON text.
pub record Command : Type 0 where
  pub callback_id : Str
  pub service : Str
  pub action : Str
  pub args : List Value

pub record IosAnswer : Type 0 where
  pub callback_id : Str
  pub success : Bool
  pub status : ℕ
  pub payload : List IosItem
  pub keep_callback : Bool

-- The variables of the module and of `cordova`: `live` has the fail-safe timers that have not run
-- out, `pending_pokes` counts the timers that wait for a body, and `answers` those of `nc2`.
pub record IosBridge : Type 0 where
  pub command_queue : List Command
  pub in_eval : ℕ
  pub fail_safe : Option ℕ
  pub live : List ℕ
  pub next_timer : ℕ
  pub pending_pokes : ℕ
  pub pokes : ℕ
  pub callbacks : Dict Callbacks
  pub callback_id : ℕ
  pub forwarded : List (Command × Option Callbacks)
  pub answers : List IosAnswer

-- The parts of the system that this file does not hold.
pub record Device : Type 0 where
  pub has_body : Bool
  pub proxy_changed : Bool
  pub to_base64 : Str → Str
  pub stringify : Command → Str

-- `massageArgsJsToNative`.
massage_arg : Device → IosArg → Value
massage_arg d (plain v) = v
massage_arg d (array_buffer s) =
    object (
      field (js "CDVType") (text (js "ArrayBuffer")) (field (js "data") (text (d.to_base64 s)) end))

unfoldable pub massage_args : Device → List IosArg → List Value
unfolding massage_arg
massage_args d [] = []
massage_args d (a ∷ as_) = massage_arg d a ∷ massage_args d as_

field_of : Str → Fields → Option Value
field_of k end = none
field_of k (field j v fs) = let rest = field_of k fs in if str_eq j k then some v else rest

or_undefined : Option Value → Value
or_undefined none = undefined
or_undefined (some v) = v

is_text : Str → Option Value → Bool
is_text k (some (text s)) = str_eq s k
is_text k _ = false

-- `massageMessageNativeToJs`.
massage_message : Value → IosItem
unfolding field_of is_text or_undefined
massage_message (object fs) =
    if is_text (js "ArrayBuffer") (field_of (js "CDVType") fs)
    then decoded (or_undefined (field_of (js "data") fs))
    else value (object fs)
massage_message v = value v

massage_messages : Values → List IosItem
unfolding massage_message
massage_messages nil = []
massage_messages (cons v vs) = massage_message v ∷ massage_messages vs

-- The parts of a message `MultiPart`; native code gives them as an array.
parts_of : Option Value → List IosItem
unfolding massage_messages
parts_of (some (array vs)) = massage_messages vs
parts_of _ = []

convert_fields : Fields → Option Value → List IosItem
unfolding parts_of is_text massage_message
convert_fields fs none = value (object fs) ∷ []
convert_fields fs (some kind) =
    if is_text (js "MultiPart") (some kind)
    then parts_of (field_of (js "messages") fs)
    else massage_message (object fs) ∷ []

-- `convertMessageToArgsNativeToJs`.
unfoldable pub convert_message : Value → List IosItem
unfolding convert_fields
convert_message (object fs) = convert_fields fs (field_of (js "CDVType") fs)
convert_message v = value v ∷ []

-- `pokeNative`: without a body it tries again later; with one, native code is told, and a timer set.
unfoldable pub poke_native : Device → IosBridge → IosBridge
poke_native d b =
    if d.has_body
    then record b {
      pokes = suc b.pokes;
      fail_safe = some b.next_timer;
      live = b.live ++ b.next_timer ∷ [];
      next_timer = suc b.next_timer;
    }
    else record b { pending_pokes = suc b.pending_pokes }

-- The arguments of `iOSExec`.
pub record IosRequest : Type 0 where
  pub callbacks : Callbacks
  pub service : Str
  pub action : Str
  pub args : List IosArg

-- The command with the id of its callback, or `INVALID` where it has none.
unfoldable pub queue_command : Device → IosRequest → IosBridge → IosBridge
unfolding massage_args has_callback
queue_command d r b =
    let fresh = r.service ++ decimal b.callback_id in
    let wanted = has_callback r.callbacks in
    record b {
      callback_id = if wanted then suc b.callback_id else b.callback_id;
      callbacks = if wanted then insert fresh r.callbacks b.callbacks else b.callbacks;
      command_queue =
          b.command_queue
          ++ record {
            callback_id = if wanted then fresh else js "INVALID";
            service = r.service;
            action = r.action;
            args = massage_args d r.args;
          }
            ∷ [];
    }

poke_if : Bool → Device → IosBridge → IosBridge
unfolding poke_native
poke_if wanted d b = if wanted then poke_native d b else b

-- `iOSExec`.
unfoldable pub ios_exec : Device → IosRequest → IosBridge → IosBridge
unfolding queue_command poke_if
ios_exec d r b =
    let b' = queue_command d r b in
    poke_if ((b'.in_eval == 0) && (length b'.command_queue == 1)) d b'

remove_timer : ℕ → List ℕ → List ℕ
remove_timer n [] = []
remove_timer n (m ∷ ms) = if m == n then ms else m ∷ remove_timer n ms

-- `handleBridgeChange`, where the bridge has changed: every command is handed on with its callbacks.
hand_on : Dict Callbacks → List Command → List (Command × Option Callbacks)
hand_on callbacks [] = []
hand_on callbacks (c ∷ cs) = (c, lookup c.callback_id callbacks) ∷ hand_on callbacks cs

unfoldable pub bridge_change : IosBridge → IosBridge
unfolding hand_on
bridge_change b = record b {
  forwarded = b.forwarded ++ hand_on b.callbacks b.command_queue;
  command_queue = [];
}

-- A fail-safe timer runs out.
unfoldable pub fail_safe_fires : Device → ℕ → IosBridge → IosBridge
unfolding bridge_change poke_native remove_timer
fail_safe_fires d n b =
    let b' = record b { live = remove_timer n b.live } in
    if is_empty b'.command_queue
    then b'
    else (if d.proxy_changed then bridge_change b' else poke_native d b')

-- A poke that waited for a body is due.
unfoldable pub poke_fires : Device → IosBridge → IosBridge
unfolding poke_native
poke_fires d b = poke_native d (record b { pending_pokes = b.pending_pokes - 1 })

clear_timer : Option ℕ → List ℕ → List ℕ
unfolding remove_timer
clear_timer none live = live
clear_timer (some n) live = remove_timer n live

joined : Device → List Command → Str
joined d [] = []
joined d (c ∷ []) = d.stringify c
joined d (c ∷ c' ∷ cs) = d.stringify c ++ b',' ∷ joined d (c' ∷ cs)

-- `nativeFetchMessages`: the commands as a JSON array, or "".
unfoldable pub fetch_messages : Device → IosBridge → Str × IosBridge
unfolding clear_timer joined
fetch_messages d b = (
  if is_empty b.command_queue then [] else b'[' ∷ (joined d b.command_queue ++ b']' ∷ []),
  record b { fail_safe = none; live = clear_timer b.fail_safe b.live; command_queue = [] },
)

-- `nativeEvalAndFetch` of a function that returns.
unfoldable pub eval_and_fetch : Device → (IosBridge → IosBridge) → IosBridge → Str × IosBridge
unfolding fetch_messages
eval_and_fetch d func b =
    let (json, b') = fetch_messages d (func (record b { in_eval = suc b.in_eval })) in
    (json, record b' { in_eval = b'.in_eval - 1 })

-- `nativeEvalAndFetch` of a function that throws: nothing is fetched.
unfoldable pub eval_throws : (IosBridge → IosBridge) → IosBridge → IosBridge
eval_throws func b =
    let b' = func (record b { in_eval = suc b.in_eval }) in record b' { in_eval = b'.in_eval - 1 }

-- `nativeCallback`; `debug` is not used. The answer is given by a timer.
unfoldable pub native_callback : Device → Str → ℕ → Value → Bool → IosBridge → Str × IosBridge
unfolding eval_and_fetch convert_message
native_callback d id status message keep b =
    eval_and_fetch d
      (λ b'. record b' {
        answers =
            b'.answers
            ++ record {
              callback_id = id;
              success = (status == 0) || (status == 1);
              status = status;
              payload = convert_message message;
              keep_callback = keep;
            }
              ∷ [];
      })
      b
