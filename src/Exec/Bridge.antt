-- ===== src/Exec/Bridge.antt =====
-- exec.js: the requests to native code, the queue of its messages, and the turns in which they are
-- handled. The native interface and what callbacks do are fields of `Native`.
use node_apphost.Base.{
  ℕ, suc, Str, js, str_eq, Bool, true, false, not, List, [], ◌∷◌, ◌++◌, Option, none, some,
  if◌then◌else◌, ◌&&◌, ◌||◌, is_empty,
}
use node_apphost.Base.Dict.{Dict, insert}
use node_apphost.Base.Decimal.{decimal}
use node_apphost.Exec.Payload.{frame, Codec, Event, hangs, process_message}

pub data JsMode : Type 0 where
  prompt js_object : JsMode

pub data NativeMode : Type 0 where
  polling load_url online_event : NativeMode

-- `{success : success, fail : fail}`, each a function of the page or missing.
pub record Callbacks : Type 0 where
  pub success : Option ℕ
  pub fail : Option ℕ

-- A call of the native interface: by `prompt` or not, and what it passes.
pub data Call : Type 0 where
  execute : Bool → Str → Str → Str → Str → Call
  retrieve : Bool → Bool → Call
  set_mode : Bool → NativeMode → Call

-- What waits in the event loop: `nextTick(processMessages)` and `nextTick(pollOnce)`.
pub data Tick : Type 0 where
  process poll : Tick

-- The variables of the module and of `cordova`; `bridge_secret` is `none` as long as it is negative,
-- and `timers` counts the timers of `pollingTimerFunc`.
pub record Bridge : Type 0 where
  pub bridge_secret : Option ℕ
  pub js_mode : Option JsMode
  pub prefers_prompt : Bool
  pub native_mode : NativeMode
  pub poll_enabled : Bool
  pub messages : List Str
  pub is_processing : Bool
  pub callbacks : Dict Callbacks
  pub callback_id : ℕ
  pub ticks : List Tick
  pub timers : ℕ
  pub calls : List Call
  pub events : List Event

-- `has_object` is `window._cordovaNative`; `reply` answers a call with messages or "", and `react` is
-- what the callbacks that an event runs do to this module.
pub record Native : Type 0 where
  pub codec : Codec
  pub has_object : Bool
  pub reply : Call → Str
  pub react : Event → Bridge → Bridge

-- `popMessageFromQueue`.
unfoldable pub pop_from : Str → List Str → Str × List Str
unfolding frame
pop_from batch queue =
    let (message, rest) = frame batch in
    if str_eq batch (b'*' ∷ [])
    then (b'*' ∷ [], queue)
    else (message, if is_empty rest then queue else rest ∷ queue)

-- The `finally` block of `processMessages`.
unfoldable pub finish : Bridge → Bridge
finish b = record b {
  is_processing = false;
  ticks = if is_empty b.messages then b.ticks else b.ticks ++ process ∷ [];
}

-- Behind an endless loop there is no `finally`.
unfoldable pub settle : Native → Event → Bridge → Bridge
unfolding finish
settle w hangs b = b
settle w e b = finish (w.react e b)

unfoldable pub handle : Native → Str → Bridge → Bridge
unfolding finish settle
handle w message b =
    let e = process_message w.codec message in
    if str_eq message (b'*' ∷ []) && is_empty b.messages
    then finish (record b { ticks = b.ticks ++ poll ∷ [] })
    else settle w e (record b { events = b.events ++ e ∷ [] })

unfoldable pub process_queue : Native → List Str → Bridge → Bridge
unfolding pop_from handle
process_queue w [] b = b
process_queue w (batch ∷ queue) b =
    let (message, rest) = pop_from batch queue in
    handle w message (record b { messages = rest; is_processing = true })

-- `processMessages`.
unfoldable pub process_messages : Native → Bridge → Bridge
unfolding process_queue
process_messages w b = if b.is_processing then b else process_queue w b.messages b

unfoldable pub push_messages : Str → Bridge → Bridge
push_messages msgs b = record b { messages = b.messages ++ msgs ∷ [] }

unfoldable pub poll_with : Native → Option ℕ → Bool → Bridge → Bridge
unfolding process_messages push_messages
poll_with w none from_online b = b
poll_with w (some secret) from_online b =
    let call = retrieve b.prefers_prompt from_online in
    let b' = record b { calls = b.calls ++ call ∷ [] } in
    if is_empty (w.reply call) then b' else process_messages w (push_messages (w.reply call) b')

-- `pollOnce`.
unfoldable pub poll_once : Native → Bool → Bridge → Bridge
unfolding poll_with
poll_once w from_online b = poll_with w b.bridge_secret from_online b

unfoldable pub run_tick : Native → List Tick → Bridge → Bridge
unfolding process_messages poll_once
run_tick w [] b = b
run_tick w (process ∷ ts) b = process_messages w (record b { ticks = ts })
run_tick w (poll ∷ ts) b = poll_once w false (record b { ticks = ts })

-- One turn of the event loop, for the first of what waits.
unfoldable pub next_tick : Native → Bridge → Bridge
unfolding run_tick
next_tick w b = run_tick w b.ticks b

-- `pollingTimerFunc`.
unfoldable pub polling_timer : Native → Bridge → Bridge
unfolding poll_once
polling_timer w b =
    let polled = poll_once w false b in
    if b.poll_enabled then record polled { timers = suc polled.timers } else b

is_prompt : JsMode → Bool
is_prompt prompt = true
is_prompt js_object = false

-- `setJsToNativeBridgeMode`.
unfoldable pub set_js_mode : Native → JsMode → Bridge → Bridge
unfolding is_prompt
set_js_mode w m b =
    let m' = if not (is_prompt m) && not w.has_object then prompt else m in
    record b { prefers_prompt = is_prompt m'; js_mode = some m' }

is_polling : NativeMode → Bool
is_polling polling = true
is_polling _ = false

pub same_mode : NativeMode → NativeMode → Bool
same_mode polling polling = true
same_mode load_url load_url = true
same_mode online_event online_event = true
same_mode _ _ = false

is_set : Option ℕ → Bool
is_set none = false
is_set (some _) = true

-- `setNativeToJsBridgeMode`.
unfoldable pub set_native_mode : NativeMode → Bridge → Bridge
unfolding is_polling same_mode is_set
set_native_mode m b = if same_mode m b.native_mode then b else record b {
  native_mode = m;
  poll_enabled =
      if is_polling m then true else (if is_polling b.native_mode then false else b.poll_enabled);
  calls = if is_set b.bridge_secret then b.calls ++ set_mode b.prefers_prompt m ∷ [] else b.calls;
  timers = if is_polling m then suc b.timers else b.timers;
}

-- The arguments of `androidExec`, the last one as `JSON.stringify` gives it.
pub record Request : Type 0 where
  pub callbacks : Callbacks
  pub service : Str
  pub action : Str
  pub args_json : Str

unfoldable pub has_callback : Callbacks → Bool
unfolding is_set
has_callback c = is_set c.success || is_set c.fail

-- From the new callback's id to the call of the native interface, which answers with messages.
unfoldable pub send_request : Native → Request → Bridge → Str × Bridge
unfolding has_callback
send_request w r b =
    let id = r.service ++ decimal b.callback_id in
    let call = execute b.prefers_prompt r.service r.action id r.args_json in
    (
      w.reply call,
      record b {
        callback_id = suc b.callback_id;
        callbacks =
            if has_callback r.callbacks then insert id r.callbacks b.callbacks else b.callbacks;
        calls = b.calls ++ call ∷ [];
      },
    )

-- `messagesFromNative.push(msgs); nextTick(processMessages);`, if there are messages.
unfoldable pub queue_messages : Str → Bridge → Bridge
queue_messages msgs b =
    if is_empty msgs
    then b
    else record b { messages = b.messages ++ msgs ∷ []; ticks = b.ticks ++ process ∷ [] }

unfoldable pub mode_set : Native → Option JsMode → Bridge → Bridge
unfolding set_js_mode
mode_set w none b = set_js_mode w js_object b
mode_set w (some m) b = b

unfoldable pub is_object_mode : Option JsMode → Bool
is_object_mode (some js_object) = true
is_object_mode _ = false

-- `androidExec` in the mode `PROMPT`, where it does not try again.
unfoldable pub exec_by_prompt : Native → Request → Bridge → Bridge
unfolding send_request queue_messages
exec_by_prompt w r b = let (msgs, b') = send_request w r b in queue_messages msgs b'

-- The part of `androidExec` behind the choice of a mode.
unfoldable pub exec_in_mode : Native → Request → Bridge → Bridge
unfolding send_request queue_messages set_js_mode exec_by_prompt is_object_mode
exec_in_mode w r b =
    let (msgs, b') = send_request w r b in
    if is_object_mode b'.js_mode && str_eq msgs (js "@Null arguments.")
    then set_js_mode w js_object (exec_by_prompt w r (set_js_mode w prompt b'))
    else queue_messages msgs b'

unfoldable pub exec_with : Native → Option ℕ → Request → Bridge → Option Bridge
unfolding exec_in_mode mode_set
exec_with w none r b = none
exec_with w (some secret) r b = some (exec_in_mode w r (mode_set w b.js_mode b))

-- `androidExec`; `none` is the exception for a missing secret.
unfoldable pub exec : Native → Request → Bridge → Option Bridge
unfolding exec_with
exec w r b = exec_with w b.bridge_secret r b

-- `androidExec.init`.
unfoldable pub init : Option ℕ → Bridge → Bridge
init secret b = record b { bridge_secret = secret }
