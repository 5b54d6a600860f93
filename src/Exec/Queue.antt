-- ===== src/Exec/Queue.antt =====
-- Whether the messages of native code that are queued are sure to be handled.
use node_apphost.Base.{
  ℕ, Str, js, str_eq, Bool, true, false, List, [], ◌∷◌, ◌++◌, Option, none, some, if◌then◌else◌,
  ◌&&◌, is_empty, ◌≡◌, ◌⊎◌, inl, inr, refl, Bool-cases,
}
use node_apphost.Exec.Payload.{Event, hangs, process_message}
use node_apphost.Exec.Bridge.{
  Bridge, Native, NativeMode, JsMode, js_object, prompt, Tick, process, poll, retrieve, Request,
  finish, settle, handle, pop_from, process_queue, process_messages, push_messages, poll_with,
  poll_once, run_tick, next_tick, polling_timer, set_js_mode, set_native_mode, send_request,
  queue_messages, exec_by_prompt, exec_in_mode, mode_set, is_object_mode, same_mode, Call,
  exec_with, exec, init,
}

abbrev pub has_process : List Tick → Bool
has_process [] = false
has_process (process ∷ ts) = true
has_process (poll ∷ ts) = has_process ts

abbrev pub hung : List Event → Bool
hung [] = false
hung (hangs ∷ es) = true
hung (_ ∷ es) = hung es

-- A message is being handled by a loop that does not end, or nothing is being handled, and there is
-- no message or `processMessages` waits in the event loop.
abbrev pub ServedBy : Bool → List Event → List Str → List Tick → Type 0
ServedBy processing events messages ticks =
    ((processing ≡ true) × (hung events ≡ true))
    ⊎ ((processing ≡ false) × ((is_empty messages ≡ true) ⊎ (has_process ticks ≡ true)))

unfoldable pub Served : Bridge → Type 0
Served b = ServedBy b.is_processing b.events b.messages b.ticks

if-Served :
    (c : Bool) (x y : Bridge)
    → (c ≡ true → Served x)
    → (c ≡ false → Served y)
    → Served (if c then x else y)
if-Served true x y h k = h refl
if-Served false x y h k = k refl

has_process-append : (ts : List Tick) → has_process (ts ++ process ∷ []) ≡ true
has_process-append [] = refl
has_process-append (process ∷ ts) = refl
has_process-append (poll ∷ ts) = has_process-append ts

hung-append : (es : List Event) → hung (es ++ hangs ∷ []) ≡ true
hung-append [] = refl
hung-append (hangs ∷ es) = refl
hung-append (e ∷ es) = hung-append es

finish-Served : (b : Bridge) → Served (finish b)
unfolding finish Served
finish-Served b = elim (Bool-cases (is_empty b.messages)) [
  | inl e ↦ inr (refl, inl e)
  | inr e ↦ inr (refl, inr (rw e (has_process-append b.ticks)))
]

settle-Served :
    (w : Native) (e : Event) (es : List Event) (b : Bridge)
    → b.is_processing ≡ true
    → b.events ≡ es ++ e ∷ []
    → Served (settle w e b)
unfolding settle Served
settle-Served w hangs es b p h = inl (p, rw h (hung-append es))
settle-Served w e es b p h = finish-Served (w.react e b)

handle-Served :
    (w : Native) (message : Str) (b : Bridge) → b.is_processing ≡ true → Served (handle w message b)
unfolding handle
handle-Served w message b p =
    if-Served (str_eq message (b'*' ∷ []) && is_empty b.messages) _ _
      (λ _. finish-Served (record b { ticks = b.ticks ++ poll ∷ [] }))
      (λ _.
        settle-Served w (process_message w.codec message) b.events
          (record b { events = b.events ++ process_message w.codec message ∷ [] }) p refl)

process_queue-Served :
    (w : Native) (queue : List Str) (b : Bridge)
    → b.is_processing ≡ false
    → b.messages ≡ queue
    → Served (process_queue w queue b)
unfolding process_queue
process_queue-Served w [] b p h = unfold Served in inr (p, inl (rw h refl))
process_queue-Served w (batch ∷ queue) b p h = handle-Served w (pop_from batch queue).0 _ refl

-- What holds before messages are handled.
abbrev Ready : Bridge → Type 0
Ready b = ((b.is_processing ≡ true) × (hung b.events ≡ true)) ⊎ (b.is_processing ≡ false)

Served-Ready : (b : Bridge) → Served b → Ready b
unfolding Served
Served-Ready b (inl h) = inl h
Served-Ready b (inr h) = inr h.0

process_messages-Served : (w : Native) (b : Bridge) → Ready b → Served (process_messages w b)
unfolding process_messages
process_messages-Served w b (inl h) =
    if-Served b.is_processing _ _ (λ _. unfold Served in inl h) (λ e. absurd (cc))
process_messages-Served w b (inr h) =
    if-Served b.is_processing _ _ (λ e. absurd (cc))
      (λ _. process_queue-Served w b.messages b h refl)

pushed-Served :
    (w : Native) (msgs : Str) (b : Bridge)
    → Ready b
    → Served (process_messages w (push_messages msgs b))
unfolding push_messages
pushed-Served w msgs b h = process_messages-Served w _ h

poll_with-Served :
    (w : Native) (secret : Option ℕ) (online : Bool) (b : Bridge)
    → Served b
    → Served (poll_with w secret online b)
unfolding poll_with
poll_with-Served w none online b h = h
poll_with-Served w (some secret) online b h =
    if-Served (is_empty (w.reply (retrieve b.prefers_prompt online))) _ _ (λ _. unfold Served in h)
      (λ _. pushed-Served w _ _ (Served-Ready b h))

pub poll_once-Served :
    (w : Native) (online : Bool) (b : Bridge) → Served b → Served (poll_once w online b)
unfolding poll_once
poll_once-Served w online b h = poll_with-Served w b.bridge_secret online b h

run_tick-Served :
    (w : Native) (ts : List Tick) (b : Bridge) → b.ticks ≡ ts → Served b → Served (run_tick w ts b)
unfolding run_tick
run_tick-Served w [] b e h = h
run_tick-Served w (process ∷ ts) b e h = process_messages-Served w _ (Served-Ready b h)
run_tick-Served w (poll ∷ ts) b e h =
    poll_once-Served w false (record b { ticks = ts }) (unfold Served in rw e at h)

polling_timer-Served : (w : Native) (b : Bridge) → Served b → Served (polling_timer w b)
unfolding polling_timer
polling_timer-Served w b h =
    if-Served b.poll_enabled _ _ (λ _. unfold Served in poll_once-Served w false b h) (λ _. h)

queued-Served :
    (msgs : Str) (b : Bridge)
    → Served b
    → Served (record b { messages = b.messages ++ msgs ∷ []; ticks = b.ticks ++ process ∷ [] })
unfolding Served
queued-Served msgs b (inl h) = inl h
queued-Served msgs b (inr h) = inr (h.0, inr (has_process-append b.ticks))

queue_messages-Served : (msgs : Str) (b : Bridge) → Served b → Served (queue_messages msgs b)
unfolding queue_messages
queue_messages-Served msgs b h =
    if-Served (is_empty msgs) _ _ (λ _. h) (λ _. queued-Served msgs b h)

sent-Served : (w : Native) (r : Request) (b : Bridge) → Served b → Served (send_request w r b).1
unfolding send_request Served
sent-Served w r b h = h

set_js_mode-Served : (w : Native) (m : JsMode) (b : Bridge) → Served b → Served (set_js_mode w m b)
unfolding set_js_mode Served
set_js_mode-Served w m b h = h

exec_by_prompt-Served :
    (w : Native) (r : Request) (b : Bridge) → Served b → Served (exec_by_prompt w r b)
unfolding exec_by_prompt
exec_by_prompt-Served w r b h = queue_messages-Served _ _ (sent-Served w r b h)

exec_in_mode-Served :
    (w : Native) (r : Request) (b : Bridge) → Served b → Served (exec_in_mode w r b)
unfolding exec_in_mode
exec_in_mode-Served w r b h =
    let h' = sent-Served w r b h in
    let (msgs, b') = send_request w r b in
    if-Served (is_object_mode b'.js_mode && str_eq msgs (js "@Null arguments.")) _
      (queue_messages msgs b')
      (λ _.
        set_js_mode-Served w js_object _
          (exec_by_prompt-Served w r _ (set_js_mode-Served w prompt _ h')))
      (λ _. queue_messages-Served msgs b' h')

mode_set-Served : (w : Native) (m : Option JsMode) (b : Bridge) → Served b → Served (mode_set w m b)
unfolding mode_set
mode_set-Served w none b h = set_js_mode-Served w js_object b h
mode_set-Served w (some m) b h = h

exec_with-Served :
    (w : Native) (secret : Option ℕ) (r : Request) (b b' : Bridge)
    → exec_with w secret r b ≡ some b'
    → Served b
    → Served b'
unfolding exec_with
exec_with-Served w none r b b' e h = cc
exec_with-Served w (some secret) r b b' e h =
    let q : exec_in_mode w r (mode_set w b.js_mode b) ≡ b' = cc in
    rw (← q) (exec_in_mode-Served w r _ (mode_set-Served w b.js_mode b h))

other_fields-Served :
    (m : NativeMode) (enabled : Bool) (calls : List Call) (timers : ℕ) (b : Bridge)
    → Served b
    → Served (record b { native_mode = m; poll_enabled = enabled; calls = calls; timers = timers })
unfolding Served
other_fields-Served m enabled calls timers b h = h

set_native_mode-Served : (m : NativeMode) (b : Bridge) → Served b → Served (set_native_mode m b)
unfolding set_native_mode
set_native_mode-Served m b h =
    if-Served (same_mode m b.native_mode) _ _ (λ _. h) (λ _. other_fields-Served m _ _ _ b h)

-- What happens to the module: requests, polls, turns of the event loop, timers, changes of the
-- modes, and the start.
pub data Step (w : Native) : Bridge → Bridge → Type 0 where
  requested : (r : Request) → (b : Bridge) → (b' : Bridge) → exec w r b ≡ some b' → Step w b b'
  polled : (online : Bool) → (b : Bridge) → Step w b (poll_once w online b)
  ticked : (b : Bridge) → Step w b (next_tick w b)
  timed : (b : Bridge) → Step w b (polling_timer w b)
  js_mode_set : (m : JsMode) → (b : Bridge) → Step w b (set_js_mode w m b)
  native_mode_set : (m : NativeMode) → (b : Bridge) → Step w b (set_native_mode m b)
  started : (secret : Option ℕ) → (b : Bridge) → Step w b (init secret b)

pub data Runs (w : Native) : Bridge → Bridge → Type 0 where
  done : (b : Bridge) → Runs w b b
  next : (a : Bridge) → (b : Bridge) → (c : Bridge) → Step w a b → Runs w b c → Runs w a c

step-Served : (w : Native) (b b' : Bridge) → Step w b b' → Served b → Served b'
step-Served w b b' (requested r _ _ e) h =
    unfold exec in exec_with-Served w b.bridge_secret r b b' e h
step-Served w b _ (polled online _) h = poll_once-Served w online b h
step-Served w b _ (ticked _) h = unfold next_tick in run_tick-Served w b.ticks b refl h
step-Served w b _ (timed _) h = polling_timer-Served w b h
step-Served w b _ (js_mode_set m _) h = set_js_mode-Served w m b h
step-Served w b _ (native_mode_set m _) h = set_native_mode-Served m b h
step-Served w b _ (started secret _) h = unfold init Served in h

-- However native code answers and whatever callbacks do to the module, after any sequence of
-- requests, polls, turns of the event loop, timers and changes of mode no message is left lying:
-- where the queue of messages is not empty, a call of `processMessages` waits in the event loop,
-- unless the handling of an earlier message has run into an endless loop.
pub Runs-Served : (w : Native) (b b' : Bridge) → Runs w b b' → Served b → Served b'
Runs-Served w b _ (done _) h = h
Runs-Served w a c (next _ b _ s rest) h = Runs-Served w b c rest (step-Served w a b s h)
