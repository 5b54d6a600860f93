-- ===== src/Tests/ExecTests.antt =====
-- The transport under the page's half of the bridge, run.
use node_apphost.Base.{Str, js, true, false, [], ◌∷◌, none, some, ◌≡◌, refl, inl, inr, arith}
use node_apphost.Exec.Payload.{text, Codec, answered, process_message, evaluated}
use node_apphost.Exec.Bridge.{
  js_object, online_event, Call, execute, Bridge, Native, Request, next_tick, poll_once,
}
use node_apphost.Exec.Wire.{batch}
use node_apphost.Exec.Wire.Answers.{answer_text, process_message-answer}
use node_apphost.Exec.Batches.{due, turns, messages_in_order}
use node_apphost.Exec.Queue.{Served, done, next, polled, ticked, Runs-Served}

abbrev codec : Codec
codec = record { is_json = λ s. true; is_base64 = λ s. true }

-- Native code that refuses what the object passes, and has one message to fetch.
abbrev answers : Call → Str
unfolding js
answers (execute false service action id args) = js "@Null arguments."
answers (execute true service action id args) = []
answers _ = js "2 Jx"

abbrev native : Native
native = record { codec = codec; has_object = true; reply = answers; react = λ e b. b }

abbrev bridge : Bridge
bridge = record {
  bridge_secret = some 7;
  js_mode = some js_object;
  prefers_prompt = false;
  native_mode = online_event;
  poll_enabled = false;
  messages = [];
  is_processing = false;
  callbacks = [];
  callback_id = 4;
  ticks = [];
  timers = 0;
  calls = [];
  events = [];
}

abbrev request : Request
request = record {
  callbacks = record { success = some 1; fail = none };
  service = js "JXcore";
  action = js "isReady";
  args_json = js "[]";
}

process_message-answer_example :
    process_message codec (answer_text true false 1 (js "JXcore4") (text (js "x y") ∷ []))
    ≡ answered (record {
      callback_id = js "JXcore4";
      success = true;
      status = some 1;
      payload = text (js "x y") ∷ [];
      keep_callback = false;
    })
unfolding js
process_message-answer_example =
    process_message-answer codec true false 1 (js "JXcore4") (text (js "x y") ∷ []) (omega arith)
      (tt, tt)

messages_in_order_example :
    turns 2 native (due bridge (batch (js "Ja" ∷ js "Jb" ∷ []) [] ∷ []) [])
    ≡ due bridge [] (evaluated (js "a") ∷ evaluated (js "b") ∷ [])
unfolding js process_message
messages_in_order_example =
    messages_in_order native bridge (js "Ja") (js "Jb" ∷ []) (λ e b. refl)
      (((λ e. ground arith), λ e. ground arith), (((λ e. ground arith), λ e. ground arith), tt))

Runs-Served_example : Served (next_tick native (poll_once native true bridge))
unfolding Served
Runs-Served_example =
    Runs-Served native bridge _ (next _ _ _ (polled true bridge) (next _ _ _ (ticked _) (done _)))
      (inr (refl, inl refl))
