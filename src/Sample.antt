-- ===== src/Sample.antt =====
-- samples/android/assets/www/jxcore/app.js: the program that the sample application runs on the device.
pub mod Pong
pub mod Answers
use node_apphost.Base.{ℕ, zero, suc, Str, js, true, false, List, [], ◌∷◌, ◌++◌}
use node_apphost.Mobile.{
  Value, undefined, text, array, function, user, Mobile, Err, Res, ok, throw, M, ◌>>=◌, ◌>>◌, pure,
  fail, catch, Engine,
}
use node_apphost.Mobile.Events.{call_native, register_to_native, apply_value}
use node_apphost.Mobile.Methods.{call, register_sync, register_async}

-- The closure that `asyncPing` hands to `setTimeout`, with its two arguments.
pub record Timer : Type 0 where
  pub message : Value
  pub callback : Value
  pub milliseconds : ℕ

unfoldable pub async_ping : List Value → Timer
async_ping [] = record { message = undefined; callback = undefined; milliseconds = 500 }
async_ping (m ∷ []) = record { message = m; callback = undefined; milliseconds = 500 }
async_ping (m ∷ f ∷ _) = record { message = m; callback = f; milliseconds = 500 }

-- What the program uses of Node: a buffer of some length filled with a byte, `setTimeout`, which keeps
-- the timer, `fs.readdirSync` of the user's folder, and the engine for every function but the five of
-- this file.
pub record Node : Type 0 where
  pub engine : Engine
  pub filled_buffer : ℕ → ℕ → Value
  pub set_timeout : Timer → M (Unit {0})
  pub read_user_path : M (Unit {0})

-- The functions of this file, in its order: `getBuffer`, `asyncPing`, `fromJXcore`, and the callbacks
-- of `ScreenInfo` and `ScreenBrightness`, which print.
unfoldable pub with_sample : Node → ℕ → List Value → M Value
unfolding async_ping
with_sample node zero args = pure (node.filled_buffer 25000 45)
with_sample node (suc zero) args = node.set_timeout (async_ping args) >> pure undefined
with_sample node (suc (suc zero)) args = pure undefined
with_sample node (suc (suc (suc zero))) args = pure undefined
with_sample node (suc (suc (suc (suc zero)))) args = pure undefined
with_sample node (suc (suc (suc (suc (suc n))))) args = node.engine.invoke n args

abbrev pub sample_engine : Node → Engine
sample_engine node = record node.engine { invoke = with_sample node }

-- `"Pong:" + message`.
pong_text : Engine → Value → Str
pong_text g (text s) = js "Pong:" ++ s
pong_text g v = js "Pong:" ++ g.value_text v

-- The timer runs out.
unfoldable pub timer_fires : Engine → Timer → M Value
unfolding apply_value pong_text
timer_fires g t = apply_value g t.callback (text (pong_text g t.message) ∷ [])

-- The `try` around the use of `json-nice`; both of its branches print.
use_json_nice : Engine → M (Unit {0})
use_json_nice g = catch (g.require (js "json-nice")) (λ e. pure tt)

-- The file, from its first line to its last.
unfoldable pub load : Node → M (Unit {0})
unfolding use_json_nice
load node =
    let g = sample_engine node in
    do
      call g (js "log") (text (js "JXcore is up and running!") ∷ [])
      register_sync (js "getBuffer") (function (user 0))
      register_async (js "asyncPing") (function (user 1))
      use_json_nice g
      node.read_user_path
      register_to_native g (js "fromJXcore") (function (user 2))
      call_native (js "ScreenInfo") (function (user 3) ∷ [])
      call_native (js "ScreenBrightness") (function (user 4) ∷ [])
