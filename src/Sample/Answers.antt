-- ===== src/Sample/Answers.antt =====
-- `asyncPing`, from the page's call to its answer.
use node_apphost.Base.{
  ℕ, Str, js, str_eq, false, List, [], ◌∷◌, ◌++◌, none, some, ◌≡◌, refl, is_empty,
}
use node_apphost.Base.Dict.{lookup, lookup-insert_self}
use node_apphost.Mobile.{
  Value, undefined, text, function, user, answer, nil, cons, Mobile, ok, ◌>>=◌, ◌>>◌,
}
use node_apphost.Mobile.Events.{apply, apply_value}
use node_apphost.Mobile.Methods.{is_inherited}
use node_apphost.Mobile.Execute.{internal_method, async_params}
use node_apphost.Mobile.Execute.Answers.{answered, answer_lem}
use node_apphost.Ui.{Page, Web, page, invoked}
use node_apphost.Glue.{Glue, Carrier, run_script, deliver}
use node_apphost.Glue.Answered.{
  Carries, answer_message, call_script, called, deliver_answer, execute_json-async,
}
use node_apphost.Sample.{Node, Timer, with_sample, sample_engine, async_ping, timer_fires}

abbrev pub pong : Str → List Value
pong m = text (js "Pong:" ++ m) ∷ []

-- The timer of a call: after half a second, with the text and the function that answers the call.
abbrev pub timer_of : Str → Str → Timer
timer_of m id = record {
  message = text m;
  callback = function (answer (text id));
  milliseconds = 500;
}

is_method : (internal_method (js "asyncPing") ≡ none) × (is_empty (js "asyncPing") ≡ false)
unfolding internal_method is_inherited js str_eq
is_method = (refl, refl)

-- The method hands its timer to `setTimeout`.
pings :
    (node : Node) (m : Str) (answering : Value) (s s' : Mobile)
    → node.set_timeout (async_ping (text m ∷ answering ∷ [])) s ≡ ok tt s'
    → apply (sample_engine node) (user 1) (async_params (some (text m ∷ [])) ++ answering ∷ []) s
      ≡ ok undefined s'
unfolding apply with_sample async_params async_ping
pings node m answering s s' h = rw (◌>>◌, ◌>>=◌, h) refl

fires :
    (node : Node) (m id : Str) (t : Mobile)
    → timer_fires (sample_engine node) (timer_of m id) t ≡ ok undefined (answered id (pong m) t)
unfolding timer_fires apply_value
fires node m id t = answer_lem (sample_engine node) id (pong m) t

-- On Android, where a text reads as itself and comes through JSON as itself, the engine reads the
-- script as the call, `asyncPing` is registered, and `setTimeout` takes its timer: a call of `asyncPing`
-- by the page hands one timer to `setTimeout`, with the text and the function that answers the call,
-- and the script returns with nothing else done; when that timer runs out, in whatever state, one message
-- is sent; and that message runs the page's callback once, with the text behind `Pong:`.
pub async_ping-answered :
    (node : Node) (c : Carrier) (w : Web) (m : Str) (d : ℕ) (id : Str) (n : ℕ) (gl : Glue)
    (q : Page) (s s' t : Mobile)
    → Carries c w (js "asyncPing") (text m ∷ []) (d ∷ id)
    → lookup (js "asyncPing") s.jx_methods
      ≡ some (record { is_synced = false; method = function (user 1) })
    → node.set_timeout (timer_of m (d ∷ id)) s ≡ ok tt s'
    → c.carry (cons (text (js "Pong:" ++ m)) nil) ≡ cons (text (js "Pong:" ++ m)) nil
    → let g = sample_engine node in
      (run_script g c (call_script w (js "asyncPing") (text m ∷ []) (d ∷ id)) s ≡ ok undefined s')
      × (timer_fires g (timer_of m (d ∷ id)) t
          ≡ ok undefined (record t { sent = t.sent ++ answer_message (d ∷ id) (pong m) ∷ [] }))
      × (deliver c w
            (called w (js "asyncPing") (text m ∷ []) (d ∷ id) n gl)
            (answer_message (d ∷ id) (pong m))
            q
          ≡ some (record q { effects = q.effects ++ invoked n (pong m) ∷ [] }))
unfolding run_script async_ping
async_ping-answered node c w m d id n gl q s s' t k found started carried = (
  rw (k.reads) (
      execute_json-async (sample_engine node) (js "asyncPing") (user 1) (text m ∷ []) d id s
        undefined s' is_method.1 is_method.0 found
        (pings node m (function (answer (text (d ∷ id)))) s s' started)),
  fires node m (d ∷ id) t,
  deliver_answer c w (called w (js "asyncPing") (text m ∷ []) (d ∷ id) n gl) (d ∷ id) n (pong m)
      (pong m) q k.android carried (lookup-insert_self (d ∷ id) (some (page n)) gl.callbacks),
)
