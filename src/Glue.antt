-- ===== src/Glue.antt =====
-- samples/android/src/io/jxcore/node/jxcore.java: what carries a request of the page to the device's
-- half, and an answer back. Its part of the class `jxcore` is the map `callbacks` and the scripts
-- that are posted to the engine's thread.
pub mod Answered
pub mod Reported
use node_apphost.Base.{
  ℕ, Str, js, str_eq, Bool, true, false, List, [], ◌∷◌, ◌++◌, Option, none, some, if◌then◌else◌,
}
use node_apphost.Base.Dict.{Dict, lookup, insert}
use node_apphost.Mobile.{
  Value, undefined, null, bool, num, text, array, object, function, Values, Mobile, M, pure, Engine,
}
use node_apphost.Mobile.Execute.{Json, execute_json}
use node_apphost.Ui.{Listener, Request, Page, Web, respond, respond_error}

pub record Glue : Type 0 where
  pub callbacks : Dict (Option Listener)
  pub posted : List Str
  pub initialized : Bool

-- What this class does not hold: the texts of values, the way of an array through JSON, and the
-- engine's reading of a script `Mobile.executeJSON({...}, 'id')`.
pub record Carrier : Type 0 where
  pub to_text : Value → Str
  pub carry : Values → Values
  pub read : Str → Option (Json × Str)

-- The script of an `Evaluate` request: `data.get(0).toString() + ", '" + id + "')"`.
unfoldable pub script_of : Carrier → List Value → Str → Option Str
script_of c [] id = none
script_of c (v ∷ args) id = some (c.to_text v ++ (js ", '" ++ (id ++ js "')")))

-- The result that the page is sent at once; `none` is `NO_RESULT`.
abbrev pub Sent : Type 0
Sent = Option (Value × Bool)

evaluate : Option Str → Str → Option Listener → Glue → Glue × Sent
evaluate none id listener gl = (gl, some (text [], true))
evaluate (some script) id listener gl = (
  record gl { callbacks = insert id listener gl.callbacks; posted = gl.posted ++ script ∷ [] },
  none,
)

-- `execute`; a pair's second part tells an error. The text of an exception is not modelled.
unfoldable pub execute : Carrier → Str → Request → Glue → Glue × Sent
unfolding evaluate script_of
execute c id request gl =
    if str_eq request.action (js "isReady")
    then (gl, some (bool gl.initialized, false))
    else (if str_eq request.action (js "Evaluate")
        then evaluate (script_of c request.args id) id request.listener gl
        else (gl, some (text (js "OK"), false)))

-- `evalEngine` of a posted script.
run_read : Engine → Option (Json × Str) → M Value
run_read g none = pure undefined
run_read g (some (json, id)) = execute_json g json (text id)

unfoldable pub run_script : Engine → Carrier → Str → M Value
unfolding run_read
run_script g c script = run_read g (c.read script)

-- The last parameter and those before it.
unfoldable pub pop_last : List Value → Option (List Value × Value)
pop_last [] = none
pop_last (v ∷ vs) = elim (pop_last vs) [
  | none ↦ some ([], v)
  | some (front, w) ↦ some (v ∷ front, w)
]

-- `CreateResult`: what the page is handed for a value. An array goes through JSON.
unfoldable pub create_result : Carrier → Value → Value
create_result c null = num 0
create_result c undefined = num 0
create_result c (array vs) = array (c.carry vs)
create_result c (num n) = num n
create_result c (bool b) = bool b
create_result c (text s) = text s
create_result c v = text (c.to_text v)

-- An answer: the id of the request, the value, and whether it is an error.
pub record Answer : Type 0 where
  pub id : Str
  pub value : Value
  pub is_error : Bool

-- `jx_callback`.
jx_callback : Carrier → Value → Value → Str → Answer
unfolding create_result
jx_callback c v null id = record { id = id; value = create_result c v; is_error = false }
jx_callback c v e id = record { id = id; value = text (c.to_text e); is_error = true }

-- The receiver of `"  _callback_  "`.
receiver : Carrier → List Value → Option Answer
unfolding jx_callback
receiver c (v ∷ e ∷ text id ∷ rest) = some (jx_callback c v e id)
receiver c params = none

received : Carrier → Str → Option (List Value × Value) → Option Answer
unfolding receiver
received c name (some (params, text call_id)) =
    if str_eq name (js "  _callback_  ") then receiver c params else none
received c name _ = none

-- `javaCall`, for the one receiver that answers the page.
unfoldable pub java_call : Carrier → List Value → Option Answer
unfolding received pop_last
java_call c (text name ∷ params) = received c name (pop_last params)
java_call c _ = none

-- `ctx.sendPluginResult(result)`; the entry stays in the map.
answer_to : Web → Answer → Option (Option Listener) → Page → Option Page
answer_to w a none p = some p
answer_to w a (some listener) p =
    if a.is_error then respond_error listener a.value p else respond w listener a.value p

unfoldable pub deliver : Carrier → Web → Glue → List Value → Page → Option Page
unfolding java_call answer_to
deliver c w gl message p = elim (java_call c message) [
  | none ↦ some p
  | some a ↦ answer_to w a (lookup a.id gl.callbacks) p
]

-- The end of `evalEngine` on the engine's thread: what a script returns, unless it is null or
-- undefined, is sent to the page as an error. `none` is a function: its text is read as that of a
-- value, which its wrapper does not hold.
unfoldable pub evaluated : Carrier → Web → Glue → Str → Value → Page → Option Page
unfolding answer_to
evaluated c w gl id null p = some p
evaluated c w gl id undefined p = some p
evaluated c w gl id (function f) p = none
evaluated c w gl id v p =
    answer_to w (record { id = id; value = text (c.to_text v); is_error = true })
      (lookup id gl.callbacks) p
