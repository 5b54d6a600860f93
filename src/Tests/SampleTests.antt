-- ===== src/Tests/SampleTests.antt =====
-- The sample application and the page's calls of it, run.
use node_apphost.Base.{Str, js, str_eq, true, false, List, [], ◌∷◌, ◌++◌, none, some, ◌≡◌, refl}
use node_apphost.Base.Dict.{lookup, insert}
use node_apphost.Mobile.{
  Value, undefined, null, num, text, array, function, user, answer, nil, cons, Mobile, Err, ok,
  callback, Engine,
}
use node_apphost.Mobile.Methods.{is_inherited}
use node_apphost.Mobile.Events.{apply}
use node_apphost.Mobile.Execute.{internal_method}
use node_apphost.Ui.{Page, Web, page, invoked, call}
use node_apphost.Ui.Calls.{evaluate}
use node_apphost.Glue.{Glue, Carrier, execute, run_script, deliver, evaluated}
use node_apphost.Glue.Reported.{async_return-reported}
use node_apphost.Glue.Answered.{json_of, answer_message, call_script, called, call-answered}
use node_apphost.Sample.{Timer, Node, with_sample, sample_engine, timer_fires, load}
use node_apphost.Sample.Pong.{loaded, load_lem}
use node_apphost.Sample.Answers.{pong, timer_of, async_ping-answered}

abbrev boom : Err
boom = record { takes_stack = true; message = text (js "b"); stack = [] }

abbrev engine : Engine
engine = record {
  is_android = true;
  invoke = λ n args s. ok undefined s;
  require = λ f s. ok tt s;
  json_parse = λ s. none;
  parse_error = undefined;
  stringify = λ s. s;
  value_text = λ v. [];
  in_cwd = λ f. f;
  type_error = boom;
  error_stack = λ m. m;
  captured_stack = λ e. e.stack;
}

-- What `setTimeout` is given.
abbrev note : Timer → Mobile → Mobile
note t s = record s { sent = s.sent ++ (t.message ∷ t.callback ∷ num t.milliseconds ∷ []) ∷ [] }

-- A buffer is seen by its length and its byte.
abbrev node : Node
node = record {
  engine = engine;
  filled_buffer = λ n b. array (cons (num n) (cons (num b) nil));
  set_timeout = λ t s. ok tt (note t s);
  read_user_path = λ s. ok tt s;
}

abbrev web : Web
web = record { is_android = true; stringify = λ name params. name; parse_text = λ vs. none }

abbrev text_of : Value → Str
text_of (text s) = s
text_of _ = []

abbrev carrier : Str → List Value → Str → Carrier
carrier name ps id = record {
  to_text = text_of;
  carry = λ vs. vs;
  read = λ s. some (json_of name ps, id);
}

abbrev blank : Page
blank = record { initialized = true; local_methods = []; requests = []; timers = []; effects = [] }

abbrev glue : Glue
glue = record { callbacks = []; posted = []; initialized = true }

-- The page has registered its function for local methods under the id `J1`.
abbrev device : Mobile
device = record {
  events = [];
  event_id = 0;
  jx_methods = [];
  ui_methods = (js "callLocalMethods", callback (function (answer (text (js "J1"))))) ∷ [];
  return_reference_counter = 0;
  sent = [];
  warned = [];
  native_events = [];
}

sample_loads : load node device ≡ ok tt (loaded (js "J1") device)
unfolding js lookup str_eq
sample_loads = load_lem node (js "J1") device refl refl (λ s. refl) (λ t. refl)

abbrev running : Mobile
running = loaded (js "J1") device

async_ping-answered_example :
    let g = sample_engine node in
    let c = carrier (js "asyncPing") (text (js "x") ∷ []) (js "J2") in
    (run_script g c (call_script web (js "asyncPing") (text (js "x") ∷ []) (js "J2")) running
      ≡ ok undefined (note (timer_of (js "x") (js "J2")) running))
    × (timer_fires g (timer_of (js "x") (js "J2")) device
        ≡ ok undefined (record device { sent = answer_message (js "J2") (pong (js "x")) ∷ [] }))
    × (deliver c web
          (called web (js "asyncPing") (text (js "x") ∷ []) (js "J2") 7 glue)
          (answer_message (js "J2") (pong (js "x")))
          blank
        ≡ some (record blank { effects = invoked 7 (pong (js "x")) ∷ [] }))
unfolding js lookup str_eq insert
async_ping-answered_example =
    async_ping-answered node (carrier (js "asyncPing") (text (js "x") ∷ []) (js "J2")) web (js "x")
      b'J' (js "2") 7 glue blank running (note (timer_of (js "x") (js "J2")) running) device
      (record { texts = λ s. refl; reads = refl; android = refl }) refl refl refl

call-answered_example :
    let g = sample_engine node in
    let c = carrier (js "getBuffer") [] (js "J3") in
    let buffer = node.filled_buffer 25000 45 in
    let request = evaluate web (js "getBuffer") [] (some (page 8)) in
    let gl' = called web (js "getBuffer") [] (js "J3") 8 glue in
    let message = answer_message (js "J3") (buffer ∷ []) in
    (call web (js "getBuffer") (function (user 8) ∷ []) blank
      ≡ record blank { requests = request ∷ [] })
    × (execute c (js "J3") request glue ≡ (gl', none))
    × (run_script g c (call_script web (js "getBuffer") [] (js "J3")) running
        ≡ ok undefined (record running { sent = (running.sent) ++ message ∷ [] }))
    × (deliver c web gl' message blank
        ≡ some (record blank { effects = invoked 8 (buffer ∷ []) ∷ [] }))
unfolding js lookup str_eq insert internal_method is_inherited apply with_sample
call-answered_example =
    call-answered (sample_engine node) (carrier (js "getBuffer") [] (js "J3")) web (js "getBuffer")
      (user 0) [] b'J' (js "3") 8 (node.filled_buffer 25000 45) (node.filled_buffer 25000 45) glue
      blank blank running running (record { texts = λ s. refl; reads = refl; android = refl }) refl
      refl refl refl refl

-- The method returns the number 5 and answers nothing.
abbrev numbering : Engine
numbering = record engine { invoke = λ n args s. ok (num 5) s }

abbrev counting : Mobile
counting = record device {
  jx_methods = (js "count", record { is_synced = false; method = function (user 9) }) ∷ [];
}

async_return-reported_example :
    let c = carrier (js "count") [] (js "J4") in
    (run_script numbering c (call_script web (js "count") [] (js "J4")) counting
      ≡ ok (num 5) counting)
    × (evaluated c web (called web (js "count") [] (js "J4") 8 glue) (js "J4") (num 5) blank
        ≡ some (record blank { effects = invoked 8 (null ∷ text (c.to_text (num 5)) ∷ []) ∷ [] }))
unfolding js lookup str_eq internal_method is_inherited apply
async_return-reported_example =
    async_return-reported numbering (carrier (js "count") [] (js "J4")) web (js "count") (user 9) []
      b'J' (js "4") 8 (num 5) glue blank counting counting
      (record { texts = λ s. refl; reads = refl; android = refl }) refl refl refl refl tt
