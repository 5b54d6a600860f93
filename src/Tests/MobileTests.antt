-- ===== src/Tests/MobileTests.antt =====
-- The device's half of the bridge, run.
use node_apphost.Base.{
  ℕ, List, js, str_eq, arith, true, [], ◌∷◌, ◌++◌, none, some, if◌then◌else◌, ◌==◌, ◌%◌, ◌+◌, ◌≡◌,
  refl,
}
use node_apphost.Base.Dict.{lookup, insert, remove}
use node_apphost.Base.Decimal.{decimal}
use node_apphost.Mobile.{
  Value, undefined, null, text, function, user, Mobile, Err, ok, throw, callback, return_callback,
  Engine, ◌>>◌,
}
use node_apphost.Mobile.Events.{call_native, callback_name, apply, ping, items, split_callback}
use node_apphost.Mobile.Events.Callbacks.{sending, ping-call_native}
use node_apphost.Mobile.Methods.{is_inherited, reference, call}
use node_apphost.Mobile.Execute.{execute_json, internal_method, is_return}
use node_apphost.Mobile.Execute.Failures.{reported}
use node_apphost.Mobile.Execute.Thrown.{IsTidy, ThrowsObjects, execute_json-ok}

-- Function 0 answers "hi", every other one throws.
abbrev boom : Err
boom = record { takes_stack = true; message = text (98 ∷ []); stack = [] }

abbrev g : Engine
g = record {
  is_android = true;
  invoke = λ n args s. if n == 0 then ok (text (104 ∷ 105 ∷ [])) s else throw boom s;
  require = λ f s. ok tt s;
  json_parse = λ s. none;
  parse_error = undefined;
  stringify = λ s. s;
  value_text = λ v. [];
  in_cwd = λ f. f;
  type_error = boom;
  error_stack = λ m. m;
  captured_stack = λ e. e.stack;
}

-- The module's variables when it has been loaded.
abbrev fresh : Mobile
fresh = record {
  events = [];
  event_id = 0;
  jx_methods = [];
  ui_methods = [];
  return_reference_counter = 0;
  sent = [];
  warned = [];
  native_events = [];
}

-- The user interface has registered its method.
abbrev loaded : Mobile
loaded = record fresh { ui_methods = (js "callLocalMethods", callback (function (user 0))) ∷ [] }

ping-call_native_example :
    let s' = sending (js "a") ([], some (user 0)) fresh in
    (call_native (js "a") ([] ++ function (user 0) ∷ []) fresh ≡ ok tt s')
    × (ping g (callback_name 0) (items []) s'
        ≡ apply g (user 0) [] (record s' { events = remove (callback_name 0) s'.events }))
ping-call_native_example = ping-call_native g (js "a") [] [] (user 0) fresh

invoked-IsTidy : (n : ℕ) (args : List Value) → IsTidy (g.invoke n args)
invoked-IsTidy n args s = ground arith

g-ThrowsObjects : ThrowsObjects g
g-ThrowsObjects = record { invoked = invoked-IsTidy; required = λ f s. tt; type_errors = refl }

execute_json-ok_example :
    (v : Value) × (s' : Mobile) × (execute_json g
        (record { method_name = js "m"; params = none })
        null
        fresh
      ≡ ok v s')
execute_json-ok_example =
    execute_json-ok g (record { method_name = js "m"; params = none }) null fresh g-ThrowsObjects

abbrev called_state : Mobile
called_state = record loaded {
  return_reference_counter = (0 + 1) % 9999;
  ui_methods = insert (reference 0 (js "m")) (return_callback (user 1)) loaded.ui_methods;
}

-- An answer to a call comes back to its callback, and only once: here the callback throws, so that
-- the error is reported and the entry stays.
answered_call :
    (call g (js "m") (null ∷ function (user 1) ∷ [])
        >> execute_json g (record { method_name = js "RC-0m"; params = some [] }) null)
      loaded
    ≡ ok undefined (reported g boom called_state)
unfolding js call execute_json lookup insert str_eq reference decimal internal_method is_inherited
    is_return split_callback apply
answered_call = refl
