-- ===== src/Tests/WrapperTests.antt =====
-- The values that native code exchanges with JavaScript, run.
use node_apphost.Base.{
  ℕ, zero, suc, js, List, [], ◌∷◌, Option, none, some, true, false, ◌≡◌, refl, arith, length,
}
use node_apphost.Base.Options.{◌>>=◌}
use node_apphost.Wrapper.{
  Js, js_int32, js_string, js_function, js_object, js_boolean, js_undefined, JsValue, Engine,
  rt_string, rt_object, value_wrap, is_object, rt_error, empty_value, new_value, convert, set_int32,
  set_boolean, set_text, set_undefined, set_null, Setter, to_int32, to_buffer, to_undefined,
  to_object, to_string, run_setter, run_setters,
}
use node_apphost.Wrapper.Calls.{call_native_function, returns, throws, result_of}
use node_apphost.Wrapper.Typed.{Makes, run_setters-Makes}
use node_apphost.Wrapper.Passed.{
  Passes, meant, converted, call_native_function-converted, run_setters-passed, result_of-set,
}

-- Function 1 answers its first argument, every other throws.
abbrev first_of : ℕ → List Js → Option Js
first_of (suc zero) (v ∷ vs) = some v
first_of _ _ = none

abbrev engine : Engine
engine = record {
  wrapper_size = 24;
  utf8_length = length;
  parse = λ s. js_object 0;
  invoke = first_of;
}

abbrev an_object : JsValue
an_object = record {
  persistent = false;
  data_ = some (value_wrap (js_object 5));
  size = 1;
  tag = rt_object;
}

abbrev some_setters : List Setter
some_setters = to_int32 3 ∷ to_undefined ∷ to_buffer (js "ab") 1 ∷ to_object an_object ∷ []

run_setters-Makes_example : Makes (run_setters engine some_setters new_value)
unfolding js new_value empty_value is_object
run_setters-Makes_example =
    run_setters-Makes engine some_setters new_value (tt, (tt, (refl, ((refl, tt), tt)))) (tt, tt)

run_setters-passed_example :
    Passes
      (meant engine (to_string (js "x") 1))
      (run_setters engine some_setters new_value >>= run_setter engine (to_string (js "x") 1))
unfolding js new_value empty_value is_object
run_setters-passed_example =
    run_setters-passed engine some_setters (to_string (js "x") 1) new_value
      (tt, (tt, (refl, ((refl, tt), tt)))) tt (tt, tt)

call_native_function-converted_example :
    call_native_function engine
      (convert engine (js_function 1)).1
      (converted engine (js_int32 7 ∷ js_object 2 ∷ []))
      new_value
    ≡ some (convert engine (js_int32 7))
call_native_function-converted_example =
    call_native_function-converted engine 1 (js_int32 7 ∷ js_object 2 ∷ []) new_value (tt, (tt, tt))

result_of-set_example :
    ((set_int32 4 (empty_value false) >>= result_of engine) ≡ some (returns (js_int32 4)))
    × ((set_boolean true (empty_value false) >>= result_of engine)
        ≡ some (returns (js_boolean true)))
    × ((set_text rt_string (js "no") 2 (empty_value false) >>= result_of engine)
        ≡ some (returns (js_string (js "no"))))
    × ((set_text rt_error (js "no") 2 (empty_value false) >>= result_of engine)
        ≡ some (throws (js_string (js "no"))))
    × (result_of engine (set_undefined (empty_value false)) ≡ some (returns js_undefined))
    × (result_of engine (set_null (empty_value false)) ≡ none)
result_of-set_example = result_of-set engine 4 true (js "no") 2 false (omega arith)
