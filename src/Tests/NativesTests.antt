-- ===== src/Tests/NativesTests.antt =====
-- Native methods, run.
use node_apphost.Base.{
  ℕ, Option, Str, js, List, [], ◌∷◌, ◌++◌, none, some, true, ◌≡◌, refl, arith, length,
}
use node_apphost.Base.Options.{◌>>=◌}
use node_apphost.Wrapper.{Js, js_int32, js_object, set_int32}
use node_apphost.Wrapper.Natives.{
  Vm, Target, process_natives, host_object, Natives, no_natives, start_natives, call_method,
  Registration, register_natives,
}
use node_apphost.Wrapper.Natives.Named.{last_callback, on_process}
use node_apphost.Wrapper.Natives.Called.{answer_for, call_method-last}

abbrev uint : Js → Option ℕ
uint (js_int32 n) = some n
uint _ = none

-- Every callback sets its own number as the result.
abbrev vm : Vm
vm = record {
  engine = record {
    wrapper_size = 24;
    utf8_length = length;
    parse = λ s. js_object 0;
    invoke = λ f vs. none;
  };
  compiles = λ name. true;
  uint32 = uint;
  type_error = λ name. name ++ js " is not a function";
  run = λ callback args slot. set_int32 callback slot >>= λ r. some (args, r);
  other = λ t name args. none;
}

abbrev before : List (Str × ℕ)
before = (js "ping", 4) ∷ (js "log", 5) ∷ (js "ping", 6) ∷ []

abbrev later : List Registration
later =
    record { target = host_object 2; method = js "ping"; callback = 8 }
    ∷ record { target = process_natives; method = js "log"; callback = 9 }
    ∷ []

call_method-last_example :
    (n : Natives) × (((register_natives vm (on_process before) no_natives >>= start_natives vm)
        >>= register_natives vm later)
      ≡ some n)
    × ((t : Target) (name : Str) (args : List Js)
        → call_method vm t name args n
          ≡ answer_for vm t name args (last_callback t name none (on_process before ++ later)))
unfolding js
call_method-last_example =
    call_method-last vm before later (λ n h. refl)
      ((refl, omega arith), ((refl, omega arith), ((refl, omega arith), tt)))
      ((refl, omega arith), ((refl, omega arith), tt)) (omega arith)
