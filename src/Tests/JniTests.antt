-- ===== src/Tests/JniTests.antt =====
-- Values between Java and JavaScript, run.
use node_apphost.Base.{
  ℕ, Str, js, List, [], ◌∷◌, none, some, true, false, ◌≡◌, refl, arith, get_elem?, length,
}
use node_apphost.Base.Dict.{lookup}
use node_apphost.Base.Decimal.{decimal}
use node_apphost.Wrapper.{
  js_int32, js_object, js_boolean, JsValue, Engine, convert, value_wrap, rt_object, rt_int32,
}
use node_apphost.Wrapper.Objects.{Heap}
use node_apphost.Jni.{
  Stored, find, JObject, j_null, j_int, j_bytes, j_string, call_array, report_result, store_value,
  remove_stored,
}
use node_apphost.Wrapper.Getters.{Reads, returned}
use node_apphost.Jni.Getters.{evaluate_posted}
use node_apphost.Jni.Evaluated.{report_of, SameValues, evaluate_posted_lem}
use node_apphost.Jni.Elements.{java_value}
use node_apphost.Jni.Passed.{callback_of, outcome, call_array_lem}
use node_apphost.Jni.Store.{StoreOp, stores, takes, run_store, store_value-remove_stored}
use node_apphost.Jni.Reported.{is_taken, report_result-left}

-- Every function answers true.
abbrev engine : Engine
engine = record {
  wrapper_size = 24;
  utf8_length = length;
  parse = λ s. js_object 0;
  invoke = λ f vs. some (js_boolean true);
}

abbrev heap : Heap
heap = record { next = 3; members = λ n. [] }

abbrev nothing_stored : Stored
nothing_stored = record { counter = 5; values = [] }

abbrev object_two : JsValue
object_two = record {
  persistent = false;
  data_ = some (value_wrap (js_object 2));
  size = 1;
  tag = rt_object;
}

abbrev seven : JsValue
seven = record {
  persistent = false;
  data_ = some (value_wrap (js_int32 7));
  size = 4;
  tag = rt_int32;
}

abbrev elements : List JObject
elements = j_int 4 ∷ j_null ∷ j_bytes (7 ∷ 8 ∷ []) ∷ j_string (js "a") ∷ []

abbrev beyond : Str → Str
beyond s = 9 ∷ []

call_array_lem_example :
    (h' : Heap) × ((i : ℕ) (e : JObject)
      → get_elem? elements i ≡ some e
      → lookup (decimal i) (h'.members 3) ≡ some (java_value e))
    × (call_array engine beyond (callback_of engine 1) (js "e") elements nothing_stored heap
        ≡ some (
          (outcome engine (some (js_boolean true)) nothing_stored).0,
          (outcome engine (some (js_boolean true)) nothing_stored).1,
          h',
        ))
call_array_lem_example =
    call_array_lem engine beyond 1 (js "e") elements nothing_stored heap
      (tt, (tt, (refl, (tt, tt))))

abbrev others : List StoreOp
others = stores object_two ∷ takes 6 ∷ stores seven ∷ []

store_value-remove_stored_example :
    let s' = run_store others (store_value seven nothing_stored).1 in
    ((remove_stored 5 s').0 ≡ some seven) × (find 5 (remove_stored 5 s').1.values ≡ none)
store_value-remove_stored_example =
    store_value-remove_stored seven others nothing_stored (omega arith) (omega arith, tt)

report_result-left_example :
    let s' =
      report_result
        (outcome engine (some (js_boolean true)) nothing_stored).0
        (outcome engine (some (js_boolean true)) nothing_stored).1 in
    (is_taken (js_boolean true) ≡ true → find 5 s'.values ≡ none)
    × (is_taken (js_boolean true) ≡ false
        → find 5 s'.values
          ≡ some (record (convert engine (js_boolean true)).1 { persistent = true }))
report_result-left_example = report_result-left engine (js_boolean true) nothing_stored refl

abbrev reads : Reads
reads = record {
  to_int32 = λ v. 0;
  to_double = λ v. 0;
  to_boolean = λ v. true;
  to_text = λ v. js "true";
  stringify = λ v. [];
  message_of = λ v. none;
}

evaluate_posted_lem_example :
    (s' : Stored) × (evaluate_posted engine reads (returned (js_boolean true)) nothing_stored
      ≡ some (report_of reads (returned (js_boolean true)), s'))
    × SameValues nothing_stored s'
unfolding find
evaluate_posted_lem_example =
    evaluate_posted_lem engine reads (returned (js_boolean true)) nothing_stored refl tt
