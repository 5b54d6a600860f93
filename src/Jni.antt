-- ===== src/Jni.antt =====
-- samples/android/JNI_JXCORE/jni/jxcore.cpp: between the values of Java and those of JavaScript, and
-- the values that wait for Java under a number. Texts are the bytes that JNI gives.
pub mod Store
pub mod Elements
pub mod Reported
pub mod Passed
pub mod Getters
pub mod Evaluated
use node_apphost.Base.{
  ℕ, suc, ◌+◌, ◌%◌, Str, js, Bool, true, false, List, [], ◌∷◌, ◌++◌, Option, none, some,
  if◌then◌else◌, ◌==◌, ◌&&◌, not, ltb, length, take,
}
use node_apphost.Base.Options.{◌>>=◌}
use node_apphost.Wrapper.{
  Js, js_null, js_undefined, js_boolean, js_int32, js_double, js_buffer, js_string, js_function,
  js_object, js_other, Tag, rt_int32, rt_double, rt_boolean, rt_string, rt_object, rt_buffer,
  rt_undefined, rt_null, rt_error, rt_function, Wrap, value_wrap, function_wrap, JsValue, Engine,
  new_value, set_int32, set_double, set_boolean, set_text, set_buffer, set_null,
}
use node_apphost.Wrapper.Copies.{c_string}
use node_apphost.Wrapper.Getters.{is_void}
use node_apphost.Wrapper.Calls.{call_native_function}
use node_apphost.Wrapper.Objects.{Heap, create_object, set_named_property, set_indexed_property}

-- `store_map` and `store_counter`.
pub record Stored : Type 0 where
  pub counter : ℕ
  pub values : List (ℕ × JsValue)

unfoldable pub find : ℕ → List (ℕ × JsValue) → Option JsValue
find id [] = none
find id ((n, v) ∷ vs) = let rest = find id vs in if n == id then some v else rest

unfoldable pub erase : ℕ → List (ℕ × JsValue) → List (ℕ × JsValue)
erase id [] = []
erase id ((n, v) ∷ vs) = let rest = erase id vs in if n == id then rest else (n, v) ∷ rest

-- `JS_StoreValue`, for a value that is neither undefined nor null: for these `JS_MakePersistent` fails, and
-- `store_result` passes none. INT_MAX - 1 is 2147483646.
unfoldable pub store_value : JsValue → Stored → ℕ × Stored
unfolding erase
store_value v s = (
  s.counter,
  record {
    counter = suc s.counter % 2147483646;
    values = (s.counter, record v { persistent = true }) ∷ erase s.counter s.values;
  },
)

pub released : Option JsValue → Option JsValue
released none = none
released (some v) = some (record v { persistent = false })

-- `JS_RemoveStoredValue`.
unfoldable pub remove_stored : ℕ → Stored → Option JsValue × Stored
unfolding find erase released
remove_stored id s = (released (find id s.values), record s { values = erase id s.values })

pub tag_of : Option JsValue → Option Tag
tag_of none = none
tag_of (some v) = some v.tag

-- `JS_GetStoredValueType`; `none` is -1.
unfoldable pub stored_type : ℕ → Stored → Option Tag
unfolding find tag_of
stored_type id s = tag_of (find id s.values)

stored_id : ℕ × Stored → Option ℕ × Stored
stored_id (id, s) = (some id, s)

-- The end of `callCBString`, `callCBArray` and `evalEngine`: null and undefined are answered by -1, here
-- `none`, and every other value is stored.
unfoldable pub store_result : JsValue → Stored → Option ℕ × Stored
unfolding store_value is_void stored_id
store_result v s = if is_void v.tag then (none, s) else stored_id (store_value v s)

-- An object of Java, as the two loops tell them apart; `j_json` is an array of one text.
pub data JObject : Type 0 where
  j_null j_other : JObject
  j_boolean : Bool → JObject
  j_int j_double : ℕ → JObject
  j_string j_bytes j_json : Str → JObject

-- An element in the loop of `callCBArray`: what is set on a new value. `beyond` is what stands in memory
-- behind the bytes of an array, up to a byte 0.
unfoldable pub element_of : (Str → Str) → JObject → Option JsValue
unfolding set_int32 set_double set_boolean set_text set_buffer set_null new_value c_string
element_of beyond j_null = some (set_null new_value)
element_of beyond j_other = some new_value
element_of beyond (j_boolean b) = set_boolean b new_value
element_of beyond (j_int n) = set_int32 n new_value
element_of beyond (j_double n) = set_double n new_value
element_of beyond (j_string s) = set_text rt_string s (length s) new_value
element_of beyond (j_bytes s) = set_buffer (c_string (s ++ beyond s)) (length s) new_value
element_of beyond (j_json s) = some new_value

add_element : JsValue → ℕ → Option JsValue → Heap → Option Heap
add_element o i none h = none
add_element o i (some v) h = set_indexed_property o i v h

-- The loop, from the index `i` on.
unfoldable pub add_elements : (Str → Str) → JsValue → ℕ → List JObject → Heap → Option Heap
unfolding add_element element_of
add_elements beyond o i [] h = some h
add_elements beyond o i (e ∷ es) h =
    add_element o i (element_of beyond e) h >>= add_elements beyond o (suc i) es

-- What a call of the event callback leaves.
abbrev pub Called : Type 0
Called = Option (Option ℕ × Stored)

answered : Stored → Option (Bool × JsValue) → Called
unfolding store_result
answered s none = none
answered s (some (done, out)) = some (store_result out s)

-- `JS_CallFunction(&eventCB, args, 2, &out)` and the answer to Java. `out` comes with no value.
call_with : Engine → JsValue → JsValue → Stored → Option JsValue → Called
unfolding answered call_native_function new_value
call_with g callback o s none = none
call_with g callback o s (some name) =
    answered s (call_native_function g callback (name ∷ o ∷ []) new_value)

pub with_heap :
    Engine → JsValue → Str → JsValue → Stored → Option Heap → Option (Option ℕ × Stored × Heap)
unfolding call_with set_text new_value
with_heap g callback event o s none = none
with_heap g callback event o s (some h) =
    elim (call_with g callback o s (set_text rt_string event 0 new_value)) [
      | none ↦ none
      | some (id, s') ↦ some (id, s', h)
    ]

call_array_of :
    Engine
    → (Str → Str)
    → JsValue
    → Str
    → List JObject
    → Stored
    → Heap
    → Option (Option ℕ × Stored × Heap)
unfolding with_heap add_elements create_object
call_array_of g beyond callback event args s h =
    let (o, h') = create_object h in
    with_heap g callback event o s (add_elements beyond o 0 args h')

-- `callCBArray`. Before an event callback is defined, it answers 0.
unfoldable pub call_array :
    Engine
    → (Str → Str)
    → Option JsValue
    → Str
    → List JObject
    → Stored
    → Heap
    → Option (Option ℕ × Stored × Heap)
unfolding call_array_of
call_array g beyond none event args s h = some (some 0, s, h)
call_array g beyond (some callback) event args s h = call_array_of g beyond callback event args s h

put_text : JsValue → Str → Option JsValue → Heap → Option Heap
unfolding set_named_property
put_text o key none h = none
put_text o key (some v) h = set_named_property o key v h

call_string_of :
    Engine → JsValue → Str → Str → Bool → Stored → Heap → Option (Option ℕ × Stored × Heap)
unfolding with_heap put_text set_text new_value create_object
call_string_of g callback event param json s h =
    let (o, h') = create_object h in
    let key = if json then js "json" else js "str" in
    with_heap g callback event o s (put_text o key (set_text rt_string param 0 new_value) h')

-- `callCBString`, with `json` for the test `json != 1`.
unfoldable pub call_string :
    Engine → Option JsValue → Str → Str → Bool → Stored → Heap → Option (Option ℕ × Stored × Heap)
unfolding call_string_of
call_string g none event param json s h = some (some 0, s, h)
call_string g (some callback) event param json s h = call_string_of g callback event param json s h

-- The texts that the engine makes of objects and of buffers.
pub record Texts : Type 0 where
  pub object_text : Js → Str
  pub buffer_text : Str → Str

first_is : ℕ → Str → Bool
first_is c [] = false
first_is c (d ∷ s) = d == c

-- A text that is no JSON object or array goes as a string.
text_object : Str → ℕ → JObject
unfolding first_is
text_object s size =
    if ltb 0 size && (not (first_is b'{' s) && not (first_is b'[' s)) then j_string s else j_json s

copied_bytes : Str → ℕ → Option JObject
copied_bytes s size = if ltb (length s) size then none else some (j_bytes (take size s))

java_of : Texts → Tag → Option Wrap → ℕ → Option JObject
unfolding text_object copied_bytes
java_of t rt_boolean (some (value_wrap (js_boolean b))) size = some (j_boolean b)
java_of t rt_int32 (some (value_wrap (js_int32 n))) size = some (j_int n)
java_of t rt_double (some (value_wrap (js_double n))) size = some (j_double n)
java_of t rt_buffer (some (value_wrap (js_buffer s))) size = copied_bytes (t.buffer_text s) size
java_of t rt_object (some (value_wrap v)) size = some (text_object (t.object_text v) size)
java_of t rt_string (some (value_wrap (js_string s))) size = some (j_string s)
java_of t rt_error (some (value_wrap v)) size = some (j_string (t.object_text v))
java_of t rt_undefined w size = some j_null
java_of t rt_null w size = some j_null
java_of t rt_function w size = some j_null
java_of t _ w size = none

-- A result in the loop of `callJXcoreNative`; `none` is a read beyond a text, or of a wrapper as
-- what it is not.
unfoldable pub to_java : Texts → JsValue → Option JObject
unfolding java_of
to_java t v = java_of t v.tag v.data_ v.size

unfoldable pub is_reported : Option Tag → Bool
is_reported (some rt_string) = true
is_reported (some rt_object) = true
is_reported (some rt_error) = true
is_reported _ = false

-- The end of `callJSMethod` of jxcore.java: the result is taken out of the map, to be printed, if its
-- type is 4, 5 or 9.
unfoldable pub report_result : Option ℕ → Stored → Stored
unfolding stored_type remove_stored is_reported
report_result none s = s
report_result (some id) s = if is_reported (stored_type id s) then (remove_stored id s).1 else s
