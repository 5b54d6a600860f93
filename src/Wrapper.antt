-- ===== src/Wrapper.antt =====
-- patch/node/node_wrapper.cc: the values that native code exchanges with JavaScript. `none` is a
-- failed assertion, or a read of a wrapper as what it is not. All values belong to one engine.
pub mod Calls
pub mod Typed
pub mod Passed
pub mod Objects
pub mod Natives
pub mod Getters
pub mod Copies
use node_apphost.Base.{
  ℕ, Str, js, Bool, true, false, not, List, [], ◌∷◌, Option, none, some, if◌then◌else◌, ◌==◌, ◌&&◌,
  ◌||◌, ltb, length, take,
}
use node_apphost.Base.Options.{◌>>=◌}

-- A value of V8. An object and a function have an identity, the numbers and `other` (a symbol) stand
-- for themselves.
pub data Js : Type 0 where
  js_null js_undefined : Js
  js_boolean : Bool → Js
  js_int32 js_double : ℕ → Js
  js_buffer js_string : Str → Js
  js_function js_object js_other : ℕ → Js

-- `_JSBaseType`.
pub data Tag : Type 0 where
  rt_int32 rt_double rt_boolean rt_string rt_object rt_buffer rt_undefined rt_null rt_error
        rt_function :
      Tag

-- What `data_` points to: `JSValueWrapper` or `JSFunctionWrapper`.
pub data Wrap : Type 0 where
  value_wrap : Js → Wrap
  function_wrap : ℕ → Wrap

-- `_JSValue`.
pub record JsValue : Type 0 where
  pub persistent : Bool
  pub data_ : Option Wrap
  pub size : ℕ
  pub tag : Tag

-- The engine and the compiler: `sizeof(JSFunctionWrapper)`, the length of a string in bytes,
-- `JS_Parse`, and a call of a function, which answers `none` when it throws.
pub record Engine : Type 0 where
  pub wrapper_size : ℕ
  pub utf8_length : Str → ℕ
  pub parse : Str → Js
  pub invoke : ℕ → List Js → Option Js

-- The macro `SET_UNDEFINED`.
unfoldable pub empty_value : Bool → JsValue
empty_value keep = record { persistent = keep; data_ = none; size = 0; tag = rt_undefined }

-- `JS_New`.
unfoldable pub new_value : JsValue
unfolding empty_value
new_value = empty_value false

wrap_value : Tag → ℕ → Js → JsValue
wrap_value tag size v = record {
  persistent = false;
  data_ = some (value_wrap v);
  size = size;
  tag = tag;
}

abbrev pub unsupported : Str
unsupported = js "Unsupported return type."

-- `ConvertToJSValue` for a result that was emptied; `false` for a value of no supported type.
unfoldable pub convert : Engine → Js → Bool × JsValue
unfolding empty_value wrap_value
convert g js_null = (true, record (empty_value false) { tag = rt_null })
convert g js_undefined = (true, empty_value false)
convert g (js_boolean b) = (true, wrap_value rt_boolean 1 (js_boolean b))
convert g (js_int32 n) = (true, wrap_value rt_int32 4 (js_int32 n))
convert g (js_double n) = (true, wrap_value rt_double 8 (js_double n))
convert g (js_buffer s) = (true, wrap_value rt_buffer (length s) (js_buffer s))
convert g (js_string s) = (true, wrap_value rt_string (g.utf8_length s) (js_string s))
convert g (js_function n) = (
  true,
  record {
    persistent = false;
    data_ = some (function_wrap n);
    size = g.wrapper_size;
    tag = rt_function;
  },
)
convert g (js_object n) = (true, wrap_value rt_object 1 (js_object n))
convert g (js_other n) =
    (false, wrap_value rt_error (g.utf8_length unsupported) (js_string unsupported))

-- A setter overwrites the value in the wrapper that is there, or in a new one.
set_wrap : Tag → ℕ → Js → Option Wrap → JsValue → Option JsValue
set_wrap tag size v (some (function_wrap _)) value = none
set_wrap tag size v _ value =
    some (record value { data_ = some (value_wrap v); size = size; tag = tag })

unfoldable pub set_as : Tag → ℕ → Js → JsValue → Option JsValue
unfolding set_wrap
set_as tag size v value = set_wrap tag size v value.data_ value

-- `JS_SetInt32`, `JS_SetDouble`, `JS_SetBoolean`.
unfoldable pub set_int32 : ℕ → JsValue → Option JsValue
unfolding set_as
set_int32 n = set_as rt_int32 4 (js_int32 n)

unfoldable pub set_double : ℕ → JsValue → Option JsValue
unfolding set_as
set_double n = set_as rt_double 8 (js_double n)

unfoldable pub set_boolean : Bool → JsValue → Option JsValue
unfolding set_as
set_boolean b = set_as rt_boolean 1 (js_boolean b)

-- `SetString`, for `JS_SetString` and `JS_SetError`: the size is the caller's.
unfoldable pub set_text : Tag → Str → ℕ → JsValue → Option JsValue
unfolding set_as
set_text tag s size = set_as tag size (js_string s)

-- `JS_SetJSON`.
unfoldable pub set_json : Engine → Str → ℕ → JsValue → Option JsValue
unfolding set_as
set_json g s size = set_as rt_object (if size == 0 then g.utf8_length s else size) (g.parse s)

-- `JS_SetBuffer`: the buffer is made of a copy of the C string `s`, so that no more than the string
-- can be read.
unfoldable pub set_buffer : Str → ℕ → JsValue → Option JsValue
unfolding set_as
set_buffer s size value =
    if ltb (length s) size
    then none
    else set_as rt_buffer (if size == 0 then length s else size) (js_buffer (take size s)) value

-- `JS_SetUndefined`, `JS_SetNull`: the wrapper stays.
unfoldable pub set_undefined : JsValue → JsValue
set_undefined value = record value { tag = rt_undefined }

unfoldable pub set_null : JsValue → JsValue
set_null value = record value { tag = rt_null }

release_mark : Option JsValue → Option JsValue
release_mark none = none
release_mark (some value) = some (record value { persistent = false })

copied : Option Wrap → JsValue → Option JsValue
unfolding set_as release_mark
copied (some (value_wrap v)) to = release_mark (set_as rt_object 1 v to)
copied _ to = none

-- `JS_IsObject`.
unfoldable pub is_object : Tag → Bool
is_object rt_object = true
is_object _ = false

-- `JS_SetObject`.
unfoldable pub set_object : JsValue → JsValue → Option JsValue
unfolding copied is_object
set_object to from =
    let result = copied from.data_ to in if is_object from.tag then result else none

-- A call of a setter.
pub data Setter : Type 0 where
  to_int32 to_double : ℕ → Setter
  to_boolean : Bool → Setter
  to_string to_error to_json to_buffer : Str → ℕ → Setter
  to_undefined to_null : Setter
  to_object : JsValue → Setter

unfoldable pub run_setter : Engine → Setter → JsValue → Option JsValue
unfolding set_int32 set_double set_boolean set_text set_json set_buffer set_undefined set_null
    set_object
run_setter g (to_int32 n) value = set_int32 n value
run_setter g (to_double n) value = set_double n value
run_setter g (to_boolean b) value = set_boolean b value
run_setter g (to_string s size) value = set_text rt_string s size value
run_setter g (to_error s size) value = set_text rt_error s size value
run_setter g (to_json s size) value = set_json g s size value
run_setter g (to_buffer s size) value = set_buffer s size value
run_setter g to_undefined value = some (set_undefined value)
run_setter g to_null value = some (set_null value)
run_setter g (to_object from) value = set_object value from

unfoldable pub run_setters : Engine → List Setter → JsValue → Option JsValue
run_setters g [] value = some value
run_setters g (s ∷ ss) value = run_setter g s value >>= run_setters g ss
