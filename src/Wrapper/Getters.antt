-- ===== src/Wrapper/Getters.antt =====
-- patch/node/node_wrapper.cc: what native code reads from a value, and the evaluation of a script. `none`
-- is a read of a wrapper as what it is not.
use node_apphost.Base.{
  ℕ, Str, js, Bool, true, false, ◌∷◌, ◌++◌, Option, none, some, if◌then◌else◌, ◌==◌, ◌&&◌, length,
}
use node_apphost.Base.Options.{◌>>=◌}
use node_apphost.Wrapper.{
  Js, js_string, Tag, rt_object, rt_undefined, rt_null, rt_error, Wrap, value_wrap, JsValue, Engine,
  convert,
}

-- V8's conversions, `JSON.stringify` with its fallback, and the members `name` and `message` of an
-- object that has a message.
pub record Reads : Type 0 where
  pub to_int32 : Js → ℕ
  pub to_double : Js → ℕ
  pub to_boolean : Js → Bool
  pub to_text : Js → Str
  pub stringify : Js → Str
  pub message_of : Js → Option (Str × Str)

unfoldable pub is_void : Tag → Bool
is_void rt_undefined = true
is_void rt_null = true
is_void _ = false

-- `UNWRAP_RESULT`.
unfoldable pub unwrapped : Option Wrap → Option Js
unwrapped (some (value_wrap v)) = some v
unwrapped _ = none

module _ {A : Type 0} where
  -- `EMPTY_CHECK`, and then the value in the wrapper.
  unfoldable pub read_or : A → (Js → A) → JsValue → Option A
  unfolding is_void unwrapped
  read_or empty read value =
      let result = unwrapped value.data_ >>= (λ v. some (read v)) in
      if is_void value.tag then some empty else result

-- `JS_GetInt32`, `JS_GetDouble`, `JS_GetBoolean`.
unfoldable pub get_int32 : Reads → JsValue → Option ℕ
unfolding read_or
get_int32 r = read_or 0 r.to_int32

unfoldable pub get_double : Reads → JsValue → Option ℕ
unfolding read_or
get_double r = read_or 0 r.to_double

unfoldable pub get_boolean : Reads → JsValue → Option Bool
unfolding read_or
get_boolean r = read_or false r.to_boolean

second_is : ℕ → Str → Bool
second_is c (_ ∷ d ∷ _) = d == c
second_is c _ = false

-- `JS_Stringify`.
unfoldable pub text_of_object : Reads → Js → Str
text_of_object r (js_string s) = s
text_of_object r v = r.stringify v

with_message : Str → Option (Str × Str) → Str
with_message s none = s
with_message s (some (name, message)) = name ++ js ": " ++ message

-- An object without members of its own is shown by its message, as an error is.
unfoldable pub text_or_message : Reads → Js → Str
unfolding text_of_object second_is with_message
text_or_message r v =
    let s = text_of_object r v in
    let shown = with_message s (r.message_of v) in
    if length s == 2 && second_is b'}' s then shown else s

text_by_tag : Reads → Tag → Js → Str
unfolding text_or_message
text_by_tag r rt_object v = text_or_message r v
text_by_tag r rt_error v = text_or_message r v
text_by_tag r _ v = r.to_text v

-- `JS_GetString`; the inner `none` is a null pointer.
unfoldable pub get_string : Reads → JsValue → Option (Option Str)
unfolding read_or text_by_tag
get_string r value = read_or none (λ v. some (text_by_tag r value.tag v)) value

-- `JS_GetDataLength`.
unfoldable pub get_data_length : JsValue → ℕ
unfolding is_void
get_data_length value = if is_void value.tag then 0 else value.size

-- What a script comes to.
pub data Evaluated : Type 0 where
  returned thrown : Js → Evaluated

-- `JS_Evaluate`: the result.
unfoldable pub evaluated_value : Engine → Evaluated → JsValue
unfolding convert
evaluated_value g (returned v) = (convert g v).1
evaluated_value g (thrown e) = record {
  persistent = false;
  data_ = some (value_wrap e);
  size = 1;
  tag = rt_error;
}
