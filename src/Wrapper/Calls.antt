-- ===== src/Wrapper/Calls.antt =====
-- patch/node/node_wrapper.cc: calls of functions from native code and of native code from JavaScript.
use node_apphost.Base.{
  Bool, true, false, not, List, [], ◌∷◌, Option, none, some, if◌then◌else◌, ◌==◌, ◌&&◌, ◌||◌,
}
use node_apphost.Wrapper.{
  Js, js_null, js_undefined, js_function, Tag, rt_string, rt_buffer, rt_undefined, rt_null,
  rt_error, rt_function, Wrap, value_wrap, function_wrap, JsValue, Engine, empty_value, convert,
}

is_function : Tag → Bool
is_function rt_function = true
is_function _ = false

is_undefined : Tag → Bool
is_undefined rt_undefined = true
is_undefined _ = false

is_empty_tag : Tag → Bool
is_empty_tag rt_undefined = true
is_empty_tag rt_null = true
is_empty_tag _ = false

-- The value that stands for a parameter whose tag says what its wrapper is.
read_wrap : Bool → Option Wrap → Option Js
read_wrap true (some (function_wrap n)) = some (js_function n)
read_wrap false (some (value_wrap v)) = some v
read_wrap _ _ = none

has_wrap : Option Wrap → Bool
has_wrap none = false
has_wrap (some _) = true

-- A parameter in the loop of `JS_CallFunction`.
unfoldable pub passed : JsValue → Option Js
unfolding read_wrap is_function is_undefined is_empty_tag has_wrap
passed p =
    if is_empty_tag p.tag || not (has_wrap p.data_)
    then some (if is_undefined p.tag then js_undefined else js_null)
    else read_wrap (is_function p.tag) p.data_

cons_passed : Option Js → Option (List Js) → Option (List Js)
cons_passed (some v) (some vs) = some (v ∷ vs)
cons_passed _ _ = none

unfoldable pub passed_all : List JsValue → Option (List Js)
unfolding passed cons_passed
passed_all [] = some []
passed_all (p ∷ ps) = cons_passed (passed p) (passed_all ps)

-- `out` behind the call: `persistent_` is not written when the call throws.
out_of : Engine → JsValue → Option Js → Bool × JsValue
unfolding convert empty_value
out_of g out none = (false, empty_value out.persistent)
out_of g out (some v) = convert g v

after_invoke : Engine → JsValue → Option Wrap → Option (List Js) → Option (Bool × JsValue)
unfolding out_of
after_invoke g out (some (function_wrap f)) (some vs) = some (out_of g out (g.invoke f vs))
after_invoke g out _ _ = none

-- `JS_CallFunction`.
unfoldable pub call_native_function :
    Engine → JsValue → List JsValue → JsValue → Option (Bool × JsValue)
unfolding passed_all after_invoke is_function empty_value
call_native_function g fnc params out =
    let result = after_invoke g out fnc.data_ (passed_all params) in
    if is_function fnc.tag && fnc.size == g.wrapper_size
    then result
    else some (false, empty_value out.persistent)

-- `JS_Free`, for a value with a tag: `none` is the assertion on the size of a function.
unfoldable pub free_value : Engine → JsValue → Option JsValue
unfolding empty_value is_function is_empty_tag has_wrap
free_value g value =
    if value.persistent || (is_empty_tag value.tag || not (has_wrap value.data_))
    then some value
    else (if is_function value.tag && not (value.size == g.wrapper_size)
        then none
        else some (empty_value false))

-- What a native method makes of its call: a value, or an exception with the text of a value.
pub data Returned : Type 0 where
  returns throws : Js → Returned

is_buffer : Tag → Bool
is_buffer rt_buffer = true
is_buffer _ = false

is_string : Tag → Bool
is_string rt_string = true
is_string _ = false

as_value : Option Js → Option Returned
as_value none = none
as_value (some v) = some (returns v)

as_error : Option Js → Option Returned
as_error none = none
as_error (some v) = some (throws v)

answer_of : Tag → Option Wrap → Option Returned
unfolding as_value as_error read_wrap is_function
answer_of rt_null w = some (returns js_null)
answer_of rt_error w = as_error (read_wrap false w)
answer_of tag w = as_value (read_wrap (is_function tag) w)

-- The end of `extensionCallback`, from the slot of the result: first the two assertions.
unfoldable pub result_of : Engine → JsValue → Option Returned
unfolding answer_of is_function is_undefined is_buffer is_string has_wrap
result_of g r =
    if is_undefined r.tag
    then some (returns js_undefined)
    else (if (has_wrap r.data_ || (r.size == 0 && is_buffer r.tag))
          && (not (r.size == 0) || (is_string r.tag || is_buffer r.tag))
          && (not (is_function r.tag) || r.size == g.wrapper_size)
        then answer_of r.tag r.data_
        else none)
