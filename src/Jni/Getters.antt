-- ===== src/Jni/Getters.antt =====
-- samples/android/JNI_JXCORE/jni/jxcore.cpp: the functions by which Java reads a value that waits for it.
-- A number below 0 would mean an argument of `callback`, which no code registers, so that there are none.
use node_apphost.Base.{ℕ, Str, js, Bool, Option, none, some, if◌then◌else◌, length, ltb, take}
use node_apphost.Base.Decimal.{decimal}
use node_apphost.Base.Options.{◌>>=◌}
use node_apphost.Wrapper.{
  Tag, rt_int32, rt_double, rt_boolean, rt_undefined, rt_null, rt_function, JsValue, Engine,
}
use node_apphost.Wrapper.Calls.{free_value}
use node_apphost.Wrapper.Getters.{
  Reads, get_int32, get_double, get_boolean, get_string, get_data_length, Evaluated,
  evaluated_value,
}
use node_apphost.Jni.{Stored, remove_stored, stored_type, store_result}

module _ {A : Type 0} where
  -- The value is taken out of the map, read, and freed; there is no test that it was there.
  unfoldable pub read_taken :
      Engine → (JsValue → Option A) → Option JsValue × Stored → Option (A × Stored)
  read_taken g read (none, s) = none
  read_taken g read (some v, s) = read v >>= λ a. free_value g v >>= λ _. some (a, s)

-- `getType`; `none` is -1.
unfoldable pub get_type : Option ℕ → Stored → Option Tag
unfolding stored_type
get_type none s = some rt_undefined
get_type (some id) s = stored_type id s

unfoldable pub get_int32_at : Engine → Reads → ℕ → Stored → Option (ℕ × Stored)
unfolding read_taken get_int32 remove_stored
get_int32_at g r id s = read_taken g (get_int32 r) (remove_stored id s)

-- `getDouble`: the value is kept in an int.
unfoldable pub get_double_at : Engine → Reads → (ℕ → ℕ) → ℕ → Stored → Option (ℕ × Stored)
unfolding read_taken get_double remove_stored
get_double_at g r to_int id s =
    read_taken g (λ v. get_double r v >>= λ n. some (to_int n)) (remove_stored id s)

unfoldable pub get_boolean_at : Engine → Reads → ℕ → Stored → Option (Bool × Stored)
unfolding read_taken get_boolean remove_stored
get_boolean_at g r id s = read_taken g (get_boolean r) (remove_stored id s)

unfoldable pub get_string_at : Engine → Reads → ℕ → Stored → Option (Option Str × Stored)
unfolding read_taken get_string remove_stored
get_string_at g r id s = read_taken g (get_string r) (remove_stored id s)

-- `getBuffer`: as many bytes of the text as the value is long.
copied : ℕ → Option Str → Option Str
copied size none = none
copied size (some s) = if ltb (length s) size then none else some (take size s)

unfoldable pub get_buffer_at : Engine → Reads → ℕ → Stored → Option (Str × Stored)
unfolding read_taken get_string get_data_length copied remove_stored
get_buffer_at g r id s =
    read_taken g (λ v. get_string r v >>= copied (get_data_length v)) (remove_stored id s)

text_of_boolean : Bool → Str
text_of_boolean b = if b then js "true" else js "false"

-- `ConvertResult`; `shown` is how a stream shows a double.
convert_by : Reads → (ℕ → Str) → Tag → JsValue → Option Str
unfolding text_of_boolean get_boolean get_int32 get_double get_string
convert_by r shown rt_null v = some (js "null")
convert_by r shown rt_undefined v = some (js "undefined")
convert_by r shown rt_boolean v = get_boolean r v >>= λ b. some (text_of_boolean b)
convert_by r shown rt_int32 v = get_int32 r v >>= λ n. some (decimal n)
convert_by r shown rt_double v = get_double r v >>= λ n. some (shown n)
convert_by r shown rt_function v = some (js "null")
convert_by r shown _ v = get_string r v >>= λ s. s

-- `convertToString`.
unfoldable pub convert_to_string : Engine → Reads → (ℕ → Str) → ℕ → Stored → Option (Str × Stored)
unfolding read_taken convert_by remove_stored
convert_to_string g r shown id s =
    read_taken g (λ v. convert_by r shown v.tag v) (remove_stored id s)

-- `evalEngine`.
unfoldable pub eval_engine : Engine → Evaluated → Stored → Option ℕ × Stored
unfolding store_result evaluated_value
eval_engine g e s = store_result (evaluated_value g e) s

unfoldable pub reported_at :
    Engine → Reads → Option ℕ × Stored → Option (Option (Option Str) × Stored)
unfolding get_string_at
reported_at g r (none, s) = some (none, s)
reported_at g r (some id, s) = get_string_at g r id s >>= λ p. some (some p.0, p.1)

-- What `execute` of jxcore.java posts: the text that is sent to the page as an error, if any.
unfoldable pub evaluate_posted :
    Engine → Reads → Evaluated → Stored → Option (Option (Option Str) × Stored)
unfolding reported_at eval_engine
evaluate_posted g r e s = reported_at g r (eval_engine g e s)
