-- ===== src/Wrapper/Typed.antt =====
-- The tag of a value says what its wrapper holds.
use node_apphost.Base.{
  All, ℕ, true, false, List, [], ◌∷◌, Option, none, some, ltb, length, ◌≡◌, refl, ◌∙◌, ap,
}
use node_apphost.Base.Options.{◌>>=◌}
use node_apphost.Wrapper.{
  Js, js_boolean, js_int32, js_double, js_buffer, js_string, js_null, js_undefined, js_function,
  js_object, js_other, Tag, rt_int32, rt_double, rt_boolean, rt_string, rt_object, rt_buffer,
  rt_undefined, rt_null, rt_error, rt_function, Wrap, value_wrap, function_wrap, JsValue, Engine,
  empty_value, convert, set_as, set_int32, set_double, set_boolean, set_text, set_json, set_buffer,
  set_undefined, set_null, set_object, is_object, Setter, to_int32, to_double, to_boolean,
  to_string, to_error, to_json, to_buffer, to_undefined, to_null, to_object, run_setter,
  run_setters,
}

-- A value of JavaScript that a wrapper with the tag may hold. What `JS_SetJSON` parses has the tag of
-- an object whatever it is, and an exception may be any value.
abbrev pub Fits : Tag → Js → Type 0
Fits rt_int32 (js_int32 _) = Unit
Fits rt_double (js_double _) = Unit
Fits rt_boolean (js_boolean _) = Unit
Fits rt_string (js_string _) = Unit
Fits rt_buffer (js_buffer _) = Unit
Fits rt_object _ = Unit
Fits rt_error _ = Unit
Fits rt_undefined _ = Unit
Fits rt_null _ = Unit
Fits _ _ = ⊥

abbrev pub IsBlank : Tag → Type 0
IsBlank rt_undefined = Unit
IsBlank rt_null = Unit
IsBlank _ = ⊥

abbrev pub FitsFunction : Tag → Type 0
FitsFunction rt_function = Unit
FitsFunction tag = IsBlank tag

abbrev pub Holds : Tag → Option Wrap → Type 0
Holds tag none = IsBlank tag
Holds tag (some (value_wrap v)) = Fits tag v
Holds tag (some (function_wrap _)) = FitsFunction tag

abbrev pub IsTyped : JsValue → Type 0
IsTyped value = Holds value.tag value.data_

-- Whatever JavaScript passes to native code arrives with a tag that fits what its wrapper holds.
pub convert-IsTyped : (g : Engine) (v : Js) → IsTyped (convert g v).1
unfolding convert empty_value
convert-IsTyped g js_null = tt
convert-IsTyped g js_undefined = tt
convert-IsTyped g (js_boolean b) = tt
convert-IsTyped g (js_int32 n) = tt
convert-IsTyped g (js_double n) = tt
convert-IsTyped g (js_buffer s) = tt
convert-IsTyped g (js_string s) = tt
convert-IsTyped g (js_function n) = tt
convert-IsTyped g (js_object n) = tt
convert-IsTyped g (js_other n) = tt

-- No function is wrapped.
abbrev pub NoFunction : Option Wrap → Type 0
NoFunction (some (function_wrap _)) = ⊥
NoFunction _ = Unit

-- A value that native code made: what it holds fits the tag, and it is no function.
abbrev pub IsMade : JsValue → Type 0
IsMade value = IsTyped value × NoFunction value.data_

-- The call returns a value that native code made.
abbrev pub Makes : Option JsValue → Type 0
Makes result = (w : JsValue) × (result ≡ some w) × IsMade w

set_as-Makes :
    (tag : Tag) (size : ℕ) (v : Js) (value : JsValue) (d : Option Wrap)
    → value.data_ ≡ d
    → NoFunction d
    → Fits tag v
    → Makes (set_as tag size v value)
unfolding set_as
set_as-Makes tag size v value none e k h = rw e (_, refl, (h, tt))
set_as-Makes tag size v value (some (function_wrap _)) e k h = absurd k
set_as-Makes tag size v value (some (value_wrap _)) e k h = rw e (_, refl, (h, tt))

-- The caller of a setter keeps to the rules: a buffer is no longer than its text, and an object is
-- taken from an object.
abbrev pub IsAllowed : Setter → Type 0
IsAllowed (to_buffer s size) = ltb (length s) size ≡ false
IsAllowed (to_object from) = (is_object from.tag ≡ true) × IsTyped from
IsAllowed _ = Unit

copied-Makes :
    (tag : Tag) (d : Option Wrap) (from value : JsValue)
    → from.tag ≡ tag
    → from.data_ ≡ d
    → is_object tag ≡ true
    → Holds tag d
    → NoFunction value.data_
    → Makes (set_object value from)
unfolding set_object is_object
copied-Makes rt_object (some (value_wrap v)) from value e e' o h k =
    let (w, p, q) = set_as-Makes rt_object 1 v value value.data_ refl k tt in
    rw (e, e', p) (_, refl, q)
copied-Makes rt_object none from value e e' o h k = absurd h
copied-Makes rt_object (some (function_wrap _)) from value e e' o h k = absurd h
copied-Makes _ d from value e e' o h k = absurd (cc)

blank-Holds : (tag : Tag) (d : Option Wrap) → IsBlank tag → Holds tag d
blank-Holds tag none h = h
blank-Holds rt_int32 (some _) h = absurd h
blank-Holds rt_double (some _) h = absurd h
blank-Holds rt_boolean (some _) h = absurd h
blank-Holds rt_string (some _) h = absurd h
blank-Holds rt_object (some _) h = absurd h
blank-Holds rt_buffer (some _) h = absurd h
blank-Holds rt_error (some _) h = absurd h
blank-Holds rt_function (some _) h = absurd h
blank-Holds rt_undefined (some (value_wrap v)) h = tt
blank-Holds rt_null (some (value_wrap v)) h = tt
blank-Holds rt_undefined (some (function_wrap _)) h = tt
blank-Holds rt_null (some (function_wrap _)) h = tt

-- One setter.
run_setter-Makes :
    (g : Engine) (s : Setter) (value : JsValue)
    → IsAllowed s
    → NoFunction value.data_
    → Makes (run_setter g s value)
unfolding run_setter set_int32 set_double set_boolean set_text set_json set_buffer set_undefined
    set_null
run_setter-Makes g (to_int32 n) value a k = set_as-Makes _ _ _ value _ refl k tt
run_setter-Makes g (to_double n) value a k = set_as-Makes _ _ _ value _ refl k tt
run_setter-Makes g (to_boolean b) value a k = set_as-Makes _ _ _ value _ refl k tt
run_setter-Makes g (to_string s size) value a k = set_as-Makes _ _ _ value _ refl k tt
run_setter-Makes g (to_error s size) value a k = set_as-Makes _ _ _ value _ refl k tt
run_setter-Makes g (to_json s size) value a k = set_as-Makes _ _ _ value _ refl k tt
run_setter-Makes g (to_buffer s size) value a k = rw a (set_as-Makes _ _ _ value _ refl k tt)
run_setter-Makes g to_undefined value a k = (_, refl, (blank-Holds rt_undefined value.data_ tt, k))
run_setter-Makes g to_null value a k = (_, refl, (blank-Holds rt_null value.data_ tt, k))
run_setter-Makes g (to_object from) value (o, h) k =
    copied-Makes from.tag from.data_ from value refl refl o h k

-- Whatever setters native code calls on a value, beginning with a new one or with any that it made,
-- no assertion fails, no wrapper is taken for what it is not, and in the end what the wrapper holds
-- fits the tag. Condition: buffers are no longer than their texts and objects are taken from objects.
pub run_setters-Makes :
    (g : Engine) (ss : List Setter) (value : JsValue)
    → All IsAllowed ss
    → IsMade value
    → Makes (run_setters g ss value)
unfolding run_setters
run_setters-Makes g [] value a h = (value, refl, h)
run_setters-Makes g (s ∷ ss) value (a, as_) h =
    let (w, e, k) = run_setter-Makes g s value a h.1 in
    let (w', e', k') = run_setters-Makes g ss w as_ k in
    (w', ap (λ o. o >>= run_setters g ss) e ∙ e', k')
