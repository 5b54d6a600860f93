-- ===== src/Wrapper/Passed.antt =====
-- What JavaScript gets from native code is what was set, or what it gave itself.
use node_apphost.Base.{
  ℕ, zero, suc, ◌<◌, Str, Bool, true, false, List, [], ◌∷◌, Option, none, some, take, ◌≡◌, inl, inr,
  refl, Option-cases, All, ap, ◌∙◌, arith,
}
use node_apphost.Base.Options.{◌>>=◌}
use node_apphost.Wrapper.{
  Js, js_boolean, js_int32, js_double, js_buffer, js_string, js_null, js_undefined, js_function,
  js_object, js_other, Tag, rt_int32, rt_double, rt_boolean, rt_string, rt_object, rt_buffer,
  rt_undefined, rt_null, rt_error, rt_function, Wrap, value_wrap, function_wrap, JsValue, Engine,
  empty_value, convert, set_as, set_int32, set_double, set_boolean, set_text, set_json, set_buffer,
  set_undefined, set_null, set_object, is_object, Setter, to_int32, to_double, to_boolean,
  to_string, to_error, to_json, to_buffer, to_undefined, to_null, to_object, run_setter,
  run_setters,
}
use node_apphost.Wrapper.Calls.{
  passed, passed_all, call_native_function, returns, throws, result_of,
}
use node_apphost.Wrapper.Typed.{IsAllowed, NoFunction, IsMade, Holds, run_setters-Makes}

-- The values of a supported type: all but symbols.
abbrev pub IsSupported : Js → Type 0
IsSupported (js_other _) = ⊥
IsSupported _ = Unit

-- A value of JavaScript that native code passes on arrives unchanged.
pub passed-convert : (g : Engine) (v : Js) → IsSupported v → passed (convert g v).1 ≡ some v
unfolding passed convert empty_value
passed-convert g js_null h = refl
passed-convert g js_undefined h = refl
passed-convert g (js_boolean b) h = refl
passed-convert g (js_int32 n) h = refl
passed-convert g (js_double n) h = refl
passed-convert g (js_buffer s) h = refl
passed-convert g (js_string s) h = refl
passed-convert g (js_function n) h = refl
passed-convert g (js_object n) h = refl
passed-convert g (js_other n) h = absurd h

abbrev pub converted : Engine → List Js → List JsValue
converted g [] = []
converted g (v ∷ vs) = (convert g v).1 ∷ converted g vs

passed_all-converted :
    (g : Engine) (vs : List Js) → All IsSupported vs → passed_all (converted g vs) ≡ some vs
unfolding passed_all
passed_all-converted g [] h = refl
passed_all-converted g (v ∷ vs) (h, hs) =
    rw (passed-convert g v h, passed_all-converted g vs hs) refl

-- A function of JavaScript that native code got and calls with values that it got is called with
-- those very values, and its result comes back as it would have been passed; when it throws, the
-- call answers false and `out` is empty.
pub call_native_function-converted :
    (g : Engine) (f : ℕ) (vs : List Js) (out : JsValue)
    → All IsSupported vs
    → call_native_function g (convert g (js_function f)).1 (converted g vs) out
      ≡ some (elim (g.invoke f vs) [
        | none ↦ (false, empty_value out.persistent)
        | some r ↦ convert g r
      ])
unfolding call_native_function convert
call_native_function-converted g f vs out h = elim (Option-cases (g.invoke f vs)) [
  | inl e ↦ ground (arith, passed_all-converted g vs h)
  | inr (r, e) ↦ ground (arith, passed_all-converted g vs h)
]

-- The value that a setter stands for.
abbrev pub wrapped_value : Option Wrap → Js
wrapped_value (some (value_wrap v)) = v
wrapped_value _ = js_undefined

abbrev pub meant : Engine → Setter → Js
meant g (to_int32 n) = js_int32 n
meant g (to_double n) = js_double n
meant g (to_boolean b) = js_boolean b
meant g (to_string s size) = js_string s
meant g (to_error s size) = js_string s
meant g (to_json s size) = g.parse s
meant g (to_buffer s size) = js_buffer (take size s)
meant g to_undefined = js_undefined
meant g to_null = js_null
meant g (to_object from) = wrapped_value from.data_

-- The call returns a value that JavaScript receives as `v`.
abbrev pub Passes : Js → Option JsValue → Type 0
Passes v result = (w : JsValue) × (result ≡ some w) × (passed w ≡ some v)

-- The tags of values that a wrapper holds.
abbrev IsFilled : Tag → Type 0
IsFilled rt_undefined = ⊥
IsFilled rt_null = ⊥
IsFilled rt_function = ⊥
IsFilled _ = Unit

passed-wrapped :
    (tag : Tag) (keep : Bool) (size : ℕ) (v : Js)
    → IsFilled tag
    → passed (record { persistent = keep; data_ = some (value_wrap v); size = size; tag = tag })
      ≡ some v
unfolding passed
passed-wrapped rt_int32 keep size v h = refl
passed-wrapped rt_double keep size v h = refl
passed-wrapped rt_boolean keep size v h = refl
passed-wrapped rt_string keep size v h = refl
passed-wrapped rt_object keep size v h = refl
passed-wrapped rt_buffer keep size v h = refl
passed-wrapped rt_error keep size v h = refl
passed-wrapped rt_undefined keep size v h = absurd h
passed-wrapped rt_null keep size v h = absurd h
passed-wrapped rt_function keep size v h = absurd h

set_as-passed :
    (tag : Tag) (size : ℕ) (v : Js) (value : JsValue) (d : Option Wrap)
    → value.data_ ≡ d
    → NoFunction d
    → IsFilled tag
    → Passes v (set_as tag size v value)
unfolding set_as
set_as-passed tag size v value none e k h =
    rw e (_, refl, passed-wrapped tag value.persistent size v h)
set_as-passed tag size v value (some (value_wrap _)) e k h =
    rw e (_, refl, passed-wrapped tag value.persistent size v h)
set_as-passed tag size v value (some (function_wrap _)) e k h = absurd k

copied-passed :
    (tag : Tag) (d : Option Wrap) (from value : JsValue)
    → from.tag ≡ tag
    → from.data_ ≡ d
    → is_object tag ≡ true
    → Holds tag d
    → NoFunction value.data_
    → Passes (wrapped_value d) (set_object value from)
unfolding set_object is_object
copied-passed rt_object (some (value_wrap v)) from value e e' o h k =
    let (w, p, q) = set_as-passed rt_object 1 v value value.data_ refl k tt in
    rw (e, e', p) (_, refl, unfold passed in q)
copied-passed rt_object none from value e e' o h k = absurd h
copied-passed rt_object (some (function_wrap _)) from value e e' o h k = absurd h
copied-passed _ d from value e e' o h k = absurd (cc)

set-passed :
    (g : Engine) (s : Setter) (value : JsValue)
    → IsAllowed s
    → NoFunction value.data_
    → Passes (meant g s) (run_setter g s value)
unfolding run_setter set_int32 set_double set_boolean set_text set_json set_buffer set_undefined
    set_null
set-passed g (to_int32 n) value a k = set_as-passed _ _ _ value _ refl k tt
set-passed g (to_double n) value a k = set_as-passed _ _ _ value _ refl k tt
set-passed g (to_boolean b) value a k = set_as-passed _ _ _ value _ refl k tt
set-passed g (to_string s size) value a k = set_as-passed _ _ _ value _ refl k tt
set-passed g (to_error s size) value a k = set_as-passed _ _ _ value _ refl k tt
set-passed g (to_json s size) value a k = set_as-passed _ _ _ value _ refl k tt
set-passed g (to_buffer s size) value a k = rw a (set_as-passed _ _ _ value _ refl k tt)
set-passed g to_undefined value a k = (_, refl, unfold passed in refl)
set-passed g to_null value a k = (_, refl, unfold passed in refl)
set-passed g (to_object from) value (o, h) k =
    copied-passed from.tag from.data_ from value refl refl o h k

-- Whatever setters native code called on a value before, after one more setter JavaScript receives
-- what that setter means: the number, the truth value, the text, what the JSON text parses to, a
-- buffer of the first bytes, undefined, null, or the object of the other value itself. Condition:
-- buffers are no longer than their texts and objects are taken from objects.
pub run_setters-passed :
    (g : Engine) (ss : List Setter) (s : Setter) (value : JsValue)
    → All IsAllowed ss
    → IsAllowed s
    → IsMade value
    → Passes (meant g s) (run_setters g ss value >>= run_setter g s)
run_setters-passed g ss s value as_ a h =
    let (w, e, k) = run_setters-Makes g ss value as_ h in
    let (w', e', k') = set-passed g s w a k.1 in (w', ap (λ o. o >>= run_setter g s) e ∙ e', k')

-- What a call of a native method answers, which fills the empty slot of its result: an integer, a
-- truth value or a text is returned, an error text is thrown, and undefined is returned. Condition:
-- a text has a size. Null leaves the slot without a wrapper, so that the first assertion fails that
-- stands behind the method's call.
pub result_of-set :
    (g : Engine) (n : ℕ) (b : Bool) (s : Str) (size : ℕ) (keep : Bool)
    → 0 < size
    → ((set_int32 n (empty_value keep) >>= result_of g) ≡ some (returns (js_int32 n)))
      × ((set_boolean b (empty_value keep) >>= result_of g) ≡ some (returns (js_boolean b)))
      × ((set_text rt_string s size (empty_value keep) >>= result_of g)
          ≡ some (returns (js_string s)))
      × ((set_text rt_error s size (empty_value keep) >>= result_of g)
          ≡ some (throws (js_string s)))
      × (result_of g (set_undefined (empty_value keep)) ≡ some (returns js_undefined))
      × (result_of g (set_null (empty_value keep)) ≡ none)
unfolding result_of set_int32 set_boolean set_text set_undefined set_null empty_value set_as
result_of-set g n b s zero keep h = elim h [ ]
result_of-set g n b s (suc size) keep h = (refl, refl, ground arith, ground arith, refl, refl)
