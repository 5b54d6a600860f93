-- ===== src/Jni/Passed.antt =====
-- What the event callback is called with when Java raises an event, and values on their way from
-- JavaScript to Java and back.
use node_apphost.Base.{
  ℕ, suc, ◌+◌, Str, js, Bool, false, List, [], ◌∷◌, Option, none, some, if◌then◌else◌, ◌≡◌, refl,
  ap, ◌∙◌, arith, get_elem?, Option-cases, inl, inr, All,
}
use node_apphost.Base.Dict.{lookup, insert}
use node_apphost.Base.Decimal.{decimal}
use node_apphost.Wrapper.{
  Js, js_null, js_undefined, js_boolean, js_int32, js_double, js_buffer, js_string, js_function,
  js_object, js_other, JsValue, Engine, new_value, empty_value, convert, set_as, value_wrap,
  rt_object,
}
use node_apphost.Wrapper.Calls.{passed, passed_all, call_native_function}
use node_apphost.Wrapper.Objects.{Heap, change, create_object, object_of}
use node_apphost.Wrapper.Objects.Members.{change_self}
use node_apphost.Jni.{
  with_heap, Stored, JObject, element_of, to_java, Texts, call_array, call_string, store_result,
}
use node_apphost.Jni.Elements.{java_value, HasNoZero, add_elements-Placed}

-- The callback is a function of JavaScript.
abbrev pub callback_of : Engine → ℕ → Option JsValue
callback_of g f = some (convert g (js_function f)).1

-- What Java gets and what waits for it when the callback returns, or throws.
abbrev pub outcome : Engine → Option Js → Stored → Option ℕ × Stored
outcome g none s = store_result (empty_value false) s
outcome g (some r) s = store_result (convert g r).1 s

-- The array or object with the identity `n`.
abbrev object_value : ℕ → JsValue
object_value n = record {
  persistent = false;
  data_ = some (value_wrap (js_object n));
  size = 1;
  tag = rt_object;
}

called :
    (g : Engine) (f n : ℕ) (event : Str) (s : Stored) (h : Heap)
    → with_heap g (convert g (js_function f)).1 event (object_value n) s (some h)
      ≡ some (
        (outcome g (g.invoke f (js_string event ∷ js_object n ∷ [])) s).0,
        (outcome g (g.invoke f (js_string event ∷ js_object n ∷ [])) s).1,
        h,
      )
unfolding with_heap call_native_function convert passed passed_all set_as new_value empty_value
called g f n event s h = elim (Option-cases (g.invoke f (js_string event ∷ js_object n ∷ []))) [
  | inl e ↦ ground arith
  | inr (r, e) ↦ ground arith
]

-- An event with an array of Java in which no array of bytes holds a byte 0, when the event callback has
-- been defined: the callback is called once, with the event's name and a new array that holds each
-- element at its index, as a value of JavaScript, whatever stands in memory behind the arrays of
-- bytes; its result waits for Java, unless it is null or undefined.
pub call_array_lem :
    (g : Engine) (beyond : Str → Str) (f : ℕ) (event : Str) (args : List JObject) (s : Stored)
    (h : Heap)
    → All HasNoZero args
    → (h' : Heap) × ((i : ℕ) (e : JObject)
        → get_elem? args i ≡ some e
        → lookup (decimal i) (h'.members h.next) ≡ some (java_value e))
      × (call_array g beyond (callback_of g f) event args s h
          ≡ some (
            (outcome g (g.invoke f (js_string event ∷ js_object h.next ∷ [])) s).0,
            (outcome g (g.invoke f (js_string event ∷ js_object h.next ∷ [])) s).1,
            h',
          ))
unfolding call_array create_object
call_array_lem g beyond f event args s h no_zero =
    let (o, h1) = create_object h in
    let (h', p, (placed, _)) =
      add_elements-Placed beyond o h.next 0 args h1 (unfold object_of in refl) no_zero in
    (
      h',
      (λ i e q.
          let z : i ≡ 0 + i = omega arith in
          ap (λ k. lookup (decimal k) (h'.members h.next)) z ∙ placed i e q),
      rw p (called g f h.next event s h'),
    )

-- An event with a text: the callback is called once, with the event's name and a new object whose one
-- property, `json` or `str`, is the text; its result waits for Java.
pub call_string_lem :
    (g : Engine) (f : ℕ) (event param : Str) (json : Bool) (s : Stored) (h : Heap)
    → (h' : Heap) × (h'.members h.next
        ≡ (if json then js "json" else js "str", js_string param) ∷ [])
      × (call_string g (callback_of g f) event param json s h
          ≡ some (
            (outcome g (g.invoke f (js_string event ∷ js_object h.next ∷ [])) s).0,
            (outcome g (g.invoke f (js_string event ∷ js_object h.next ∷ [])) s).1,
            h',
          ))
unfolding call_string create_object
call_string_lem g f event param json s h =
    let h1 : Heap = record { next = suc h.next; members = change h.members h.next [] } in
    let key = if json then js "json" else js "str" in
    let h' : Heap = record h1 {
      members = change h1.members h.next (insert key (js_string param) (h1.members h.next));
    } in
    (
      h',
      change_self h1.members h.next _
          ∙ ap (insert key (js_string param)) (change_self h.members h.next [])
          ∙ (unfold insert in refl),
      called g f h.next event s h',
    )

-- The values of which Java has the same kind.
abbrev pub IsPlain : Js → Type 0
IsPlain js_null = Unit
IsPlain (js_boolean b) = Unit
IsPlain (js_int32 n) = Unit
IsPlain (js_double n) = Unit
IsPlain (js_string s) = Unit
IsPlain _ = ⊥

-- Null, a truth value, a number or a text that JavaScript passes to Java, and Java passes back as it is,
-- arrives as it was.
pub to_java-element_of :
    (g : Engine) (t : Texts) (beyond : Str → Str) (v : Js)
    → IsPlain v
    → (e : JObject) × (w : JsValue) × (to_java t (convert g v).1 ≡ some e)
      × (element_of beyond e ≡ some w)
      × (passed w ≡ some v)
unfolding to_java element_of convert passed set_as empty_value new_value
to_java-element_of g t beyond js_null p = (_, _, refl, refl, refl)
to_java-element_of g t beyond (js_boolean b) p = (_, _, refl, refl, refl)
to_java-element_of g t beyond (js_int32 n) p = (_, _, refl, refl, refl)
to_java-element_of g t beyond (js_double n) p = (_, _, refl, refl, refl)
to_java-element_of g t beyond (js_string s) p = (_, _, refl, refl, refl)
to_java-element_of g t beyond js_undefined p = absurd p
to_java-element_of g t beyond (js_buffer s) p = absurd p
to_java-element_of g t beyond (js_function s) p = absurd p
to_java-element_of g t beyond (js_object s) p = absurd p
to_java-element_of g t beyond (js_other s) p = absurd p
