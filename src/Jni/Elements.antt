-- ===== src/Jni/Elements.antt =====
-- The elements of a Java array as the members of an array of JavaScript.
use node_apphost.Base.{
  ℕ, zero, suc, ◌+◌, ◌<◌, str_eq, str_eq-false, false, List, [], ◌∷◌, some, ◌≡◌, refl, arith, ap,
  ◌∙◌, inr, get_elem?, Str, All,
}
use node_apphost.Base.Dict.{lookup, insert}
use node_apphost.Base.Decimal.{decimal, decimal-injective}
use node_apphost.Base.Options.{◌>>=◌}
use node_apphost.Wrapper.{
  Js, js_null, js_boolean, js_int32, js_double, js_string, js_buffer, JsValue, empty_value, set_as,
  set_buffer,
}
use node_apphost.Wrapper.Objects.{Heap, change, object_of, written, set_indexed_property}
use node_apphost.Wrapper.Objects.Members.{unchanged, found, set_named_property-some}
use node_apphost.Wrapper.Copies.{c_string, has_zero, c_string-append, set_buffer-whole}
use node_apphost.Jni.{
  JObject, j_null, j_other, j_boolean, j_int, j_double, j_string, j_bytes, j_json, element_of,
  add_elements,
}

-- The value of JavaScript that an element becomes: null for an object of any other class.
abbrev pub java_value : JObject → Js
java_value j_null = js_null
java_value j_other = js_null
java_value (j_boolean b) = js_boolean b
java_value (j_int n) = js_int32 n
java_value (j_double n) = js_double n
java_value (j_string s) = js_string s
java_value (j_bytes s) = js_buffer s
java_value (j_json s) = js_null

-- An array of bytes holds no byte 0.
abbrev pub HasNoZero : JObject → Type 0
HasNoZero (j_bytes s) = has_zero s ≡ false
HasNoZero _ = Unit {0}

element-written :
    (beyond : Str → Str) (e : JObject)
    → HasNoZero e
    → (w : JsValue) × (element_of beyond e ≡ some w) × (written w.tag w.data_ ≡ some (java_value e))
unfolding element_of written set_as empty_value set_buffer
element-written beyond j_null h = (_, refl, refl)
element-written beyond j_other h = (_, refl, refl)
element-written beyond (j_boolean b) h = (_, refl, refl)
element-written beyond (j_int n) h = (_, refl, refl)
element-written beyond (j_double n) h = (_, refl, refl)
element-written beyond (j_string s) h = (_, refl, refl)
element-written beyond (j_bytes s) h =
    rw (c_string-append s (beyond s) h, set_buffer-whole s (c_string (beyond s))) (_, refl, refl)
element-written beyond (j_json s) h = (_, refl, refl)

-- Each element from the index `i` on is in its place, and nothing before it is changed.
abbrev pub Placed : ℕ → ℕ → List JObject → Heap → Heap → Type 0
Placed n i es h h' =
    ((k : ℕ) (e : JObject)
      → get_elem? es k ≡ some e
      → lookup (decimal (i + k)) (h'.members n) ≡ some (java_value e))
    × ((k : ℕ) → k < i → lookup (decimal k) (h'.members n) ≡ lookup (decimal k) (h.members n))

apart : (k i : ℕ) → k < i → str_eq (decimal i) (decimal k) ≡ false
apart k i h = str_eq-false _ _ (λ e. absurd (omega (arith, decimal-injective i k e)))

here_or_later :
    (n i : ℕ) (e : JObject) (es : List JObject) (h1 h' : Heap)
    → Placed n (suc i) es h1 h'
    → lookup (decimal i) (h1.members n) ≡ some (java_value e)
    → (k : ℕ) (e' : JObject) → get_elem? (e ∷ es) k ≡ some e'
    → lookup (decimal (i + k)) (h'.members n) ≡ some (java_value e')
here_or_later n i e es h1 h' placed now zero e' p =
    let q : i + 0 ≡ i = omega arith in
    let q' : e ≡ e' = cc in rw q (placed.1 i (omega arith) ∙ now ∙ ap (λ x. some (java_value x)) q')
here_or_later n i e es h1 h' placed now (suc k) e' p =
    let q : i + suc k ≡ suc i + k = omega arith in rw q (placed.0 k e' p)

pub add_elements-Placed :
    (beyond : Str → Str) (o : JsValue) (n i : ℕ) (es : List JObject) (h : Heap)
    → object_of o ≡ some n
    → All HasNoZero es
    → (h' : Heap) × (add_elements beyond o i es h ≡ some h') × Placed n i es h h'
unfolding add_elements set_indexed_property
add_elements-Placed beyond o n i [] h q z = (h, refl, ((λ k e p. cc), λ k l. refl))
add_elements-Placed beyond o n i (e ∷ es) h q (z, zs) =
    let (w, p, r) = element-written beyond e z in
    let h1 : Heap = record h {
      members = change h.members n (insert (decimal i) (java_value e) (h.members n));
    } in
    let (h', p', (here, before)) = add_elements-Placed beyond o n (suc i) es h1 q zs in
    (
      h',
      rw p (
          ap (λ x. x >>= add_elements beyond o (suc i) es)
            (set_named_property-some o w (decimal i) h n (java_value e) q r)
          ∙ p'),
      (
        here_or_later n i e es h1 h' (here, before) (found h n (decimal i) (java_value e)),
        λ k l.
            before k (omega arith)
            ∙ unchanged h n (decimal i) (java_value e) n (decimal k) (inr (apart k i l)),
      ),
    )
