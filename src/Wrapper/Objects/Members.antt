-- ===== src/Wrapper/Objects/Members.antt =====
-- What is read from an object is what was written to it.
use node_apphost.Base.{
  ℕ, Str, str_eq, false, Option, none, some, ◌≡◌, ◌≢◌, refl, arith, ap, ◌∙◌, ◌⊎◌, inl, inr,
}
use node_apphost.Base.Dict.{Dict, lookup, insert, lookup-insert_self, lookup-insert_other}
use node_apphost.Wrapper.{
  Js, js_null, Tag, rt_int32, rt_undefined, rt_null, Wrap, value_wrap, function_wrap, JsValue,
  Engine, convert,
}
use node_apphost.Wrapper.Typed.{NoFunction}
use node_apphost.Wrapper.Objects.{
  Heap, change, object_of, written, set_named_property, get_named_property,
}

pub change_self : (f : ℕ → Dict Js) (n : ℕ) (d : Dict Js) → change f n d n ≡ d
change_self f n d = ground arith

change_other : (f : ℕ → Dict Js) (n m : ℕ) (d : Dict Js) → n ≢ m → change f n d m ≡ f m
change_other f n m d h = ground arith

-- A value that native code made can be written.
written-made : (tag : Tag) (w : Option Wrap) → NoFunction w → (v : Js) × (written tag w ≡ some v)
unfolding written
written-made rt_undefined w k = (js_null, refl)
written-made rt_null w k = (js_null, refl)
written-made rt_int32 none k = (js_null, refl)
written-made _ (some (value_wrap v)) k = (v, refl)
written-made _ (some (function_wrap n)) k = absurd k
written-made _ none k = (js_null, refl)

-- The two places of a property: the object and the name.
abbrev pub IsElsewhere : ℕ → Str → ℕ → Str → Type 0
IsElsewhere n name m other = (n ≢ m) ⊎ (str_eq name other ≡ false)

pub unchanged :
    (h : Heap) (n : ℕ) (name : Str) (v : Js) (m : ℕ) (other : Str)
    → IsElsewhere n name m other
    → lookup other (change h.members n (insert name v (h.members n)) m) ≡ lookup other (h.members m)
unchanged h n name v m other (inl d) = ap (lookup other) (change_other h.members n m _ d)
unchanged h n name v m other (inr d) =
    ground (arith, lookup-insert_other name other v (h.members n))

pub get_named_property-some :
    (g : Engine) (o : JsValue) (name : Str) (h : Heap) (n : ℕ) (v : Js)
    → object_of o ≡ some n
    → lookup name (h.members n) ≡ some v
    → get_named_property g o name h ≡ some (convert g v).1
unfolding get_named_property
get_named_property-some g o name h n v e q = rw (e, q) refl

pub found :
    (h : Heap) (n : ℕ) (name : Str) (v : Js)
    → lookup name (change h.members n (insert name v (h.members n)) n) ≡ some v
found h n name v =
    ap (lookup name) (change_self h.members n _) ∙ lookup-insert_self name v (h.members n)

pub set_named_property-some :
    (o prop : JsValue) (name : Str) (h : Heap) (n : ℕ) (v : Js)
    → object_of o ≡ some n
    → written prop.tag prop.data_ ≡ some v
    → set_named_property o name prop h
      ≡ some (record h { members = change h.members n (insert name v (h.members n)) })
unfolding set_named_property
set_named_property-some o prop name h n v e q = rw (e, q) refl

-- A property that native code writes holds the value, with null for undefined; native code reads it
-- back as it reads any value of JavaScript; and every other property of every object is as before.
pub set_named_property_lem :
    (g : Engine) (o prop : JsValue) (name : Str) (h : Heap) (n : ℕ)
    → object_of o ≡ some n
    → NoFunction prop.data_
    → (v : Js) × (h' : Heap) × (written prop.tag prop.data_ ≡ some v)
      × (set_named_property o name prop h ≡ some h')
      × (get_named_property g o name h' ≡ some (convert g v).1)
      × ((m : ℕ) (other : Str)
          → IsElsewhere n name m other
          → lookup other (h'.members m) ≡ lookup other (h.members m))
set_named_property_lem g o prop name h n e k =
    let (v, q) = written-made prop.tag prop.data_ k in
    let h' : Heap = record h { members = change h.members n (insert name v (h.members n)) } in
    (
      v,
      h',
      q,
      set_named_property-some o prop name h n v e q,
      get_named_property-some g o name h' n v e (found h n name v),
      unchanged h n name v,
    )
