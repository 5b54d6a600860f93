-- ===== src/Wrapper/Objects.antt =====
-- patch/node/node_wrapper.cc: objects of JavaScript and their properties, as native code makes, writes
-- and reads them. A property with an index is the property named by its decimal numeral.
pub mod Members
use node_apphost.Base.{
  ℕ, suc, Str, Bool, true, false, List, [], ◌∷◌, Option, none, some, if◌then◌else◌, ◌==◌,
}
use node_apphost.Base.Dict.{Dict, lookup, insert}
use node_apphost.Base.Decimal.{decimal}
use node_apphost.Base.Options.{◌>>=◌}
use node_apphost.Wrapper.{
  Js, js_null, js_undefined, js_object, Tag, rt_object, rt_undefined, rt_null, Wrap, value_wrap,
  function_wrap, JsValue, Engine, is_object, convert,
}

-- The members of each object, by its identity.
pub record Heap : Type 0 where
  pub next : ℕ
  pub members : ℕ → Dict Js

abbrev pub change : (ℕ → Dict Js) → ℕ → Dict Js → ℕ → Dict Js
change f n d m = if n == m then d else f m

-- `JS_CreateEmptyObject`, `JS_CreateArrayObject`.
unfoldable pub create_object : Heap → JsValue × Heap
create_object h = (
  record {
    persistent = false;
    data_ = some (value_wrap (js_object h.next));
    size = 1;
    tag = rt_object;
  },
  record { next = suc h.next; members = change h.members h.next [] },
)

identity : Option Wrap → Option ℕ
identity (some (value_wrap (js_object n))) = some n
identity _ = none

-- The object behind a value: first the assertion on its tag.
unfoldable pub object_of : JsValue → Option ℕ
unfolding identity is_object
object_of o = let n = identity o.data_ in if is_object o.tag then n else none

member_of : Option Wrap → Option Js
member_of none = some js_null
member_of (some (value_wrap v)) = some v
member_of (some (function_wrap _)) = none

-- What is written for a value: `JS_NULL()` where it holds nothing. A function's wrapper would be read
-- as that of a value.
unfoldable pub written : Tag → Option Wrap → Option Js
unfolding member_of
written rt_undefined w = some js_null
written rt_null w = some js_null
written _ w = member_of w

put : Heap → Str → Option ℕ → Option Js → Option Heap
put h name (some n) (some v) =
    some (record h { members = change h.members n (insert name v (h.members n)) })
put h name _ _ = none

-- `JS_SetNamedProperty`.
unfoldable pub set_named_property : JsValue → Str → JsValue → Heap → Option Heap
unfolding put object_of written
set_named_property o name prop h = put h name (object_of o) (written prop.tag prop.data_)

-- `JS_SetIndexedProperty`.
unfoldable pub set_indexed_property : JsValue → ℕ → JsValue → Heap → Option Heap
unfolding set_named_property
set_indexed_property o index prop h = set_named_property o (decimal index) prop h

or_absent : Option Js → Js
or_absent none = js_undefined
or_absent (some v) = v

got : Engine → Heap → Str → Option ℕ → Option JsValue
unfolding convert or_absent
got g h name none = none
got g h name (some n) = some (convert g (or_absent (lookup name (h.members n)))).1

-- `JS_GetNamedProperty`: what `out` holds then.
unfoldable pub get_named_property : Engine → JsValue → Str → Heap → Option JsValue
unfolding got object_of
get_named_property g o name h = got g h name (object_of o)

-- `JS_GetIndexedProperty`.
unfoldable pub get_indexed_property : Engine → JsValue → ℕ → Heap → Option JsValue
unfolding get_named_property
get_indexed_property g o index h = get_named_property g o (decimal index) h
