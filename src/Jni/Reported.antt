-- ===== src/Jni/Reported.antt =====
-- What is left of the results of event callbacks.
use node_apphost.Base.{Bool, true, false, none, some, ◌≡◌, refl, ap}
use node_apphost.Wrapper.{
  Js, js_null, js_undefined, js_boolean, js_int32, js_double, js_buffer, js_string, js_function,
  js_object, js_other, JsValue, Engine, convert,
}
use node_apphost.Jni.{
  Stored, find, store_result, store_value, stored_type, report_result, is_reported, tag_of,
}
use node_apphost.Jni.Store.{find-store_value, remove_stored-some}
use node_apphost.Jni.Passed.{outcome}

-- Whether `callJSMethod` takes a result out of the map.
abbrev pub is_taken : Js → Bool
is_taken (js_string s) = true
is_taken (js_object n) = true
is_taken (js_other n) = true
is_taken _ = false

-- Whether the call of an event callback stores it.
abbrev pub is_stored : Js → Bool
is_stored js_null = false
is_stored js_undefined = false
is_stored _ = true

stored_type-store_value :
    (w : JsValue) (s : Stored) → stored_type s.counter (store_value w s).1 ≡ some w.tag
unfolding stored_type tag_of
stored_type-store_value w s = ap tag_of (find-store_value w s)

-- The map behind a call whose result `w` is stored.
abbrev after : JsValue → Stored → Stored
after w s = report_result (some s.counter) (store_value w s).1

taken :
    (w : JsValue) (s : Stored)
    → is_reported (some w.tag) ≡ true
    → find s.counter (after w s).values ≡ none
unfolding report_result
taken w s h =
    rw (stored_type-store_value w s, h)
      (remove_stored-some s.counter _ (store_value w s).1 (find-store_value w s)).1

left :
    (w : JsValue) (s : Stored)
    → is_reported (some w.tag) ≡ false
    → find s.counter (after w s).values ≡ some (record w { persistent = true })
unfolding report_result
left w s h = rw (stored_type-store_value w s, h) (find-store_value w s)

-- Where the result of an event callback is stored, `callJSMethod` takes it out again if it is a text, an
-- object or an error. Any other result, a truth value, a number, a buffer or a function, stays in the
-- map, where nothing asks for it any more.
pub report_result-left :
    (g : Engine) (r : Js) (s : Stored)
    → is_stored r ≡ true
    → let s' = report_result (outcome g (some r) s).0 (outcome g (some r) s).1 in
      (is_taken r ≡ true → find s.counter s'.values ≡ none)
      × (is_taken r ≡ false
          → find s.counter s'.values ≡ some (record (convert g r).1 { persistent = true }))
unfolding store_result convert is_reported
report_result-left g (js_boolean b) s h = ((λ e. cc), λ e. left (convert g (js_boolean b)).1 s refl)
report_result-left g (js_int32 n) s h = ((λ e. cc), λ e. left (convert g (js_int32 n)).1 s refl)
report_result-left g (js_double n) s h = ((λ e. cc), λ e. left (convert g (js_double n)).1 s refl)
report_result-left g (js_buffer t) s h = ((λ e. cc), λ e. left (convert g (js_buffer t)).1 s refl)
report_result-left g (js_function n) s h =
    ((λ e. cc), λ e. left (convert g (js_function n)).1 s refl)
report_result-left g (js_string t) s h = ((λ e. taken (convert g (js_string t)).1 s refl), λ e. cc)
report_result-left g (js_object n) s h = ((λ e. taken (convert g (js_object n)).1 s refl), λ e. cc)
report_result-left g (js_other n) s h = ((λ e. taken (convert g (js_other n)).1 s refl), λ e. cc)
report_result-left g js_null s h = cc
report_result-left g js_undefined s h = cc
