-- ===== src/Mobile/Methods/Returns.antt =====
-- The references under which `JXMobile.prototype.call` keeps callbacks, and the calls that use them.
use node_apphost.Base.{ℕ, ◌+◌, ◌*◌, ◌%◌, ◌<◌, Str, js, List, [], ◌∷◌, ◌++◌, some, ◌≡◌, refl, sym}
use mathlib.Core.List.{append_assoc}
use node_apphost.Base.Dict.{lookup, insert, lookup-insert_self}
use node_apphost.Base.Decimal.{
  decimal, decimal-injective, decimal-snoc, NoDigitFirst, decimal-IsDigit, digits_prefix_unique,
}
use node_apphost.Mobile.{
  Value, null, text, array, function, Fn, values, callback, return_callback, Mobile, ok, ◌>>◌, pure,
  Engine,
}
use node_apphost.Mobile.Events.{apply_value}
use node_apphost.Mobile.Events.Callbacks.{split_callback-append}
use node_apphost.Mobile.Methods.{reference, return_marker, keep_callback, call}

-- Distinct pending calls have distinct references, as long as their counters or their names differ
-- and no name begins with a digit.
pub reference-injective :
    (m n : ℕ) (name name' : Str)
    → NoDigitFirst name
    → NoDigitFirst name'
    → reference m name ≡ reference n name'
    → (m ≡ n) × (name ≡ name')
unfolding reference
reference-injective m n name name' h h' e =
    let (p, q) =
      digits_prefix_unique (decimal m) (decimal n) name name' (decimal-IsDigit m)
        (decimal-IsDigit n) h h' e in
    (decimal-injective m n p, q)

-- Across methods the references collide: a counter `m` and a name that begins with the digit `d`
-- make the reference that the counter `10 * m + d` and the rest of the name make.
pub reference_collides :
    (m d : ℕ) (name : Str)
    → 0 < m
    → d < 10
    → reference m ((d + 48) ∷ name) ≡ reference (10 * m + d) name
unfolding reference
reference_collides m d name h k =
    rw (decimal-snoc m d h k) (sym (append_assoc (decimal m) ((d + 48) ∷ []) name))

-- So the callback of a pending call is lost to a later call of another method.
pub keep_callback_overwrites :
    (m d : ℕ) (name : Str) (front front' : List Value) (f f' : Fn) (s t : Mobile)
    → 0 < m
    → d < 10
    → s.return_reference_counter ≡ m
    → t.return_reference_counter ≡ 10 * m + d
    → (params : List Value) × (s' : Mobile) × (params' : List Value) × (t' : Mobile)
      × (keep_callback ((d + 48) ∷ name) front (some f) s ≡ ok params s')
      × (keep_callback name front' (some f') t ≡ ok params' t')
      × (lookup (reference m ((d + 48) ∷ name)) s'.ui_methods ≡ some (return_callback f))
      × (lookup (reference m ((d + 48) ∷ name)) t'.ui_methods ≡ some (return_callback f'))
unfolding keep_callback
keep_callback_overwrites m d name front front' f f' s t h k hs ht = (
  _,
  _,
  _,
  _,
  refl,
  refl,
  rw (hs) (lookup-insert_self _ _ s.ui_methods),
  rw (ht, reference_collides m d name h k) (lookup-insert_self _ _ t.ui_methods),
)

-- `call` with a callback hands the user interface's method the name, the parameters with a marker
-- in place of the callback, and null; at that time the callback is kept under the marker's
-- reference. Without `callLocalMethods` it throws, and nothing changes.
pub call_lem :
    (g : Engine) (name : Str) (params : List Value) (f : Fn) (ui : Value) (s : Mobile)
    → lookup (js "callLocalMethods") s.ui_methods ≡ some (callback ui)
    → let ref = reference s.return_reference_counter name in
      let s' = record s {
        return_reference_counter = (s.return_reference_counter + 1) % 9999;
        ui_methods = insert ref (return_callback f) s.ui_methods;
      } in
      (call g name (params ++ function f ∷ []) s
        ≡ (apply_value g ui
                (text name ∷ array (values (params ++ return_marker ref ∷ [])) ∷ null ∷ [])
              >> pure tt)
            s')
      × (lookup ref s'.ui_methods ≡ some (return_callback f))
unfolding call keep_callback
call_lem g name params f ui s h =
    (rw (split_callback-append params f, h), lookup-insert_self _ _ s.ui_methods)
