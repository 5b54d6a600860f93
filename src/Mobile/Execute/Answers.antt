-- ===== src/Mobile/Execute/Answers.antt =====
-- How the device answers the calls of the user interface.
use node_apphost.Base.{
  ℕ, Str, js, str_eq, true, false, List, [], ◌∷◌, ◌++◌, Option, none, some, is_empty, drop, ◌≡◌,
  refl, arith, ◌⊎◌, inl, inr,
}
use node_apphost.Base.Dict.{lookup, insert, remove, lookup-insert_self, lookup-remove_self}
use node_apphost.Mobile.{
  Value, undefined, null, text, array, function, Fn, answer, values, Method, return_callback,
  Mobile, Err, Res, ok, throw, ◌>>=◌, ◌>>◌, Engine, new_error,
}
use node_apphost.Mobile.Events.{
  apply, apply_value, call_native, split_callback, register_callback, send,
}
use node_apphost.Mobile.Methods.{is_inherited, register_sync, register_async, unregister}
use node_apphost.Mobile.Execute.{async_params, internal_method, is_return, dispatch, execute_json}
use node_apphost.Mobile.Execute.Failures.{reported, caught, execute_json_lem, execute_json_unknown}

-- The state in which `values` has been sent to the user interface's callback.
abbrev pub answered : Str → List Value → Mobile → Mobile
answered cid vs s = record s {
  sent =
      s.sent
      ++ (text (js "  _callback_  ") ∷ array (values vs) ∷ null ∷ text cid ∷ text [] ∷ []) ∷ [];
}

-- The closure that is handed to a method sends its arguments to the callback, whatever the state.
pub answer_lem :
    (g : Engine) (cid : Str) (vs : List Value) (s : Mobile)
    → apply g (answer (text cid)) vs s ≡ ok undefined (answered cid vs s)
unfolding apply call_native split_callback register_callback send
answer_lem g cid vs s = refl

-- What `executeJSON` makes of the outcome of a synchronous method.
abbrev pub sync_outcome : Engine → Str → Res Value → Res Value
sync_outcome g cid (ok r s) = ok undefined (answered cid (r ∷ []) s)
sync_outcome g cid (throw e s) = caught g (throw e s)

Res-cases :
    {A : Type 0} (r : Res A)
    → ((a : A) × (s : Mobile) × (r ≡ ok a s)) ⊎ ((e : Err) × (s : Mobile) × (r ≡ throw e s))
Res-cases (ok a s) = inl (a, s, refl)
Res-cases (throw e s) = inr (e, s, refl)

module _ (g : Engine) (name : Str) (f : Fn) (ps : List Value) (c : ℕ) (cs : Str) (s : Mobile) where
  -- A synchronous method that has just been registered, called with parameters and with the name
  -- of a callback, runs on these parameters; its value is sent to the callback, and an error that
  -- it throws is reported instead, if it is an object.
  pub execute_json-register_sync :
      is_empty name ≡ false
      → internal_method name ≡ none
      → (register_sync name (function f)
            >> execute_json g (record { method_name = name; params = some ps }) (text (c ∷ cs)))
          s
        ≡ sync_outcome g (c ∷ cs) (
            apply g f ps (record s {
              jx_methods =
                  insert name (record { is_synced = true; method = function f }) s.jx_methods;
            }))
  unfolding register_sync dispatch apply_value
  execute_json-register_sync h hi =
      let m : Method = record { is_synced = true; method = function f } in
      let s' : Mobile = record s { jx_methods = insert name m s.jx_methods } in
      rw
        (
          execute_json_lem g (record { method_name = name; params = some ps }) (text (c ∷ cs)) _ h,
          hi,
          lookup-insert_self name m s.jx_methods,
        )
        (elim (Res-cases (apply g f ps s')) [
          | inl (a, s'', e) ↦ rw (e, ◌>>=◌) (rw (answer_lem g (c ∷ cs) (a ∷ []) s'', ◌>>=◌))
          | inr (x, s'', e) ↦ rw (e, ◌>>=◌)
        ])

  -- An asynchronous method runs on the parameters (none for a single null) and a function behind
  -- them that answers the callback. Nothing more is sent for it, unless it throws.
  pub execute_json-register_async :
      is_empty name ≡ false
      → internal_method name ≡ none
      → (register_async name (function f)
            >> execute_json g (record { method_name = name; params = some ps }) (text (c ∷ cs)))
          s
        ≡ caught g (
            apply g f (async_params (some ps) ++ function (answer (text (c ∷ cs))) ∷ []) (record s {
              jx_methods =
                  insert name (record { is_synced = false; method = function f }) s.jx_methods;
            }))
  unfolding register_async dispatch apply_value
  execute_json-register_async h hi =
      let m : Method = record { is_synced = false; method = function f } in
      rw
        (
          execute_json_lem g (record { method_name = name; params = some ps }) (text (c ∷ cs)) _ h,
          hi,
          lookup-insert_self name m s.jx_methods,
        )
        refl

-- A method that has been unregistered is unknown: the call is reported to the native side.
pub execute_json-unregister :
    (g : Engine) (name : Str) (ps : Option (List Value)) (cid : Value) (s : Mobile)
    → is_empty name ≡ false
    → internal_method name ≡ none
    → is_return name ≡ false
    → (unregister name >> execute_json g (record { method_name = name; params = ps }) cid) s
      ≡ ok undefined (
          reported g
            (new_error g (js "JXcore: Method Doesn't Exist ["))
            (record s { jx_methods = remove name s.jx_methods }))
unfolding unregister
execute_json-unregister g name ps cid s h hi hr =
    execute_json_unknown g (record { method_name = name; params = ps }) cid
      (record s { jx_methods = remove name s.jx_methods }) h hi
      (lookup-remove_self name s.jx_methods) hr

-- The outcome of a call of a return reference: the entry goes only when its callback has returned.
abbrev pub return_outcome : Engine → Str → Res Value → Res Value
return_outcome g ref (ok r s) = ok undefined (record s { ui_methods = remove ref s.ui_methods })
return_outcome g ref (throw e s) = caught g (throw e s)

return_settled :
    (g : Engine) (ref : Str) (r : Res Value)
    → let t : Res Value = (elim r [
      | ok a s ↦ ok undefined (record s { ui_methods = remove ref s.ui_methods })
      | throw e s ↦ throw e s
    ]) in
      caught g t ≡ return_outcome g ref r
return_settled g ref (ok a s) = refl
return_settled g ref (throw e s) = refl

return_not_internal : (ref : Str) → internal_method (js "RC-" ++ ref) ≡ none
unfolding internal_method is_inherited js str_eq
return_not_internal ref = refl

return_IsReturn : (c : ℕ) (ref : Str) → is_return (js "RC-" ++ (c ∷ ref)) ≡ true
unfolding is_return js str_eq
return_IsReturn c ref = ground arith

drop-return : (ref : Str) → drop 3 (js "RC-" ++ ref) ≡ ref
unfolding js
drop-return ref = refl

-- A call of `RC-` and a reference runs the callback that is kept under the reference, on the
-- parameters and a function that answers the call. Then the entry is removed; if the callback
-- throws, the error is reported and the entry stays as the callback left it. No method must be
-- registered under that name.
pub execute_json-return :
    (g : Engine) (c : ℕ) (cs : Str) (ps : List Value) (cid : Value) (f : Fn) (s : Mobile)
    → lookup (js "RC-" ++ (c ∷ cs)) s.jx_methods ≡ none
    → lookup (c ∷ cs) s.ui_methods ≡ some (return_callback f)
    → execute_json g (record { method_name = js "RC-" ++ (c ∷ cs); params = some ps }) cid s
      ≡ return_outcome g (c ∷ cs) (apply g f (ps ++ function (answer cid) ∷ []) s)
unfolding dispatch
execute_json-return g c cs ps cid f s hm hu =
    rw
      (
        execute_json_lem g (record { method_name = js "RC-" ++ (c ∷ cs); params = some ps }) cid s
            (unfold js in refl),
        return_not_internal (c ∷ cs),
        hm,
        return_IsReturn c cs,
        drop-return (c ∷ cs),
        hu,
      )
      (return_settled g (c ∷ cs) (apply g f (ps ++ function (answer cid) ∷ []) s))
