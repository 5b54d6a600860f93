-- ===== src/Mobile/Start/Whole.antt =====
-- The invariant is kept by the methods, by `executeJSON`, and by every turn of the event loop.
use node_apphost.Base.{Str, true, List, [], ◌∷◌, Option, none, some, arith, is_empty, drop, All}
use node_apphost.Base.Dict.{lookup}
use node_apphost.Mobile.{
  Value, undefined, null, bool, text, array, function, values, truthy, Fn, answer, Method, UiEntry,
  callback, return_callback, Mobile, Err, Res, ok, throw, ◌>>◌, pure, fail, Engine,
}
use node_apphost.Mobile.Events.{
  split_callback, apply, apply_value, ping, get_documents_path, get_device_name,
  get_connection_status, toggle_bluetooth, toggle_wifi,
}
use node_apphost.Mobile.Methods.{
  register_sync, register_async, unregister, keep_callback, call_entry, call_with, call,
  register_ui_method, report, require_path, load_file, load_main_file, unwrap, has_index_of, arg,
}
use node_apphost.Mobile.Execute.{
  Json, Internal, register_ui, load_main, inherited, inherited_returns, internal_method,
  run_internal, run_method, run_return, push, sync_params, is_return, dispatch, execute_json,
}
use node_apphost.Mobile.Start.{
  Op, native_call, pinged, json_call, ui_call, listen, provide_sync, provide_async, withdraw,
  documents_path, connection_status, device_name, bluetooth, wifi, run_op, uncaught, turn, turns,
  state_of,
}
use node_apphost.Mobile.Start.Sound.{
  IsSound, IsOther, Keeps, Keeps-bind, Keeps-then, Keeps-catch, Keeps-pure, Keeps-fail, Keeps-if,
  IsSound-if,
}
use node_apphost.Mobile.Start.Kept.{
  IsTame, Keeps-call_native, Keeps-report, Keeps-send_report, Keeps-apply, Keeps-apply_value,
  Keeps-ping, Keeps-register_to_native, Keeps-get_from_native, Keeps-toggle,
}

-- A change of the tables of methods alone.
IsSound-tables :
    (s : Mobile) (ms : _) (us : _)
    → IsSound s
    → IsSound (record s { jx_methods = ms; ui_methods = us })
IsSound-tables s ms us v = record {
  counted = v.counted;
  returns = v.returns;
  named = v.named;
  lifecycle = v.lifecycle;
}

Keeps-keep_callback :
    (name : Str) (ps : List Value) (f : Option Fn) → Keeps (keep_callback name ps f)
unfolding keep_callback
Keeps-keep_callback name ps none s v = v
Keeps-keep_callback name ps (some f) s v = record {
  counted = v.counted;
  returns = omega arith;
  named = v.named;
  lifecycle = v.lifecycle;
}

-- What may come in: the three names for the life of the device are not registered anew.
abbrev pub Allowed : Op → Type 0
Allowed (listen name target) = IsOther name
Allowed _ = Unit

module _ (g : Engine) (t : IsTame g) where
  Keeps-call_entry : (e : Option UiEntry) (args : List Value) → Keeps (call_entry g e args)
  unfolding call_entry
  Keeps-call_entry none args s v = v
  Keeps-call_entry (some (callback w)) args s v = Keeps-apply_value g t w args s v
  Keeps-call_entry (some (return_callback f)) args s v = v

  Keeps-call_with :
      (name : Str) (e : Option UiEntry) (p : List Value × Option Fn) → Keeps (call_with g name e p)
  unfolding call_with
  Keeps-call_with name none (front, f) s v = v
  Keeps-call_with name (some e) (front, f) s v =
      Keeps-bind (keep_callback name front f) _ (Keeps-keep_callback name front f)
        (λ ps.
          Keeps-then (call_entry g (some e) (text name ∷ array (values ps) ∷ null ∷ [])) (pure tt)
            (Keeps-call_entry (some e) _) (Keeps-pure tt))
        s v

  Keeps-call : (name : Str) (params : List Value) → Keeps (call g name params)
  unfolding call
  Keeps-call name params s v = Keeps-call_with name _ (split_callback params) s v

  Keeps-register_ui_method : (a b : Value) → Keeps (register_ui_method g a b)
  unfolding register_ui_method
  Keeps-register_ui_method a b =
      Keeps-if (has_index_of (unwrap a)) _ _ (λ s v. IsSound-tables s s.jx_methods _ v) (λ s v. v)

  Keeps-require_path : (path : Value) → Keeps (require_path g path)
  unfolding require_path
  Keeps-require_path (text path) s v = t.required _ s v
  Keeps-require_path _ s v = v

  Keeps-load_file : (path : Value) → Keeps (load_file g path)
  unfolding load_file
  Keeps-load_file path =
      Keeps-catch (require_path g path >> pure (bool true, null)) _
        (Keeps-then (require_path g path) _ (Keeps-require_path path) (λ s v. v))
        (λ e. Keeps-then (report g e) _ (Keeps-report g e) (λ s v. v))

  Keeps-load_main_file : (a b : Value) → Keeps (load_main_file g a b)
  unfolding load_main_file
  Keeps-load_main_file a b =
      Keeps-if (has_index_of (unwrap a)) _ _
        (Keeps-bind (load_file g (unwrap a)) _ (Keeps-load_file _) (λ p.
          Keeps-then (apply_value g b (p.0 ∷ p.1 ∷ [])) _ (Keeps-apply_value g t b _) (λ s v. v)))
        (λ s v. v)

  Keeps-run_internal :
      (name : Str) (i : Internal) (ps : List Value) → Keeps (run_internal g name i ps)
  unfolding run_internal
  Keeps-run_internal name register_ui ps s v = Keeps-register_ui_method _ _ s v
  Keeps-run_internal name load_main ps s v = Keeps-load_main_file _ _ s v
  Keeps-run_internal name inherited ps s v =
      Keeps-if (inherited_returns name (arg ps)) (pure undefined) (fail g.type_error)
        (Keeps-pure undefined) (Keeps-fail Value g.type_error) s v

  Keeps-push : (ps : Option (List Value)) (w : Value) → Keeps (push g ps w)
  unfolding push
  Keeps-push none w s v = v
  Keeps-push (some ps) w s v = v

  Keeps-run_method :
      (m : Method) (ps : Option (List Value)) (cid : Value) → Keeps (run_method g m ps cid)
  unfolding run_method
  Keeps-run_method m ps cid =
      Keeps-if m.is_synced _ _
        (Keeps-bind (apply_value g m.method (sync_params ps)) _ (Keeps-apply_value g t m.method _)
          (λ r.
            Keeps-if (truthy cid) _ _
              (Keeps-then (apply g (answer cid) (r ∷ [])) _ (Keeps-apply g t (answer cid) _)
                (λ s v. v))
              (λ s v. v)))
        (Keeps-apply_value g t m.method _)

  Keeps-run_return :
      (ref : Str) (e : Option UiEntry) (ps : List Value) → Keeps (run_return g ref e ps)
  unfolding run_return
  Keeps-run_return ref (some (return_callback f)) ps s v =
      Keeps-then (apply g f ps) _ (Keeps-apply g t f ps) (λ s v. IsSound-tables s s.jx_methods _ v)
        s v
  Keeps-run_return ref (some (callback w)) ps s v = v
  Keeps-run_return ref none ps s v = v

  Keeps-dispatch :
      (json : Json) (cid : Value) (i : Option Internal) (m : Option Method)
      → Keeps (dispatch g json cid i m)
  unfolding dispatch
  Keeps-dispatch json cid (some i) m s v =
      Keeps-bind (push g json.params (function (answer cid))) _ (Keeps-push json.params _)
        (λ ps.
          Keeps-then (run_internal g json.method_name i ps) _
            (Keeps-run_internal json.method_name i ps) (λ s v. v))
        s v
  Keeps-dispatch json cid none (some m) s v = Keeps-run_method m json.params cid s v
  Keeps-dispatch json cid none none s v =
      Keeps-if (is_return json.method_name) _ _
        (Keeps-bind (push g json.params (function (answer cid))) _ (Keeps-push json.params _)
          (λ ps s v.
            Keeps-run_return (drop 3 json.method_name)
              (lookup (drop 3 json.method_name) s.ui_methods) ps s v))
        (λ s v. v) s v

  Keeps-execute_json : (json : Json) (cid : Value) → Keeps (execute_json g json cid)
  unfolding execute_json
  Keeps-execute_json json cid s v = IsSound-if (is_empty json.method_name) (ok undefined s) _ v (
      Keeps-catch
        (dispatch g json cid (internal_method json.method_name)
          (lookup json.method_name s.jx_methods))
        _ (Keeps-dispatch json cid _ _)
        (λ e. Keeps-then (report g e) _ (Keeps-report g e) (λ s v. v)) s v)

  Keeps-run_op : (op : Op) → Allowed op → Keeps (run_op g op)
  unfolding run_op get_documents_path get_connection_status get_device_name toggle_bluetooth
      toggle_wifi register_sync register_async unregister
  Keeps-run_op (native_call name args) h s v = Keeps-call_native name args s v
  Keeps-run_op (pinged name param) h s v =
      Keeps-then (ping g name param) _ (Keeps-ping g t name param) (λ s v. v) s v
  Keeps-run_op (json_call json cid) h s v =
      Keeps-then (execute_json g json cid) _ (Keeps-execute_json json cid) (λ s v. v) s v
  Keeps-run_op (ui_call name params) h s v = Keeps-call name params s v
  Keeps-run_op (listen name target) h s v = Keeps-register_to_native g t name target h s v
  Keeps-run_op (provide_sync name target) h s v = IsSound-tables s _ s.ui_methods v
  Keeps-run_op (provide_async name target) h s v = IsSound-tables s _ s.ui_methods v
  Keeps-run_op (withdraw name) h s v = IsSound-tables s _ s.ui_methods v
  Keeps-run_op (documents_path f) h s v = Keeps-get_from_native g t _ f s v
  Keeps-run_op (connection_status f) h s v = Keeps-get_from_native g t _ f s v
  Keeps-run_op (device_name f) h s v = Keeps-get_from_native g t _ f s v
  Keeps-run_op (bluetooth enabled f) h s v = Keeps-toggle g t _ enabled f s v
  Keeps-run_op (wifi enabled f) h s v = Keeps-toggle g t _ enabled f s v

  IsSound-uncaught :
      (capture : Err → Err) (r : Res (Unit {0}))
      → IsSound (state_of r)
      → IsSound (uncaught g capture r)
  unfolding uncaught
  IsSound-uncaught capture (ok a s) v = v
  IsSound-uncaught capture (throw e s) v = Keeps-send_report g (capture e) s v

  -- Whatever comes in, in whatever order, and whether it throws or not: the counter of callbacks
  -- stays below 100,000 and that of returned references below 9,999, every wrapped callback stands
  -- under the name that it forgets, which is one of the counter's, and the functions for resume, pause and the connection stay registered,
  -- as long as the program's functions and modules keep this and nothing takes their three names.
  pub turns-IsSound :
      (capture : Err → Err) (ops : List Op) (s : Mobile)
      → All Allowed ops
      → IsSound s
      → IsSound (turns g capture ops s)
  unfolding turns turn
  turns-IsSound capture [] s h v = v
  turns-IsSound capture (op ∷ ops) s (h, hs) v =
      turns-IsSound capture ops _ hs
        (IsSound-uncaught capture (run_op g op s) (Keeps-run_op op h s v))
