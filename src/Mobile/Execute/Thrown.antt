-- ===== src/Mobile/Execute/Thrown.antt =====
-- What `executeJSON` lets out.
use node_apphost.Base.{
  ℕ, Str, js, Bool, true, false, List, [], ◌∷◌, ◌++◌, Option, none, some, if◌then◌else◌, is_empty,
  drop, ◌≡◌, refl, ◌∙◌, inl, inr, Bool-cases,
}
use node_apphost.Base.Dict.{lookup}
use node_apphost.Mobile.{
  Value, undefined, null, bool, text, array, function, values, truthy, Fn, user, answer, null_first,
  noop, Method, UiEntry, callback, return_callback, Mobile, Err, Res, ok, throw, M, ◌>>=◌, ◌>>◌,
  pure, fail, Engine,
}
use node_apphost.Mobile.Events.{
  split_callback, register_callback, send, call_native, apply, apply_value,
}
use node_apphost.Mobile.Methods.{
  unwrap, has_index_of, arg, rest_of, register_ui_method, send_report, report, require_path,
  load_file, load_main_file,
}
use node_apphost.Mobile.Execute.{
  Json, push, Internal, register_ui, load_main, inherited, inherited_returns, run_internal,
  sync_params, run_method, is_return, run_return, internal_method, dispatch, execute_json,
}
use node_apphost.Mobile.Execute.Failures.{caught, reported, execute_json_lem}

-- What is thrown, if anything is, is an object that takes a stack.
abbrev pub CanReport : {A : Type 0} → Res A → Type 0
CanReport (ok a s) = Unit {0}
CanReport (throw e s) = e.takes_stack ≡ true

abbrev pub IsTidy : {A : Type 0} → M A → Type 0
IsTidy m = (s : Mobile) → CanReport (m s)

IsTidy-bind_res :
    {A B : Type 0} (r : Res A) (f : A → M B)
    → CanReport r
    → ((a : A) → IsTidy (f a))
    → CanReport (elim r [ ok a s ↦ f a s | throw e s ↦ throw e s ])
IsTidy-bind_res (ok a s) f h k = k a s
IsTidy-bind_res (throw e s) f h k = h

IsTidy-bind :
    {A B : Type 0} (m : M A) (f : A → M B) → IsTidy m → ((a : A) → IsTidy (f a)) → IsTidy (m >>= f)
IsTidy-bind m f h k s = IsTidy-bind_res (m s) f (h s) k

IsTidy-then : {A B : Type 0} (m : M A) (k : M B) → IsTidy m → IsTidy k → IsTidy (m >> k)
IsTidy-then m k h hk = IsTidy-bind m (λ _. k) h (λ _. hk)

IsTidy-catch_res :
    {A : Type 0} (r : Res A) (f : Err → M A)
    → CanReport r
    → ((e : Err) → e.takes_stack ≡ true → IsTidy (f e))
    → CanReport (elim r [ ok a s ↦ ok a s | throw e s ↦ f e s ])
IsTidy-catch_res (ok a s) f h k = tt
IsTidy-catch_res (throw e s) f h k = k e h s

IsTidy-if : {A : Type 0} (b : Bool) (m k : M A) → IsTidy m → IsTidy k → IsTidy (if b then m else k)
IsTidy-if true m k hm hk = hm
IsTidy-if false m k hm hk = hk

-- The program's functions, its modules and the engine throw nothing but objects that take a stack.
pub record ThrowsObjects (g : Engine) : Type 0 where
  pub invoked : (n : ℕ) (args : List Value) → IsTidy (g.invoke n args)
  pub required : (path : Str) → IsTidy (g.require path)
  pub type_errors : g.type_error.takes_stack ≡ true

IsTidy-call_native : (name : Str) (args : List Value) → IsTidy (call_native name args)
unfolding call_native register_callback send
IsTidy-call_native name args s =
    elim (split_callback args).1
      as (λ f. CanReport (
        (register_callback f >>= λ cb. send (text name ∷ ((split_callback args).0 ++ text cb ∷ [])))
          s)) [ none ↦ tt | some f ↦ tt ]

module _ (g : Engine) (t : ThrowsObjects g) where
  IsTidy-apply : (f : Fn) (args : List Value) → IsTidy (apply g f args)
  unfolding apply
  IsTidy-apply (user n) args = t.invoked n args
  IsTidy-apply (answer cid) args =
      IsTidy-then (call_native (js "  _callback_  ") (array (values args) ∷ null ∷ cid ∷ []))
        (pure undefined)
        (IsTidy-call_native (js "  _callback_  ") (array (values args) ∷ null ∷ cid ∷ [])) (λ s. tt)
  IsTidy-apply (null_first f) [] = IsTidy-apply f (null ∷ undefined ∷ [])
  IsTidy-apply (null_first f) (v ∷ vs) = IsTidy-apply f (null ∷ v ∷ [])
  IsTidy-apply noop args = λ s. tt

  IsTidy-apply_value : (v : Value) (args : List Value) → IsTidy (apply_value g v args)
  unfolding apply_value
  IsTidy-apply_value (function f) args = IsTidy-apply f args
  IsTidy-apply_value _ args = λ s. t.type_errors

  IsTidy-report : (e : Err) → e.takes_stack ≡ true → IsTidy (report g e)
  unfolding report send_report call_native
  IsTidy-report e h s = rw h tt

  IsTidy-require_path : (path : Value) → IsTidy (require_path g path)
  unfolding require_path
  IsTidy-require_path (text path) = t.required _
  IsTidy-require_path _ = λ s. t.type_errors

  IsTidy-load_file : (path : Value) → IsTidy (load_file g path)
  unfolding load_file
  IsTidy-load_file path s =
      IsTidy-catch_res ((require_path g path >> pure (bool true, null)) s) _
        (IsTidy-then (require_path g path) (pure (bool true, null)) (IsTidy-require_path path)
          (λ s. tt) s)
        (λ e h. IsTidy-then (report g e) _ (IsTidy-report e h) (λ s. tt))

  IsTidy-load_main_file : (a b : Value) → IsTidy (load_main_file g a b)
  unfolding load_main_file
  IsTidy-load_main_file a b =
      IsTidy-if (has_index_of (unwrap a)) _ _
        (IsTidy-bind (load_file g (unwrap a)) _ (IsTidy-load_file (unwrap a)) (λ p.
          IsTidy-then (apply_value g b (p.0 ∷ p.1 ∷ [])) (pure undefined)
            (IsTidy-apply_value b (p.0 ∷ p.1 ∷ [])) (λ s. tt)))
        (λ s. refl)

  IsTidy-run_internal :
      (name : Str) (i : Internal) (ps : List Value) → IsTidy (run_internal g name i ps)
  unfolding run_internal register_ui_method
  IsTidy-run_internal name register_ui ps =
      IsTidy-if (has_index_of (unwrap (arg ps))) _ _ (λ s. tt) (λ s. refl)
  IsTidy-run_internal name load_main ps = IsTidy-load_main_file (arg ps) (arg (rest_of ps))
  IsTidy-run_internal name inherited ps =
      IsTidy-if (inherited_returns name (arg ps)) (pure undefined) (fail g.type_error) (λ s. tt)
        (λ s. t.type_errors)

  IsTidy-push : (ps : Option (List Value)) (w : Value) → IsTidy (push g ps w)
  unfolding push
  IsTidy-push none w = λ s. t.type_errors
  IsTidy-push (some ps) w = λ s. tt

  IsTidy-run_method :
      (m : Method) (ps : Option (List Value)) (cid : Value) → IsTidy (run_method g m ps cid)
  unfolding run_method
  IsTidy-run_method m ps cid =
      IsTidy-if m.is_synced _ _
        (IsTidy-bind (apply_value g m.method (sync_params ps)) _ (IsTidy-apply_value m.method _)
          (λ r.
            IsTidy-if (truthy cid) _ _
              (IsTidy-then (apply g (answer cid) (r ∷ [])) _ (IsTidy-apply (answer cid) _)
                (λ s. tt))
              (λ s. tt)))
        (IsTidy-apply_value m.method _)

  IsTidy-run_return :
      (ref : Str) (e : Option UiEntry) (ps : List Value) → IsTidy (run_return g ref e ps)
  unfolding run_return
  IsTidy-run_return ref (some (return_callback f)) ps =
      IsTidy-then (apply g f ps) _ (IsTidy-apply f ps) (λ s. tt)
  IsTidy-run_return ref (some (callback w)) ps = λ s. refl
  IsTidy-run_return ref none ps = λ s. refl

  IsTidy-dispatch :
      (json : Json) (cid : Value) (i : Option Internal) (m : Option Method)
      → IsTidy (dispatch g json cid i m)
  unfolding dispatch
  IsTidy-dispatch json cid (some i) m =
      IsTidy-bind (push g json.params (function (answer cid))) _ (IsTidy-push json.params _) (λ ps.
        IsTidy-then (run_internal g json.method_name i ps) _
          (IsTidy-run_internal json.method_name i ps) (λ s. tt))
  IsTidy-dispatch json cid none (some m) = IsTidy-run_method m json.params cid
  IsTidy-dispatch json cid none none =
      IsTidy-if (is_return json.method_name) _ _
        (IsTidy-bind (push g json.params (function (answer cid))) _ (IsTidy-push json.params _)
          (λ ps s.
            IsTidy-run_return (drop 3 json.method_name)
              (lookup (drop 3 json.method_name) s.ui_methods) ps s))
        (λ s. refl)

caught-ok :
    (g : Engine) (r : Res Value) → CanReport r → (v : Value) × (s : Mobile) × (caught g r ≡ ok v s)
caught-ok g (ok a s) h = (a, s, refl)
caught-ok g (throw e s) h = (undefined, reported g e s, rw h refl)

-- Whatever the call, the callback and the state are, `executeJSON` returns and does not throw, if the
-- program's functions and modules throw nothing but objects on which a stack can be set, such as
-- errors, and the engine's TypeErrors are such objects.
pub execute_json-ok :
    (g : Engine) (json : Json) (cid : Value) (s : Mobile)
    → ThrowsObjects g
    → (v : Value) × (s' : Mobile) × (execute_json g json cid s ≡ ok v s')
unfolding execute_json
execute_json-ok g json cid s t = elim (Bool-cases (is_empty json.method_name)) [
  | inl e ↦ (undefined, s, rw e refl)
  | inr ne ↦
      let (v, s', p) = caught-ok g _ (
        IsTidy-dispatch g t json cid (internal_method json.method_name)
          (lookup json.method_name s.jx_methods) s) in
      (v, s', execute_json_lem g json cid s ne ∙ p)
]
