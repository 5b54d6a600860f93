-- ===== src/Mobile/Start/Kept.antt =====
-- Every operation of the device's half keeps its invariant, if the program's functions do.
use node_apphost.Base.{ℕ, Str, js, List, [], ◌∷◌, ◌++◌, Option, none, some, ◌≡◌, refl, arith}
use node_apphost.Base.Dict.{lookup, remove}
use node_apphost.Mobile.{
  Value, undefined, null, bool, text, array, function, values, truthy, Fn, user, answer, null_first,
  noop, Target, wrapped, plain, Mobile, Err, ok, ◌>>◌, pure, Engine,
}
use node_apphost.Mobile.Events.{
  split_callback, on, callback_name, send, register_callback, call_native, apply, apply_value,
  Param, ping_args, fire, ping, register_to_native, get_from_native, or_noop, toggle,
}
use node_apphost.Mobile.Methods.{report, send_report}
use node_apphost.Mobile.Start.{state_of}
use node_apphost.Mobile.Start.Sound.{
  IsSound, IsOther, Keeps, Keeps-bind, Keeps-then, Keeps-pure, IsSound-if, Keeps-if,
  callback_name-IsOther, Lifecycle-insert, Lifecycle-remove, Named-insert, Named-insert-plain,
  Named-remove,
}

pub Keeps-send : (args : List Value) → Keeps (send args)
unfolding send
Keeps-send args s v = record {
  counted = v.counted;
  returns = v.returns;
  named = v.named;
  lifecycle = v.lifecycle;
}

Keeps-register_callback : (f : Option Fn) → Keeps (register_callback f)
unfolding register_callback
Keeps-register_callback none s v = v
Keeps-register_callback (some f) s v =
    let cb = callback_name s.event_id in
    record {
      counted = omega arith;
      returns = v.returns;
      named = Named-insert cb s.event_id f s.events refl v.named;
      lifecycle =
          Lifecycle-insert cb (wrapped cb f) s.events (callback_name-IsOther s.event_id)
            v.lifecycle;
    }

pub Keeps-call_native : (name : Str) (args : List Value) → Keeps (call_native name args)
unfolding call_native
Keeps-call_native name args =
    Keeps-bind (register_callback (split_callback args).1)
      (λ cb. send (text name ∷ ((split_callback args).0 ++ text cb ∷ [])))
      (Keeps-register_callback (split_callback args).1) (λ cb. Keeps-send _)

pub Keeps-send_report : (g : Engine) (e : Err) → Keeps (send_report g e)
unfolding send_report
Keeps-send_report g e = Keeps-call_native _ _

pub Keeps-report : (g : Engine) (e : Err) → Keeps (report g e)
unfolding report
Keeps-report g e =
    Keeps-if e.takes_stack (send_report g (record e { stack = g.captured_stack e })) _
      (Keeps-send_report g (record e { stack = g.captured_stack e })) (λ s v. v)

-- The program's own functions and modules keep the invariant.
pub record IsTame (g : Engine) : Type 0 where
  pub invoked : (n : ℕ) (args : List Value) → Keeps (g.invoke n args)
  pub required : (path : Str) → Keeps (g.require path)

module _ (g : Engine) (t : IsTame g) where
  pub Keeps-apply : (f : Fn) (args : List Value) → Keeps (apply g f args)
  unfolding apply
  Keeps-apply (user n) args = t.invoked n args
  Keeps-apply (answer cid) args =
      Keeps-then (call_native (js "  _callback_  ") (array (values args) ∷ null ∷ cid ∷ []))
        (pure undefined)
        (Keeps-call_native (js "  _callback_  ") (array (values args) ∷ null ∷ cid ∷ []))
        (Keeps-pure undefined)
  Keeps-apply (null_first f) [] = Keeps-apply f (null ∷ undefined ∷ [])
  Keeps-apply (null_first f) (v ∷ vs) = Keeps-apply f (null ∷ v ∷ [])
  Keeps-apply noop args = Keeps-pure undefined

  pub Keeps-apply_value : (v : Value) (args : List Value) → Keeps (apply_value g v args)
  unfolding apply_value
  Keeps-apply_value (function f) args s v = Keeps-apply f args s v
  Keeps-apply_value _ args s v = v

  IsSound-forget :
      (cb : Str) (n : ℕ) (s : Mobile)
      → cb ≡ callback_name n
      → IsSound s
      → IsSound (record s { events = remove cb s.events })
  IsSound-forget cb n s e v = record {
    counted = v.counted;
    returns = v.returns;
    named = Named-remove cb s.events v.named;
    lifecycle = Lifecycle-remove cb s.events (rw e (callback_name-IsOther n)) v.lifecycle;
  }

  IsSound-fire :
      (name : Str) (found : Option Target) (x : List Value) (s : Mobile)
      → ((cb : Str) (f : Fn)
          → found ≡ some (wrapped cb f)
          → (n : ℕ) × (name ≡ cb) × (cb ≡ callback_name n))
      → IsSound s
      → IsSound (state_of (fire g name found x s))
  unfolding fire
  IsSound-fire name none x s h v = record {
    counted = v.counted;
    returns = v.returns;
    named = v.named;
    lifecycle = v.lifecycle;
  }
  IsSound-fire name (some (plain w)) x s h v = Keeps-apply_value w x s v
  IsSound-fire name (some (wrapped cb f)) x s h v =
      let (n, same, e) = h cb f refl in Keeps-apply f x _ (IsSound-forget cb n s e v)

  pub Keeps-ping : (name : Str) (param : Param) → Keeps (ping g name param)
  unfolding ping
  Keeps-ping name param s v =
      IsSound-if (ping_args g param).2 (ok (ping_args g param).0 s) _ v
        (IsSound-fire name (lookup name s.events) (ping_args g param).1 s (v.named name) v)

  pub Keeps-register_to_native :
      (name : Str) (target : Value) → IsOther name → Keeps (register_to_native g name target)
  unfolding register_to_native on
  Keeps-register_to_native name target h =
      Keeps-if g.is_android (on name (plain target)) _
        (λ s v. record {
          counted = v.counted;
          returns = v.returns;
          named = Named-insert-plain name target s.events v.named;
          lifecycle = Lifecycle-insert name (plain target) s.events h v.lifecycle;
        })
        (λ s v. record {
          counted = v.counted;
          returns = v.returns;
          named = v.named;
          lifecycle = v.lifecycle;
        })

  pub Keeps-get_from_native : (name : Str) (f : Value) → Keeps (get_from_native g name f)
  unfolding get_from_native
  Keeps-get_from_native name (function f) s v =
      Keeps-call_native name (function (null_first f) ∷ []) s v
  Keeps-get_from_native name _ s v = v

  pub Keeps-toggle : (name : Str) (enabled f : Value) → Keeps (toggle g name enabled f)
  unfolding toggle
  Keeps-toggle name enabled f =
      Keeps-if g.is_android (call_native name (bool (truthy enabled) ∷ function (or_noop f) ∷ []))
        (apply g (or_noop f) (text (js "Warning: iOS does not support " ++ name) ∷ []) >> pure tt)
        (Keeps-call_native name (bool (truthy enabled) ∷ function (or_noop f) ∷ []))
        (Keeps-then (apply g (or_noop f) (text (js "Warning: iOS does not support " ++ name) ∷ []))
          (pure tt) (Keeps-apply (or_noop f) _) (Keeps-pure tt))
