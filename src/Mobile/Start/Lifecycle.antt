-- ===== src/Mobile/Start/Lifecycle.antt =====
-- From the loading of the file to the events for the life of the device.
use node_apphost.Base.{
  ℕ, zero, suc, Str, js, str_eq, true, false, List, [], ◌∷◌, ◌≡◌, refl, arith, All,
}
use node_apphost.Base.Dict.{Dict, lookup, insert}
use node_apphost.Mobile.{
  Value, undefined, function, user, Target, plain, Mobile, Err, Engine, ◌>>◌, pure,
}
use node_apphost.Mobile.Events.{
  Param, ping_args, on, apply, apply_value, fire, ping, register_to_native,
}
use node_apphost.Mobile.Start.{
  Emit, resume_name, pause_name, status_name, first, with_lifecycle, engine_of, Boot, start_up, Op,
  turns,
}
use node_apphost.Mobile.Start.Sound.{
  IsSound, Lifecycle, Named, Named-insert-plain, Registered, Keeps, Keeps-then,
}
use node_apphost.Mobile.Start.Kept.{IsTame}
use node_apphost.Mobile.Start.Whole.{Allowed, turns-IsSound}

-- The module's variables as their declarations set them.
pub record IsFresh (s : Mobile) : Type 0 where
  pub no_events : s.events ≡ []
  pub no_callback : s.event_id ≡ 0
  pub no_reference : s.return_reference_counter ≡ 0

module _ (g : Engine) (emit : Emit) (t : IsTame g)
    (emits : (name : Str) (args : List Value) → Keeps (emit name args)) where
  invoked : (n : ℕ) (args : List Value) → Keeps (with_lifecycle g emit n args)
  unfolding with_lifecycle
  invoked zero args = Keeps-then (emit (js "resume") []) _ (emits _ _) (λ s v. v)
  invoked (suc zero) args = Keeps-then (emit (js "pause") []) _ (emits _ _) (λ s v. v)
  invoked (suc (suc zero)) args =
      Keeps-then (emit (js "connectionStatusChanged") (first args ∷ [])) _ (emits _ _) (λ s v. v)
  invoked (suc (suc (suc n))) args = t.invoked n args

  engine_of-IsTame : IsTame (engine_of g emit)
  engine_of-IsTame = record { invoked = invoked; required = t.required }

-- The table with the three functions.
listening : Dict Target → Dict Target
listening events = insert status_name (plain (function (user 2))) (
    insert pause_name (plain (function (user 1)))
      (insert resume_name (plain (function (user 0))) events))

start_up_lem :
    (g : Engine) (source : Str) (b : Boot)
    → g.is_android ≡ true
    → (start_up g source b).mobile ≡ record (b.mobile) { events = listening b.mobile.events }
unfolding start_up register_to_native on listening
start_up_lem g source b android = rw android

Named-listening : Named (listening [])
unfolding listening lookup
Named-listening = Named-insert-plain status_name _ _ (
    Named-insert-plain pause_name _ _
      (Named-insert-plain resume_name _ [] (λ k cb f e. absurd (cc))))

Lifecycle-listening : Lifecycle (listening [])
unfolding listening resume_name pause_name status_name js lookup insert str_eq
Lifecycle-listening = (refl, refl, refl)

pub start_up-IsSound :
    (g : Engine) (source : Str) (b : Boot)
    → g.is_android ≡ true
    → IsFresh b.mobile
    → IsSound (start_up g source b).mobile
start_up-IsSound g source b android fresh = rw (start_up_lem g source b android) (record {
  counted = omega (arith, fresh.no_callback);
  returns = omega (arith, fresh.no_reference);
  named = rw fresh.no_events Named-listening;
  lifecycle = rw fresh.no_events Lifecycle-listening;
})

-- What native code's event runs: the registered function, on the arguments that come with it.
delivered :
    (g : Engine) (emit : Emit) (name : Str) (n : ℕ) (param : Param) (s : Mobile)
    → (ping_args (engine_of g emit) param).2 ≡ false
    → Registered name n s.events
    → ping (engine_of g emit) name param s
      ≡ with_lifecycle g emit n (ping_args (engine_of g emit) param).1 s
unfolding ping fire apply_value apply
delivered g emit name n param s read h = rw (read, h)

-- After the file has been loaded on Android, and after whatever has come in since, an event of
-- native code for resume, pause or a change of the connection makes the process emit that event,
-- the last one with the status that native code sent, each time that it comes with arguments that
-- can be read; as long as the program's functions, modules and listeners keep the invariant, and
-- nothing else is registered under the three names.
pub lifecycle_delivered :
    (g : Engine) (emit : Emit) (source : Str) (b : Boot) (capture : Err → Err) (ops : List Op)
    (param : Param)
    → IsTame g
    → ((name : Str) (args : List Value) → Keeps (emit name args))
    → g.is_android ≡ true
    → IsFresh b.mobile
    → All Allowed ops
    → (ping_args (engine_of g emit) param).2 ≡ false
    → let e = engine_of g emit in
      let s = turns e capture ops (start_up e source b).mobile in
      (ping e resume_name param s ≡ (emit (js "resume") [] >> pure undefined) s)
      × (ping e pause_name param s ≡ (emit (js "pause") [] >> pure undefined) s)
      × (ping e status_name param s
          ≡ (emit (js "connectionStatusChanged") (first (ping_args e param).1 ∷ [])
                >> pure undefined)
              s)
unfolding with_lifecycle
lifecycle_delivered g emit source b capture ops param t emits android fresh allowed read =
    let e = engine_of g emit in
    let v =
      turns-IsSound e (engine_of-IsTame g emit t emits) capture ops (start_up e source b).mobile
        allowed (start_up-IsSound e source b android fresh) in
    let (r, p, c) = v.lifecycle in
    (
      delivered g emit resume_name 0 param _ read r,
      delivered g emit pause_name 1 param _ read p,
      delivered g emit status_name 2 param _ read c,
    )
