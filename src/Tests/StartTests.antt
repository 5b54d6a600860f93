-- ===== src/Tests/StartTests.antt =====
-- The start of the device's half, and what comes in behind it.
use node_apphost.Base.{some, ℕ, js, str_eq, true, List, [], ◌∷◌, ◌++◌, ◌≡◌, refl, All}
use node_apphost.Mobile.{
  null, text, Value, undefined, function, user, Mobile, Err, ok, throw, Engine, ◌>>◌, pure,
}
use node_apphost.Mobile.Events.{Param, fields, items, ping_args, ping}
use node_apphost.Mobile.Start.{
  Emit, resume_name, pause_name, status_name, first, engine_of, Boot, start_up, Op, native_call,
  pinged, listen, turns,
}
use node_apphost.Mobile.Start.Sound.{IsSound, Keeps}
use node_apphost.Mobile.Start.Kept.{IsTame}
use node_apphost.Mobile.Start.Whole.{Allowed, turns-IsSound}
use node_apphost.Mobile.Start.Lifecycle.{start_up-IsSound, lifecycle_delivered}

abbrev boom : Err
boom = record { takes_stack = true; message = text (98 ∷ []); stack = [] }

-- Every function of the program throws.
abbrev g : Engine
g = record {
  is_android = true;
  invoke = λ n args s. throw boom s;
  require = λ f s. ok tt s;
  json_parse = λ s. some null;
  parse_error = undefined;
  stringify = λ s. s;
  value_text = λ v. [];
  in_cwd = λ f. f;
  type_error = boom;
  error_stack = λ m. m;
  captured_stack = λ e. e.stack;
}

-- A listener that is seen by what it notes.
abbrev emit : Emit
emit name args s = ok tt (record s { warned = s.warned ++ name ∷ [] })

abbrev fresh : Mobile
fresh = record {
  events = [];
  event_id = 0;
  jx_methods = [];
  ui_methods = [];
  return_reference_counter = 0;
  sent = [];
  warned = [];
  native_events = [];
}

abbrev boot : Boot
boot = record { mobile = fresh; tasks = []; fs_source = js "fs" }

-- A native call with a callback, its answer, which throws, and a function that is registered.
abbrev ops : List Op
ops =
    native_call (js "ScreenInfo") (function (user 3) ∷ [])
    ∷ pinged (js "$$jxcore_callback_0") (items [])
    ∷ listen (js "fromJXcore") (function (user 4))
    ∷ []

g-IsTame : IsTame g
g-IsTame = record { invoked = λ n args s v. v; required = λ f s v. v }

emits : (name : List ℕ) (args : List Value) → Keeps (emit name args)
emits name args s v = record {
  counted = v.counted;
  returns = v.returns;
  named = v.named;
  lifecycle = v.lifecycle;
}

ops-Allowed : All Allowed ops
unfolding js str_eq resume_name pause_name status_name
ops-Allowed = (tt, (tt, ((refl, refl, refl), tt)))

-- What the activity sends: `{}`, which reads as some value.
abbrev event : Param
event = fields [] (js "{}")

lifecycle_delivered_example :
    let e = engine_of g emit in
    let s = turns e (λ x. x) ops (start_up e (js "f") boot).mobile in
    (ping e resume_name event s ≡ (emit (js "resume") [] >> pure undefined) s)
    × (ping e pause_name event s ≡ (emit (js "pause") [] >> pure undefined) s)
    × (ping e status_name event s
        ≡ (emit (js "connectionStatusChanged") (first (null ∷ []) ∷ []) >> pure undefined) s)
unfolding js ping_args
lifecycle_delivered_example =
    lifecycle_delivered g emit (js "f") boot (λ x. x) ops event g-IsTame emits refl
      (record { no_events = refl; no_callback = refl; no_reference = refl }) ops-Allowed refl

turns-IsSound_example : IsSound (turns g (λ x. x) ops (start_up g (js "f") boot).mobile)
turns-IsSound_example =
    turns-IsSound g g-IsTame (λ x. x) ops (start_up g (js "f") boot).mobile ops-Allowed
      (start_up-IsSound g (js "f") boot refl
        (record { no_events = refl; no_callback = refl; no_reference = refl }))
