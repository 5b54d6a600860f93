-- ===== src/Wrapper/Natives/Called.antt =====
-- What a call of a native method by its name runs.
use node_apphost.Base.{
  ℕ, ◌+◌, ◌<◌, ◌≤◌, Str, true, List, [], ◌∷◌, ◌++◌, Option, none, some, ◌≡◌, refl, sym, arith,
  if◌then◌else◌, ◌&&◌, str_eq, ap, ◌∙◌, length, All, get_elem?-bound, ltb,
}
use node_apphost.Base.Options.{◌>>=◌}
use node_apphost.Base.Dict.{lookup}
use node_apphost.Mobile.Methods.{is_inherited}
use node_apphost.Wrapper.{Js, js_int32, js_string}
use node_apphost.Wrapper.Calls.{Returned, throws}
use node_apphost.Wrapper.Natives.{
  Vm, Target, process_natives, host_object, same_target, Natives, no_natives, start_natives,
  run_callback, call_method, Registration, register_natives, extension_callback,
}
use node_apphost.Wrapper.Natives.Linked.{Linked}
use node_apphost.Wrapper.Natives.Named.{
  last_callback, on_process, AllLinked, HasName, defined, registered_early, registered_later,
}

-- What a call answers, by the callback that the method stands for, if there is one.
abbrev pub answer_for : Vm → Target → Str → List Js → Option ℕ → Option Returned
answer_for vm target name args (some callback) = run_callback vm callback args
answer_for vm process_natives name args none =
    if is_inherited name
    then vm.other process_natives name args
    else some (throws (js_string (vm.type_error name)))
answer_for vm (host_object o) name args none = vm.other (host_object o) name args

-- V8 tells that a small number is unsigned.
abbrev pub ReadsNumbers : Vm → Type 0
ReadsNumbers vm = (n : ℕ) → n < 2147483648 → vm.uint32 (js_int32 n) ≡ some n

pub call_method-Linked :
    (vm : Vm) (t : Target) (k : Str) (args : List Js) (n : Natives) (a : Option ℕ)
    → ReadsNumbers vm
    → length n.callbacks ≤ 1024
    → Linked n t k a
    → call_method vm t k args n ≡ answer_for vm t k args a
unfolding call_method extension_callback
call_method-Linked vm process_natives k args n none u b h = rw h refl
call_method-Linked vm (host_object o) k args n none u b h = rw h refl
call_method-Linked vm t k args n (some callback) u b (id, name, p, q) =
    let i : id < 1024 = omega (arith, get_elem?-bound n.callbacks id (name, callback) q) in
    let e : ltb id 2147483648 ≡ true = ground arith in rw (p, u id (omega arith), q, e) refl

last_callback-append :
    (t : Target) (k : Str) (acc : Option ℕ) (rs ss : List Registration)
    → last_callback t k acc (rs ++ ss) ≡ last_callback t k (last_callback t k acc rs) ss
last_callback-append t k acc [] ss = refl
last_callback-append t k acc (r ∷ rs) ss =
    last_callback-append t k
      (if same_target r.target t && str_eq r.method k then some r.callback else acc) rs ss

-- The start, behind the registrations before it.
pub started_Linked :
    (vm : Vm) (before : List (Str × ℕ))
    → All (HasName vm) (on_process before)
    → length before ≤ 1024
    → (m : Natives) × ((register_natives vm (on_process before) no_natives >>= start_natives vm)
        ≡ some m)
      × (m.callbacks ≡ before)
      × (m.running ≡ true)
      × AllLinked m (λ t k. last_callback t k none (on_process before))
unfolding start_natives no_natives
started_Linked vm before h b =
    let (m, p, c, r, l) =
      defined vm 0 before (record { callbacks = before; proxies = λ t. []; running = true })
        (λ t k. none) refl (λ j. let e : 0 + j ≡ j = omega arith in rw e refl) b h
        (λ t k. unfold lookup in refl) in
    (
      m,
      ap (λ x. x >>= start_natives vm) (registered_early vm before no_natives refl (omega arith))
          ∙ p,
      c,
      r,
      l,
    )

-- Native methods that are registered for `process.natives` before the start of the engine, and later
-- for any object, up to 1024 in all with names that make a script, in a V8 that reads small
-- numbers as unsigned: every registration succeeds, and a call of a method in JavaScript then
-- runs the callback that was registered last for that object and name, whether before the start or
-- after it. Where there is none, a call of `process.natives` throws a TypeError, except for a name that
-- every object inherits, which is left to V8, as is any such call of another object.
pub call_method-last :
    (vm : Vm) (before : List (Str × ℕ)) (later : List Registration)
    → ReadsNumbers vm
    → All (HasName vm) (on_process before)
    → All (HasName vm) later
    → length before + length later ≤ 1024
    → (n : Natives) × (((register_natives vm (on_process before) no_natives >>= start_natives vm)
          >>= register_natives vm later)
        ≡ some n)
      × ((t : Target) (name : Str) (args : List Js)
          → call_method vm t name args n
            ≡ answer_for vm t name args (last_callback t name none (on_process before ++ later)))
call_method-last vm before later u hb hl b =
    let (m, p, c, r, l) = started_Linked vm before hb (omega arith) in
    let (n, q, d, k) =
      registered_later vm later m (λ t k. last_callback t k none (on_process before)) r
        (let e : length m.callbacks ≡ length before = ap length c in omega arith) hl l in
    (
      n,
      ap (λ x. x >>= register_natives vm later) p ∙ q,
      λ t name args.
          call_method-Linked vm t name args n _ u d (k t name)
          ∙ ap (answer_for vm t name args)
              (sym (last_callback-append t name none (on_process before) later)),
    )
