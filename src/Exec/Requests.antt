-- ===== src/Exec/Requests.antt =====
-- Requests to native code that are made twice.
use node_apphost.Base.{
  ℕ, suc, Str, js, str_eq, Bool, true, false, [], ◌∷◌, ◌++◌, Option, some, if◌then◌else◌, ◌&&◌,
  is_empty, length, drop, ◌≡◌, refl, sym, ap, ◌∙◌, arith, str_eq-false, str_eq_refl, Bool-cases,
  inl, inr,
}
use node_apphost.Base.Decimal.{decimal, decimal-injective}
use node_apphost.Base.Dict.{lookup, insert, lookup-insert_self, lookup-insert_other}
use node_apphost.Exec.Bridge.{
  Bridge, Native, Request, js_object, execute, exec, exec_with, mode_set, JsMode, is_object_mode,
  Call, set_js_mode, exec_by_prompt, send_request, prompt, queue_messages, exec_in_mode,
}
use node_apphost.Exec.Wire.{drop-append}

exec-some :
    (w : Native) (r : Request) (b : Bridge) (secret : ℕ) (m : JsMode)
    → b.bridge_secret ≡ some secret
    → b.js_mode ≡ some m
    → exec w r b ≡ some (exec_in_mode w r b)
unfolding exec exec_with mode_set
exec-some w r b secret m hs hm =
    ap (λ o. exec_with w o r b) hs ∙ ap (λ o. some (exec_in_mode w r (mode_set w o b))) hm

if-true : {A : Type 0} (c : Bool) (x y : A) → c ≡ true → (if c then x else y) ≡ x
if-true true x y h = refl
if-true false x y h = cc

object_mode_refused :
    (m : Option JsMode) (msgs : Str)
    → m ≡ some js_object
    → msgs ≡ js "@Null arguments."
    → is_object_mode m && str_eq msgs (js "@Null arguments.") ≡ true
unfolding is_object_mode
object_mode_refused m msgs hm hr = rw (hm, hr) (str_eq_refl (js "@Null arguments."))

-- The request as `execute` passes it on.
abbrev pub call_of : Bool → Request → ℕ → Call
call_of by_prompt r n = execute by_prompt r.service r.action (r.service ++ decimal n) r.args_json

exec_in_mode-again :
    (w : Native) (r : Request) (b : Bridge)
    → b.js_mode ≡ some js_object
    → w.reply (call_of b.prefers_prompt r b.callback_id) ≡ js "@Null arguments."
    → exec_in_mode w r b
      ≡ set_js_mode w js_object (exec_by_prompt w r (set_js_mode w prompt (send_request w r b).1))
unfolding exec_in_mode
exec_in_mode-again w r b hm hr =
    if-true _ _ _ (unfold send_request in object_mode_refused b.js_mode _ hm hr)

kept_fields :
    (msgs : Str) (b : Bridge)
    → ((queue_messages msgs b).callbacks ≡ b.callbacks) × ((queue_messages msgs b).calls ≡ b.calls)
unfolding queue_messages
kept_fields msgs b = elim (Bool-cases (is_empty msgs)) [
  | inl e ↦ rw e (refl, refl)
  | inr e ↦ rw e (refl, refl)
]

sent-callbacks :
    (w : Native) (r : Request) (b : Bridge) (f : ℕ)
    → r.callbacks.success ≡ some f
    → (send_request w r b).1.callbacks
      ≡ insert (r.service ++ decimal b.callback_id) r.callbacks b.callbacks
unfolding send_request
sent-callbacks w r b f hc = rw hc

-- What the second request leaves.
again : Native → Request → Bridge → Bridge
again w r b =
    set_js_mode w js_object (exec_by_prompt w r (set_js_mode w prompt (send_request w r b).1))

again-callbacks :
    (w : Native) (r : Request) (b : Bridge) (f : ℕ)
    → r.callbacks.success ≡ some f
    → (again w r b).callbacks
      ≡ insert
          (r.service ++ decimal (suc b.callback_id))
          r.callbacks
          (insert (r.service ++ decimal b.callback_id) r.callbacks b.callbacks)
unfolding again set_js_mode exec_by_prompt send_request
again-callbacks w r b f hc =
    let sent = send_request w r (set_js_mode w prompt (send_request w r b).1) in
    let e : sent.1.callbacks
        ≡ insert (r.service ++ decimal (suc b.callback_id)) r.callbacks
            (insert (r.service ++ decimal b.callback_id) r.callbacks b.callbacks) =
      rw hc refl in
    (kept_fields sent.0 sent.1).0 ∙ e

again-calls :
    (w : Native) (r : Request) (b : Bridge)
    → (again w r b).calls
      ≡ (b.calls ++ call_of b.prefers_prompt r b.callback_id ∷ [])
        ++ call_of true r (suc b.callback_id) ∷ []
unfolding again set_js_mode exec_by_prompt send_request
again-calls w r b = (kept_fields _ _).1

ids_differ :
    (service : Str) (n : ℕ) → str_eq (service ++ decimal (suc n)) (service ++ decimal n) ≡ false
ids_differ service n = str_eq-false _ _ (λ e.
    let d : decimal (suc n) ≡ decimal n =
      sym (drop-append service (decimal (suc n)))
      ∙ ap (drop (length service)) e
      ∙ drop-append service (decimal n) in
    absurd (omega (arith, decimal-injective (suc n) n d)))

-- When native code answers a request for a callback with "@Null arguments.", the request is made
-- again by `prompt` with a new id. Both ids are kept with the callbacks, and the mode is chosen
-- anew. Since native code knows the second id alone, the entry of the first stays for good.
pub exec_again :
    (w : Native) (r : Request) (b : Bridge) (secret f : ℕ)
    → b.bridge_secret ≡ some secret
    → b.js_mode ≡ some js_object
    → r.callbacks.success ≡ some f
    → w.reply (
        execute b.prefers_prompt r.service r.action
          (r.service ++ decimal b.callback_id)
          r.args_json)
      ≡ js "@Null arguments."
    → (b' : Bridge) × (exec w r b ≡ some b')
      × (b'.calls
          ≡ (b.calls
              ++ execute b.prefers_prompt r.service r.action
                  (r.service ++ decimal b.callback_id)
                  r.args_json
                ∷ [])
            ++ execute true r.service r.action
                (r.service ++ decimal (suc b.callback_id))
                r.args_json
              ∷ [])
      × (lookup (r.service ++ decimal b.callback_id) b'.callbacks ≡ some r.callbacks)
      × (lookup (r.service ++ decimal (suc b.callback_id)) b'.callbacks ≡ some r.callbacks)
exec_again w r b secret f hs hm hc hr =
    let id = r.service ++ decimal b.callback_id in
    let id' = r.service ++ decimal (suc b.callback_id) in
    let kept = insert id r.callbacks b.callbacks in
    (
      again w r b,
      exec-some w r b secret js_object hs hm
          ∙ ap some (unfold again in exec_in_mode-again w r b hm hr),
      again-calls w r b,
      ap (lookup id) (again-callbacks w r b f hc)
          ∙ lookup-insert_other id' id r.callbacks kept (ids_differ r.service b.callback_id)
          ∙ lookup-insert_self id r.callbacks b.callbacks,
      ap (lookup id') (again-callbacks w r b f hc) ∙ lookup-insert_self id' r.callbacks kept,
    )
