-- ===== src/Jni/Evaluated.antt =====
-- What the evaluation of a script leaves among the values that wait for Java.
use node_apphost.Base.{
  ℕ, Str, false, Option, none, some, ◌≡◌, ◌≢◌, refl, sym, arith, ◌∙◌, ◌==◌, Bool-cases, inl, inr,
}
use node_apphost.Wrapper.{
  js_null, js_undefined, js_string, js_function, js_object, js_other, JsValue, Engine, convert,
  unsupported,
}
use node_apphost.Wrapper.Calls.{free_value}
use node_apphost.Wrapper.Getters.{
  Reads, get_string, text_or_message, Evaluated, returned, thrown, evaluated_value,
}
use node_apphost.Jni.{Stored, find, store_value, remove_stored, store_result}
use node_apphost.Jni.Store.{
  find-erase_other, find-store_value, find-store_value_other, remove_stored-some,
}
use node_apphost.Jni.Getters.{read_taken, get_string_at, reported_at, eval_engine, evaluate_posted}

-- The text that is sent to the page as an error: any result but null and undefined has one.
abbrev pub report_of : Reads → Evaluated → Option (Option Str)
report_of r (returned js_null) = none
report_of r (returned js_undefined) = none
report_of r (returned (js_object n)) = some (some (text_or_message r (js_object n)))
report_of r (returned (js_other n)) = some (some (text_or_message r (js_string unsupported)))
report_of r (returned v) = some (some (r.to_text v))
report_of r (thrown e) = some (some (text_or_message r e))

-- The script does not come to a function.
abbrev pub NoFunctionReturned : Evaluated → Type 0
NoFunctionReturned (returned (js_function n)) = ⊥
NoFunctionReturned _ = Unit

abbrev pub SameValues : Stored → Stored → Type 0
SameValues s s' = (id : ℕ) → find id s'.values ≡ find id s.values

behind : JsValue → Stored → Stored
behind w s = (remove_stored s.counter (store_value w s).1).1

behind-SameValues :
    (w : JsValue) (s : Stored) → find s.counter s.values ≡ none → SameValues s (behind w s)
unfolding behind remove_stored
behind-SameValues w s free id = elim (Bool-cases (id == s.counter)) [
  | inl e ↦
      let q : id ≡ s.counter = ground arith in
      rw q
        ((remove_stored-some s.counter _ (store_value w s).1 (find-store_value w s)).1 ∙ sym free)
  | inr e ↦
      let q : id ≢ s.counter = (λ p. absurd (ground arith)) in
      find-erase_other id s.counter (store_value w s).1.values q ∙ find-store_value_other w s id q
]

stored_read :
    (g : Engine) (r : Reads) (w x : JsValue) (t : Option Str) (s : Stored)
    → get_string r (record w { persistent = false }) ≡ some t
    → free_value g (record w { persistent = false }) ≡ some x
    → reported_at g r (some s.counter, (store_value w s).1) ≡ some (some t, behind w s)
unfolding reported_at get_string_at read_taken behind
stored_read g r w x t s e f =
    let p = (remove_stored-some s.counter _ (store_value w s).1 (find-store_value w s)).0 in
    rw (p, e, f) refl

-- The script that carries a request of the page, where no value waits under the next number and the
-- script does not come to a function: what it comes to is reported to the page as an error,
-- unless it is null or undefined, and the values that wait for Java are as before, since its
-- own is taken out again.
pub evaluate_posted_lem :
    (g : Engine) (r : Reads) (e : Evaluated) (s : Stored)
    → find s.counter s.values ≡ none
    → NoFunctionReturned e
    → (s' : Stored) × (evaluate_posted g r e s ≡ some (report_of r e, s')) × SameValues s s'
unfolding evaluate_posted eval_engine store_result evaluated_value convert get_string free_value
evaluate_posted_lem g r (returned js_null) s free k = (s, (unfold reported_at in refl), λ id. refl)
evaluate_posted_lem g r (returned js_undefined) s free k =
    (s, (unfold reported_at in refl), λ id. refl)
evaluate_posted_lem g r (returned (js_function n)) s free k = absurd k
evaluate_posted_lem g r (returned v) s free k =
    let w = (convert g v).1 in
    (behind w s, stored_read g r w _ _ s refl refl, behind-SameValues w s free)
evaluate_posted_lem g r (thrown v) s free k =
    let w = evaluated_value g (thrown v) in
    (behind w s, stored_read g r w _ _ s refl refl, behind-SameValues w s free)
