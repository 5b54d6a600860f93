-- ===== src/Mobile/Execute/Failures.antt =====
-- What `executeJSON` does when a call fails.
use node_apphost.Base.{
  Str, js, str_eq, str_eq_iff, Bool, true, false, [], ◌∷◌, ◌++◌, none, some, is_empty,
  if◌then◌else◌, ◌≡◌, ◌⊎◌, refl, arith,
}
use node_apphost.Base.Dict.{lookup}
use node_apphost.Mobile.{
  Value, undefined, text, Mobile, Err, Res, ok, throw, ◌>>=◌, fail, Engine, new_error,
}
use node_apphost.Mobile.Events.{call_native, split_callback, register_callback, send}
use node_apphost.Mobile.Methods.{is_inherited, report, send_report}
use node_apphost.Mobile.Execute.{
  Json, inherited, internal_method, is_return, unknown_method, dispatch, execute_json,
}

-- The state in which an error has been reported.
abbrev pub reported : Engine → Err → Mobile → Mobile
unfolding js
reported g e s = record s {
  sent =
      s.sent
      ++ (text (js "OnError") ∷ e.message ∷ text (g.stringify (g.captured_stack e)) ∷ text [] ∷ [])
        ∷ [];
}

send_report_lem :
    (g : Engine) (e : Err) (s : Mobile)
    → send_report g (record e { stack = g.captured_stack e }) s ≡ ok tt (reported g e s)
unfolding send_report call_native split_callback register_callback send js
send_report_lem g e s = refl

-- The outcome of `try { m } catch (e) { report }`: what takes no stack makes the handler throw.
abbrev pub caught : Engine → Res Value → Res Value
caught g (ok a s) = ok a s
caught g (throw e s) = if e.takes_stack then ok undefined (reported g e s) else throw g.type_error s

report_settled :
    (g : Engine) (e : Err) (s : Mobile) (takes_stack : Bool)
    → ((if takes_stack
            then send_report g (record e { stack = g.captured_stack e })
            else fail g.type_error)
          >>= λ _. ok undefined)
        s
      ≡ (if takes_stack then ok undefined (reported g e s) else throw g.type_error s)
report_settled g e s true = rw (◌>>=◌, send_report_lem g e s) refl
report_settled g e s false = refl

catch_report :
    (g : Engine) (r : Res Value)
    → (elim r [ ok a s ↦ ok a s | throw e s ↦ (report g e >>= λ _. ok undefined) s ]) ≡ caught g r
unfolding report
catch_report g (ok a s) = refl
catch_report g (throw e s) = report_settled g e s e.takes_stack

pub execute_json_lem :
    (g : Engine) (json : Json) (cid : Value) (s : Mobile)
    → is_empty json.method_name ≡ false
    → execute_json g json cid s
      ≡ caught g (
          dispatch g json cid
            (internal_method json.method_name)
            (lookup json.method_name s.jx_methods)
            s)
unfolding execute_json
execute_json_lem g json cid s h = rw h (catch_report g _)

-- A name that is neither internal nor registered nor a return reference: the error is reported to
-- the native side by one message, and nothing else changes.
pub execute_json_unknown :
    (g : Engine) (json : Json) (cid : Value) (s : Mobile)
    → is_empty json.method_name ≡ false
    → internal_method json.method_name ≡ none
    → lookup json.method_name s.jx_methods ≡ none
    → is_return json.method_name ≡ false
    → execute_json g json cid s
      ≡ ok undefined (reported g (new_error g (js "JXcore: Method Doesn't Exist [")) s)
unfolding dispatch unknown_method
execute_json_unknown g json cid s h hi hm hr = rw (execute_json_lem g json cid s h, hi, hm, hr)

ui_not_inherited : is_inherited (js "registerUIMethod") ≡ false
unfolding is_inherited js str_eq
ui_not_inherited = refl

main_not_inherited : is_inherited (js "loadMainFile") ≡ false
unfolding is_inherited js str_eq
main_not_inherited = refl

pub internal_method-inherited :
    (name : Str) → is_inherited name ≡ true → internal_method name ≡ some inherited
unfolding internal_method
internal_method-inherited name h = ground (
  arith,
  str_eq_iff name (js "registerUIMethod"),
  str_eq_iff name (js "loadMainFile"),
  ui_not_inherited,
  main_not_inherited,
)

-- A method that is registered under a name which `Object.prototype` has is never run: the call
-- either does nothing, or reports the `TypeError`; the table of methods plays no part.
pub execute_json_shadowed :
    (g : Engine) (json : Json) (cid : Value) (s : Mobile)
    → is_empty json.method_name ≡ false
    → is_inherited json.method_name ≡ true
    → g.type_error.takes_stack ≡ true
    → (execute_json g json cid s ≡ ok undefined s)
      ⊎ (execute_json g json cid s ≡ ok undefined (reported g g.type_error s))
unfolding dispatch
execute_json_shadowed g json cid s h hi hg =
    rw (execute_json_lem g json cid s h, internal_method-inherited json.method_name hi)
      (ground arith)
