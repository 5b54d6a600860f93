-- ===== src/Glue/Answered.antt =====
-- A call of the page, from its request to its answer.
use node_apphost.Base.{
  ℕ, Str, js, str_eq, true, false, List, [], ◌∷◌, ◌++◌, none, some, ◌≡◌, refl, is_empty, ap,
}
use node_apphost.Base.Dict.{lookup, insert, lookup-insert_self}
use node_apphost.Mobile.{
  Value, undefined, null, text, array, function, Fn, user, answer, nil, cons, values, Mobile, ok,
  Engine, ◌>>=◌,
}
use node_apphost.Mobile.Events.{apply, apply_value}
use node_apphost.Mobile.Execute.{
  Json, internal_method, execute_json, dispatch, run_method, sync_params, async_params,
}
use node_apphost.Mobile.Execute.Failures.{execute_json_lem}
use node_apphost.Mobile.Execute.Answers.{answered, answer_lem}
use node_apphost.Ui.{Page, Web, page, list_of, invoked, call, respond, hear, answer_args}
use node_apphost.Ui.Calls.{evaluate, call-respond}
use node_apphost.Glue.{
  Glue, Carrier, script_of, execute, run_script, pop_last, create_result, java_call, deliver,
}

-- What the device's half sends for an answer.
abbrev pub answer_message : Str → List Value → List Value
answer_message id vs =
    text (js "  _callback_  ") ∷ array (values vs) ∷ null ∷ text id ∷ text [] ∷ []

list_of-values : (vs : List Value) → list_of (values vs) ≡ vs
list_of-values [] = refl
list_of-values (v ∷ vs) = ap (◌∷◌ v) (list_of-values vs)

answer_args-values :
    (w : Web) (vs : List Value) → w.is_android ≡ true → answer_args w (array (values vs)) ≡ some vs
unfolding answer_args
answer_args-values w vs android = rw (android, list_of-values vs)

-- An answer of the device's half runs the page's callback, with the values as they come through JSON.
pub deliver_answer :
    (c : Carrier) (w : Web) (gl : Glue) (id : Str) (n : ℕ) (vs : List Value) (vs' : List Value)
    (p : Page)
    → w.is_android ≡ true
    → c.carry (values vs) ≡ values vs'
    → lookup id gl.callbacks ≡ some (some (page n))
    → deliver c w gl (answer_message id vs) p
      ≡ some (record p { effects = p.effects ++ invoked n vs' ∷ [] })
unfolding deliver java_call pop_last create_result js str_eq respond hear
deliver_answer c w gl id n vs vs' p android carried found =
    rw (found, carried, answer_args-values w vs' android)

-- The text that the engine evaluates for a call of the page.
abbrev pub call_script : Web → Str → List Value → Str → Str
call_script w name params id =
    (js "Mobile.executeJSON(" ++ w.stringify name params) ++ (js ", '" ++ (id ++ js "')"))

-- The map and the queue behind the request.
abbrev pub called : Web → Str → List Value → Str → ℕ → Glue → Glue
called w name params id n gl = record gl {
  callbacks = insert id (some (page n)) gl.callbacks;
  posted = gl.posted ++ call_script w name params id ∷ [];
}

pub execute-evaluate :
    (c : Carrier) (w : Web) (name : Str) (params : List Value) (id : Str) (n : ℕ) (gl : Glue)
    → ((s : Str) → c.to_text (text s) ≡ s)
    → execute c id (evaluate w name params (some (page n))) gl
      ≡ (called w name params id n gl, none)
unfolding execute script_of js str_eq
execute-evaluate c w name params id n gl texts =
    rw (texts (js "Mobile.executeJSON(" ++ w.stringify name params))

abbrev pub json_of : Str → List Value → Json
json_of name ps = record { method_name = name; params = some ps }

module _ (g : Engine) (name : Str) (f : Fn) (ps : List Value) (d : ℕ) (id : Str) (s : Mobile) where
  execute_json-sync :
      (r : Value) (s' : Mobile)
      → is_empty name ≡ false
      → internal_method name ≡ none
      → lookup name s.jx_methods ≡ some (record { is_synced = true; method = function f })
      → apply g f ps s ≡ ok r s'
      → execute_json g (json_of name ps) (text (d ∷ id)) s
        ≡ ok undefined (answered (d ∷ id) (r ∷ []) s')
  unfolding dispatch run_method apply_value sync_params
  execute_json-sync r s' h hi found ran =
      rw (execute_json_lem g (json_of name ps) (text (d ∷ id)) s h, hi, found, ran, ◌>>=◌)
        (rw (answer_lem g (d ∷ id) (r ∷ []) s', ◌>>=◌))

  pub execute_json-async :
      (r : Value) (s' : Mobile)
      → is_empty name ≡ false
      → internal_method name ≡ none
      → lookup name s.jx_methods ≡ some (record { is_synced = false; method = function f })
      → apply g f (async_params (some ps) ++ function (answer (text (d ∷ id))) ∷ []) s ≡ ok r s'
      → execute_json g (json_of name ps) (text (d ∷ id)) s ≡ ok r s'
  unfolding dispatch run_method apply_value
  execute_json-async r s' h hi found ran =
      rw (execute_json_lem g (json_of name ps) (text (d ∷ id)) s h, hi, found, ran)

-- What the native half does with texts and arrays: a text reads as itself, and the engine reads the
-- script of a call as that call.
pub record Carries (c : Carrier) (w : Web) (name : Str) (ps : List Value) (id : Str) : Type 0 where
  pub texts : (s : Str) → c.to_text (text s) ≡ s
  pub reads : c.read (call_script w name ps id) ≡ some (json_of name ps, id)
  pub android : w.is_android ≡ true

-- On Android, where a text reads as itself and the engine reads the script as the call: a call by
-- the page, with a callback, of a registered synchronous method that returns normally, whose name is
-- not empty and none of the built-in ones. The page's call makes one request; native code keeps it under
-- its id, posts one script, and sends nothing yet; the script runs the method on the call's
-- parameters and sends one message with the method's value, behind those of the method itself; and
-- that message runs the page's callback once, with the value as it comes through JSON.
pub call-answered :
    (g : Engine) (c : Carrier) (w : Web) (name : Str) (f : Fn) (ps : List Value) (d : ℕ) (id : Str)
    (n : ℕ) (r r' : Value) (gl : Glue) (p q : Page) (s s' : Mobile)
    → Carries c w name ps (d ∷ id)
    → is_empty name ≡ false
    → internal_method name ≡ none
    → lookup name s.jx_methods ≡ some (record { is_synced = true; method = function f })
    → apply g f ps s ≡ ok r s'
    → c.carry (cons r nil) ≡ cons r' nil
    → let request = evaluate w name ps (some (page n)) in
      let gl' = called w name ps (d ∷ id) n gl in
      let message = answer_message (d ∷ id) (r ∷ []) in
      (call w name (ps ++ function (user n) ∷ []) p
        ≡ record p { requests = p.requests ++ request ∷ [] })
      × (execute c (d ∷ id) request gl ≡ (gl', none))
      × (run_script g c (call_script w name ps (d ∷ id)) s
          ≡ ok undefined (record s' { sent = s'.sent ++ message ∷ [] }))
      × (deliver c w gl' message q
          ≡ some (record q { effects = q.effects ++ invoked n (r' ∷ []) ∷ [] }))
unfolding run_script
call-answered g c w name f ps d id n r r' gl p q s s' k h hi found ran carried = (
  (call-respond w name ps n p q (array (values (r ∷ []))) null (r ∷ [])
      (answer_args-values w (r ∷ []) k.android)).0,
  execute-evaluate c w name ps (d ∷ id) n gl k.texts,
  rw (k.reads) (execute_json-sync g name f ps d id s r s' h hi found ran),
  deliver_answer c w (called w name ps (d ∷ id) n gl) (d ∷ id) n (r ∷ []) (r' ∷ []) q k.android
      carried (lookup-insert_self (d ∷ id) (some (page n)) gl.callbacks),
)
