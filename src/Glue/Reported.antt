-- ===== src/Glue/Reported.antt =====
-- What the page hears of an asynchronous method that returns a value.
use node_apphost.Base.{ℕ, Str, false, List, [], ◌∷◌, ◌++◌, none, some, ◌≡◌, is_empty}
use node_apphost.Base.Dict.{lookup, lookup-insert_self}
use node_apphost.Mobile.{Value, undefined, null, text, function, Fn, answer, Mobile, ok, Engine}
use node_apphost.Mobile.Events.{apply}
use node_apphost.Mobile.Execute.{internal_method, async_params}
use node_apphost.Ui.{Page, Web, page, invoked, respond_error, hear}
use node_apphost.Glue.{Glue, Carrier, run_script, evaluated}
use node_apphost.Glue.Answered.{Carries, call_script, called, execute_json-async}

-- Native code can read the value's text, and sends it: it is not null, undefined or a function.
abbrev pub IsReported : Value → Type 0
IsReported undefined = ⊥
IsReported null = ⊥
IsReported (function f) = ⊥
IsReported _ = Unit {0}

evaluated_value :
    (c : Carrier) (w : Web) (gl : Glue) (id : Str) (n : ℕ) (r : Value) (q : Page)
    → IsReported r
    → lookup id gl.callbacks ≡ some (some (page n))
    → evaluated c w gl id r q
      ≡ some (record q { effects = q.effects ++ invoked n (null ∷ text (c.to_text r) ∷ []) ∷ [] })
unfolding evaluated respond_error hear
evaluated_value c w gl id n undefined q u h = absurd u
evaluated_value c w gl id n null q u h = absurd u
evaluated_value c w gl id n (function f) q u h = absurd u
evaluated_value c w gl id n r q u h = rw h

-- A call by the page of a registered asynchronous method that returns a value other than null,
-- undefined and a function, such as the number of a timer, on Android, where a text reads as itself,
-- the engine reads the script as the call, and the name is not empty and none of the built-in ones: the
-- script returns that value, and the page's callback is run with null and the value's text, an
-- error, whether or not the method answers later by the function that it was given.
pub async_return-reported :
    (g : Engine) (c : Carrier) (w : Web) (name : Str) (f : Fn) (ps : List Value) (d : ℕ) (id : Str)
    (n : ℕ) (r : Value) (gl : Glue) (q : Page) (s s' : Mobile)
    → Carries c w name ps (d ∷ id)
    → is_empty name ≡ false
    → internal_method name ≡ none
    → lookup name s.jx_methods ≡ some (record { is_synced = false; method = function f })
    → apply g f (async_params (some ps) ++ function (answer (text (d ∷ id))) ∷ []) s ≡ ok r s'
    → IsReported r
    → (run_script g c (call_script w name ps (d ∷ id)) s ≡ ok r s')
      × (evaluated c w (called w name ps (d ∷ id) n gl) (d ∷ id) r q
          ≡ some
              (record q { effects = q.effects ++ invoked n (null ∷ text (c.to_text r) ∷ []) ∷ [] }))
unfolding run_script
async_return-reported g c w name f ps d id n r gl q s s' k h hi found ran u = (
  rw (k.reads) (execute_json-async g name f ps d id s r s' h hi found ran),
  evaluated_value c w (called w name ps (d ∷ id) n gl) (d ∷ id) n r q u
      (lookup-insert_self (d ∷ id) (some (page n)) gl.callbacks),
)
