-- ===== src/Ui/Calls.antt =====
-- Calls between the page and the device: a local method called by the device, and the device's method
-- called by the page.
use mathlib.Core.Path.{ap}
use node_apphost.Base.{ℕ, Str, js, List, [], ◌∷◌, ◌++◌, Option, some, ◌≡◌, refl, str_eq}
use node_apphost.Base.Dict.{lookup}
use node_apphost.Mobile.{Value, null, text, array, function, user, values}
use node_apphost.Mobile.Events.Callbacks.{split_callback-append}
use node_apphost.Mobile.Methods.{return_marker}
use node_apphost.Ui.{
  Page, Web, page, plain, reply, method_invoked, call_native, array_args, plain_args, prepend,
  call_local, call, Request, Listener, respond, respond_error, hear, invoked, answer_args,
}

-- The request of `callFunction`.
abbrev pub evaluate : Web → Str → List Value → Option Listener → Request
evaluate w name params listener = record {
  action = js "Evaluate";
  args = text (js "Mobile.executeJSON(" ++ w.stringify name params) ∷ [];
  listener = listener;
}

marked_args :
    (params : List Value) (ref : Str)
    → array_args (values (params ++ return_marker ref ∷ []))
      ≡ some (plain_args params ++ reply (js "RC-" ++ ref) ∷ [])
unfolding array_args plain_args return_marker
marked_args [] ref = unfold js str_eq in refl
marked_args (v ∷ []) ref = ap (prepend (plain v)) (marked_args [] ref)
marked_args (v ∷ w ∷ vs) ref = ap (prepend (plain v)) (marked_args (w ∷ vs) ref)

-- What the device's `call` sends for a call with a callback runs the local method registered under
-- that name, with the parameters and, in place of the marker, a function that calls the device's
-- method `RC-` followed by the reference.
pub call_local-return_marker :
    (name ref : Str) (params : List Value) (f : ℕ) (p : Page)
    → lookup name p.local_methods ≡ some f
    → call_local (text name ∷ array (values (params ++ return_marker ref ∷ [])) ∷ null ∷ []) p
      ≡ some (record p {
        effects =
            p.effects ++ method_invoked f (plain_args params ++ reply (js "RC-" ++ ref) ∷ []) ∷ [];
      })
unfolding call_local
call_local-return_marker name ref params f p h = rw (h, marked_args params ref) refl

-- A call of the device's method with the callback `n` asks native code once to evaluate
-- `Mobile.executeJSON` on the text of the name and of the parameters before the callback; the answer
-- to that request runs the callback with what the answer holds, and an error runs it with null and
-- the error.
pub call-respond :
    (w : Web) (name : Str) (params : List Value) (n : ℕ) (p q : Page) (v err : Value)
    (args : List Value)
    → answer_args w v ≡ some args
    → (call w name (params ++ function (user n) ∷ []) p
        ≡ record p { requests = p.requests ++ evaluate w name params (some (page n)) ∷ [] })
      × (respond w (some (page n)) v q
          ≡ some (record q { effects = q.effects ++ invoked n args ∷ [] }))
      × (respond_error (some (page n)) err q
          ≡ some (record q { effects = q.effects ++ invoked n (null ∷ err ∷ []) ∷ [] }))
unfolding call respond respond_error call_native hear
call-respond w name params n p q v err args h =
    (rw (split_callback-append params (user n)) refl, rw h refl, refl)
