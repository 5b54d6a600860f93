-- ===== src/Sample/Pong.antt =====
-- The sample application's methods, called by its page.
use node_apphost.Base.{Str, js, true, false, [], ◌∷◌, none, some, ◌≡◌, ◌∙◌, ap}
use node_apphost.Base.Dict.{lookup, insert}
use node_apphost.Mobile.{
  Value, undefined, null, text, array, function, user, plain, answer, values, Mobile, Res, ok,
  throw, M, ◌>>=◌, ◌>>◌, Engine, callback,
}
use node_apphost.Mobile.Events.{
  on, call_native, register_to_native, apply, apply_value, split_callback,
}
use node_apphost.Mobile.Events.Callbacks.{sending, call_native_lem}
use node_apphost.Mobile.Methods.{
  call, call_with, keep_callback, call_entry, register_sync, register_async,
}
use node_apphost.Mobile.Execute.Answers.{answered, answer_lem}
use node_apphost.Sample.{Node, sample_engine, load, use_json_nice}

-- The outcome of a computation that changes nothing, whether it throws or not.
abbrev pub Quiet : M (Unit {0}) → Type 0
Quiet m = (s : Mobile) → (elim (m s) [ ok a s' ↦ s' | throw e s' ↦ s' ]) ≡ s

quiet_caught :
    (r : Res (Unit {0})) (s : Mobile)
    → (elim r [ ok a s' ↦ s' | throw e s' ↦ s' ]) ≡ s
    → (elim r [ ok a s' ↦ ok a s' | throw e s' ↦ ok tt s' ]) ≡ ok tt s
quiet_caught (ok tt s') s h = ap (ok tt) h
quiet_caught (throw e s') s h = ap (ok tt) h

then_done :
    (r : Res Value) (s : Mobile)
    → r ≡ ok undefined s
    → (elim r [ ok a s' ↦ ok tt s' | throw e s' ↦ throw e s' ]) ≡ ok tt s
then_done r s h = rw h

call_with-log :
    (g : Engine) (id name m : Str) (s : Mobile)
    → call_with g name (some (callback (function (answer (text id))))) (text m ∷ [], none) s
      ≡ ok tt (answered id (text name ∷ array (values (text m ∷ [])) ∷ null ∷ []) s)
unfolding call_with keep_callback call_entry apply_value
call_with-log g id name m s =
    then_done (apply g (answer (text id)) (text name ∷ array (values (text m ∷ [])) ∷ null ∷ []) s)
      _ (answer_lem g id (text name ∷ array (values (text m ∷ [])) ∷ null ∷ []) s)

-- A call of a method of the page goes to the function that the page has registered for it.
call-log :
    (g : Engine) (id name m : Str) (s : Mobile)
    → lookup (js "callLocalMethods") s.ui_methods ≡ some (callback (function (answer (text id))))
    → call g name (text m ∷ []) s
      ≡ ok tt (answered id (text name ∷ array (values (text m ∷ [])) ∷ null ∷ []) s)
unfolding call
call-log g id name m s h = rw h (call_with-log g id name m s)

then-ok : (m : M (Unit {0})) (k : M (Unit {0})) (s s' : Mobile) → m s ≡ ok tt s' → (m >> k) s ≡ k s'
then-ok m k s s' h = rw (◌>>◌, ◌>>=◌, h)

json_nice-Quiet :
    (g : Engine) (s : Mobile) → Quiet (g.require (js "json-nice")) → use_json_nice g s ≡ ok tt s
unfolding use_json_nice
json_nice-Quiet g s h = quiet_caught (g.require (js "json-nice") s) s (h s)

listen_android :
    (g : Engine) (name : Str) (v : Value) (s : Mobile)
    → g.is_android ≡ true
    → register_to_native g name v s ≡ ok tt (record s { events = insert name (plain v) s.events })
unfolding register_to_native on
listen_android g name v s h = rw h

-- The state when the file has run.
abbrev pub with_methods : Mobile → Mobile
with_methods s = record s {
  jx_methods =
      insert (js "asyncPing") (record { is_synced = false; method = function (user 1) })
        (insert (js "getBuffer") (record { is_synced = true; method = function (user 0) })
          s.jx_methods);
}

abbrev pub listening : Mobile → Mobile
listening s = record s { events = insert (js "fromJXcore") (plain (function (user 2))) s.events }

abbrev pub loaded : Str → Mobile → Mobile
loaded id s =
    sending (js "ScreenBrightness") ([], some (user 4))
      (sending (js "ScreenInfo") ([], some (user 3))
        (listening (
          with_methods (
            answered id
              (text (js "log")
                ∷ array (values (text (js "JXcore is up and running!") ∷ []))
                ∷ null
                ∷ [])
              s))))

-- On Android, when the page has registered its function for local methods, and the module and the
-- user's folder are there or missing, the program loads: the page has been sent its greeting, the two
-- methods are registered, and native code has been asked for the screen's size and brightness.
pub load_lem :
    (node : Node) (id : Str) (s : Mobile)
    → node.engine.is_android ≡ true
    → lookup (js "callLocalMethods") s.ui_methods ≡ some (callback (function (answer (text id))))
    → Quiet (node.engine.require (js "json-nice"))
    → ((t : Mobile) → node.read_user_path t ≡ ok tt t)
    → load node s ≡ ok tt (loaded id s)
unfolding load register_sync register_async split_callback
load_lem node id s android page_ready quiet readable =
    let g = sample_engine node in
    then-ok (call g (js "log") (text (js "JXcore is up and running!") ∷ [])) _ s _
      (call-log g id (js "log") (js "JXcore is up and running!") s page_ready)
    ∙ then-ok (use_json_nice g) _ _ _ (json_nice-Quiet g _ quiet)
    ∙ then-ok node.read_user_path _ _ _ (readable _)
    ∙ then-ok (register_to_native g (js "fromJXcore") (function (user 2))) _ _ _
        (listen_android g (js "fromJXcore") (function (user 2)) _ android)
    ∙ then-ok (call_native (js "ScreenInfo") (function (user 3) ∷ [])) _ _ _
        (call_native_lem (js "ScreenInfo") (function (user 3) ∷ []) _)
    ∙ call_native_lem (js "ScreenBrightness") (function (user 4) ∷ []) _
