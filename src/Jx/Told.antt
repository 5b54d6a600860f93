-- ===== src/Jx/Told.antt =====
-- What JXcore is told at its start.
use node_apphost.Base.{
  ℕ, Str, js, ◌==◌, ◌||◌, List, [], ◌∷◌, ◌++◌, Option, none, some, if◌then◌else◌, ◌≡◌, refl, ap,
}
use node_apphost.Jx.{
  JxCall, initialize, new_engine, start, main_file, file, extension, Jx, engine_path, file_calls,
  extension_calls, init_calls, start_engine, init, ends_in_slash,
}

-- One call for each entry, in its order.
abbrev pub each : {A : Type 0} → (Str → A → JxCall) → List (Str × A) → List JxCall
each call [] = []
each call ((name, a) ∷ es) = call name a ∷ each call es

-- The call of the last callback for the start, if there is one.
abbrev pub announced : Option ℕ → List JxCall
announced none = []
announced (some callback) = init callback ∷ []

-- The text `jx` behind the path `q` and `c`, and a slash between them if `c` is no slash of either kind.
abbrev pub jx_in : Str → ℕ → Str
unfolding js
jx_in q c = (q ++ c ∷ []) ++ (if (c == b'/') || (c == 92) then js "jx" else js "/jx")

file_calls-each : (fs : List (Str × Str)) → file_calls fs ≡ each file fs
unfolding file_calls
file_calls-each [] = refl
file_calls-each ((name, text) ∷ fs) = ap (λ c. file name text ∷ c) (file_calls-each fs)

extension_calls-each : (es : List (Str × ℕ)) → extension_calls es ≡ each extension es
unfolding extension_calls
extension_calls-each [] = refl
extension_calls-each ((name, callback) ∷ es) =
    ap (λ c. extension name callback ∷ c) (extension_calls-each es)

init_calls-announced : (callback : Option ℕ) → init_calls callback ≡ announced callback
unfolding init_calls
init_calls-announced none = refl
init_calls-announced (some callback) = refl

ends_in_slash-last : (q : Str) (c : ℕ) → ends_in_slash (q ++ c ∷ []) ≡ ((c == b'/') || (c == 92))
unfolding ends_in_slash
ends_in_slash-last [] c = refl
ends_in_slash-last (d ∷ []) c = refl
ends_in_slash-last (d ∷ e ∷ q) c = ends_in_slash-last (e ∷ q) c

engine_path-jx_in : (q : Str) (c : ℕ) → engine_path (q ++ c ∷ []) ≡ jx_in q c
unfolding engine_path js
engine_path-jx_in q c = rw (ends_in_slash-last q c) refl

-- The calls of the start.
pub started :
    (q : Str) (c : ℕ) (x : Jx) (main : Option Str) (callback : Option ℕ)
    → x.calls ≡ []
    → x.main ≡ main
    → x.init_callback ≡ callback
    → (start_engine (q ++ c ∷ []) x).calls
      ≡ (initialize (jx_in q c) ∷ new_engine ∷ main_file main ∷ [])
        ++ each file x.files
        ++ each extension x.extensions
        ++ announced callback
        ++ start ∷ []
unfolding start_engine
started q c x main callback e m i =
    rw
      (
        e,
        m,
        i,
        engine_path-jx_in q c,
        file_calls-each x.files,
        extension_calls-each x.extensions,
        init_calls-announced callback,
      )
      refl
