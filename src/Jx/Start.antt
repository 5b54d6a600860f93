-- ===== src/Jx/Start.antt =====
-- What JXcore is told at its start, and later.
use node_apphost.Base.{
  ℕ, Str, str_eq, true, false, List, [], ◌∷◌, ◌++◌, Option, none, some, if◌then◌else◌, ◌≡◌, refl,
  ap, ◌∙◌, sym,
}
use mathlib.Core.List.{append_assoc, append-nil}
use node_apphost.Base.Dict.{lookup}
use node_apphost.Jx.{
  assign, JxCall, initialize, new_engine, start, main_file, file, extension, Jx, initial, Native,
  natives, files_of, mains, inits, register_all, start_engine, set_process_native, define_jx_file,
  define_main, on_init,
}
use node_apphost.Jx.Told.{each, announced, jx_in, started}
use node_apphost.Jx.Order.{lookup-assign, assign-Rises, Rises}

-- The last registration of each kind; `acc` is what there was before.
abbrev pub last_file : Str → Option Str → List Native → Option Str
last_file key acc [] = acc
last_file key acc (files_of name text ∷ rs) =
    last_file key (if str_eq name key then some text else acc) rs
last_file key acc (natives _ _ ∷ rs) = last_file key acc rs
last_file key acc (mains _ ∷ rs) = last_file key acc rs
last_file key acc (inits _ ∷ rs) = last_file key acc rs

abbrev pub last_native : Str → Option ℕ → List Native → Option ℕ
last_native key acc [] = acc
last_native key acc (natives name callback ∷ rs) =
    last_native key (if str_eq name key then some callback else acc) rs
last_native key acc (files_of _ _ ∷ rs) = last_native key acc rs
last_native key acc (mains _ ∷ rs) = last_native key acc rs
last_native key acc (inits _ ∷ rs) = last_native key acc rs

abbrev pub last_main : Option Str → List Native → Option Str
last_main acc [] = acc
last_main acc (mains text ∷ rs) = last_main (some text) rs
last_main acc (natives _ _ ∷ rs) = last_main acc rs
last_main acc (files_of _ _ ∷ rs) = last_main acc rs
last_main acc (inits _ ∷ rs) = last_main acc rs

abbrev pub last_init : Option ℕ → List Native → Option ℕ
last_init acc [] = acc
last_init acc (inits callback ∷ rs) = last_init (some callback) rs
last_init acc (natives _ _ ∷ rs) = last_init acc rs
last_init acc (files_of _ _ ∷ rs) = last_init acc rs
last_init acc (mains _ ∷ rs) = last_init acc rs

-- What is kept before the start.
abbrev pub Keeps : List Native → Jx → Jx → Type 0
Keeps rs x y =
    (y.calls ≡ x.calls)
    × (y.main ≡ last_main x.main rs)
    × (y.init_callback ≡ last_init x.init_callback rs)
    × ((key : Str) → lookup key y.files ≡ last_file key (lookup key x.files) rs)
    × ((key : Str) → lookup key y.extensions ≡ last_native key (lookup key x.extensions) rs)
    × Rises y.files
    × Rises y.extensions

early_native :
    (name : Str) (callback : ℕ) (x : Jx)
    → x.initialized ≡ false
    → set_process_native name callback x
      ≡ record x { extensions = assign name callback x.extensions }
unfolding set_process_native
early_native name callback x e = rw e refl

early_file :
    (name text : Str) (x : Jx)
    → x.initialized ≡ false
    → define_jx_file name text x ≡ record x { files = assign name text x.files }
unfolding define_jx_file
early_file name text x e = rw e refl

from_step :
    (rs rs' : List Native) (x y z : Jx)
    → z ≡ y
    → Keeps rs' x (register_all rs y)
    → Keeps rs' x (register_all rs z)
from_step rs rs' x y z e k = rw e k

register_all-Keeps :
    (rs : List Native) (x : Jx)
    → x.initialized ≡ false
    → Rises x.files
    → Rises x.extensions
    → Keeps rs x (register_all rs x)
unfolding register_all define_main on_init
register_all-Keeps [] x e f n = (refl, refl, refl, (λ k. refl), (λ k. refl), f, n)
register_all-Keeps (natives name callback ∷ rs) x e f n =
    let y : Jx = record x { extensions = assign name callback x.extensions } in
    let k = register_all-Keeps rs y e f (assign-Rises name callback x.extensions n) in
    from_step rs (natives name callback ∷ rs) x y _ (early_native name callback x e) (
      k.0,
      k.1,
      k.2,
      k.3,
      (λ key.
          k.4 key ∙ ap (λ o. last_native key o rs) (lookup-assign name key callback x.extensions)),
      k.5,
      k.6,
    )
register_all-Keeps (files_of name text ∷ rs) x e f n =
    let y : Jx = record x { files = assign name text x.files } in
    let k = register_all-Keeps rs y e (assign-Rises name text x.files f) n in
    from_step rs (files_of name text ∷ rs) x y _ (early_file name text x e) (
      k.0,
      k.1,
      k.2,
      (λ key. k.3 key ∙ ap (λ o. last_file key o rs) (lookup-assign name key text x.files)),
      k.4,
      k.5,
      k.6,
    )
register_all-Keeps (mains text ∷ rs) x e f n = register_all-Keeps rs (define_main text x) e f n
register_all-Keeps (inits callback ∷ rs) x e f n = register_all-Keeps rs (on_init callback x) e f n

-- What is passed on after the start.
abbrev pub later_calls : List Native → List JxCall
later_calls [] = []
later_calls (natives name callback ∷ rs) = extension name callback ∷ later_calls rs
later_calls (files_of name text ∷ rs) = file name text ∷ later_calls rs
later_calls (mains _ ∷ rs) = later_calls rs
later_calls (inits _ ∷ rs) = later_calls rs

late_native :
    (name : Str) (callback : ℕ) (x : Jx)
    → x.initialized ≡ true
    → set_process_native name callback x
      ≡ record x { calls = x.calls ++ extension name callback ∷ [] }
unfolding set_process_native
late_native name callback x e = rw e refl

late_file :
    (name text : Str) (x : Jx)
    → x.initialized ≡ true
    → define_jx_file name text x ≡ record x { calls = x.calls ++ file name text ∷ [] }
unfolding define_jx_file
late_file name text x e = rw e refl

register_all-later :
    (rs : List Native) (x : Jx)
    → x.initialized ≡ true
    → (register_all rs x).calls ≡ x.calls ++ later_calls rs
unfolding register_all set_process_native define_jx_file define_main on_init
register_all-later [] x e = sym (append-nil x.calls)
register_all-later (natives name callback ∷ rs) x e =
    ap (λ z. (register_all rs z).calls) (late_native name callback x e)
    ∙ register_all-later rs (record x { calls = x.calls ++ extension name callback ∷ [] }) e
    ∙ append_assoc x.calls (extension name callback ∷ []) (later_calls rs)
register_all-later (files_of name text ∷ rs) x e =
    ap (λ z. (register_all rs z).calls) (late_file name text x e)
    ∙ register_all-later rs (record x { calls = x.calls ++ file name text ∷ [] }) e
    ∙ append_assoc x.calls (file name text ∷ []) (later_calls rs)
register_all-later (mains text ∷ rs) x e = register_all-later rs (define_main text x) e
register_all-later (inits callback ∷ rs) x e = register_all-later rs (on_init callback x) e

-- Whatever native code registers before the start and after it, for a path that is not empty JXcore is
-- told, in this order: the path of the engine, which is that path, a slash if it does not end in
-- one of either kind, and `jx`; the last main file; each file that was defined before, once, with the
-- last text given for its name, in the order of the names; each native method likewise, with the last
-- callback; the start is announced to the last callback for it, and the engine starts; and then
-- every later file and method at once, as it comes. A main file that is defined after the start is
-- not passed on.
pub start_engine_lem :
    (q : Str) (c : ℕ) (before later : List Native)
    → (files : List (Str × Str)) × (methods : List (Str × ℕ)) × ((register_all later
          (start_engine (q ++ c ∷ []) (register_all before initial))).calls
        ≡ ((initialize (jx_in q c) ∷ new_engine ∷ main_file (last_main none before) ∷ [])
            ++ each file files
            ++ each extension methods
            ++ announced (last_init none before)
            ++ start ∷ [])
          ++ later_calls later)
      × ((name : Str) → lookup name files ≡ last_file name none before)
      × ((name : Str) → lookup name methods ≡ last_native name none before)
      × Rises files
      × Rises methods
unfolding start_engine initial lookup
start_engine_lem q c before later =
    let x = register_all before initial in
    let k = register_all-Keeps before initial refl tt tt in
    let path : Str = q ++ c ∷ [] in
    (
      x.files,
      x.extensions,
      register_all-later later (start_engine path x) refl
          ∙ ap (λ cs. cs ++ later_calls later) (started q c x _ _ k.0 k.1 k.2),
      k.3,
      k.4,
      k.5,
      k.6,
    )
