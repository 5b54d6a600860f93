-- ===== src/Jx.antt =====
-- patch/jxcore/jxcore_wrapper.cc: what native code registers before the engine of JXcore is started
-- is kept, and handed over at the start; what it registers later is handed over at once. All other
-- functions of the file pass their arguments on.
pub mod Order
pub mod Told
pub mod Start
use node_apphost.Base.{
  ℕ, ◌-◌, Str, js, str_eq, Bool, true, false, List, [], ◌∷◌, ◌++◌, Option, none, some,
  if◌then◌else◌, ◌==◌, ◌||◌, ltb,
}

-- A call of JXcore's interface, or of the callback for the start.
pub data JxCall : Type 0 where
  initialize : Str → JxCall
  new_engine start : JxCall
  main_file : Option Str → JxCall
  file : Str → Str → JxCall
  extension : Str → ℕ → JxCall
  init : ℕ → JxCall

-- The order of `std::string`.
unfoldable pub str_lt : Str → Str → Bool
str_lt s [] = false
str_lt [] (c ∷ t) = true
str_lt (a ∷ s) (b ∷ t) = let rest = str_lt s t in if a == b then rest else ltb a b

-- `std::map`: its entries in the order of their keys, and `m[k] = v`.
module _ {A : Type 0} where
  unfoldable pub assign : Str → A → List (Str × A) → List (Str × A)
  unfolding str_lt
  assign k v [] = (k, v) ∷ []
  assign k v ((j, w) ∷ m) =
      let rest = (j, w) ∷ assign k v m in
      if str_eq j k then (k, v) ∷ m else (if str_lt k j then (k, v) ∷ (j, w) ∷ m else rest)

-- The variables of the file, with the calls that it has made.

pub record Jx : Type 0 where
  pub initialized : Bool
  pub main : Option Str
  pub files : List (Str × Str)
  pub extensions : List (Str × ℕ)
  pub init_callback : Option ℕ
  pub calls : List JxCall

unfoldable pub initial : Jx
initial = record {
  initialized = false;
  main = none;
  files = [];
  extensions = [];
  init_callback = none;
  calls = [];
}

-- `JS_SetProcessNative`.
unfoldable pub set_process_native : Str → ℕ → Jx → Jx
unfolding assign
set_process_native name callback x =
    if x.initialized
    then record x { calls = x.calls ++ extension name callback ∷ [] }
    else record x { extensions = assign name callback x.extensions }

-- `JS_DefineFile`.
unfoldable pub define_jx_file : Str → Str → Jx → Jx
unfolding assign
define_jx_file name text x =
    if x.initialized
    then record x { calls = x.calls ++ file name text ∷ [] }
    else record x { files = assign name text x.files }

-- `JS_DefineMainFile`, `JS_DefineNodeOnInitCallback`.
unfoldable pub define_main : Str → Jx → Jx
define_main text x = record x { main = some text }

unfoldable pub on_init : ℕ → Jx → Jx
on_init callback x = record x { init_callback = some callback }

pub ends_in_slash : Str → Bool
ends_in_slash [] = false
ends_in_slash (c ∷ []) = (c == b'/') || (c == 92)
ends_in_slash (c ∷ d ∷ s) = ends_in_slash (d ∷ s)

-- The path of the engine.
unfoldable pub engine_path : Str → Str
unfolding ends_in_slash
engine_path path = path ++ (if ends_in_slash path then js "jx" else js "/jx")

unfoldable pub file_calls : List (Str × Str) → List JxCall
file_calls [] = []
file_calls ((name, text) ∷ fs) = file name text ∷ file_calls fs

unfoldable pub extension_calls : List (Str × ℕ) → List JxCall
extension_calls [] = []
extension_calls ((name, callback) ∷ es) = extension name callback ∷ extension_calls es

unfoldable pub init_calls : Option ℕ → List JxCall
init_calls none = []
init_calls (some callback) = init callback ∷ []

-- `JS_StartEngine`, for a path that is not empty.
unfoldable pub start_engine : Str → Jx → Jx
unfolding engine_path file_calls extension_calls init_calls
start_engine path x = record x {
  initialized = true;
  files = [];
  extensions = [];
  calls =
      x.calls
      ++ (initialize (engine_path path) ∷ new_engine ∷ main_file x.main ∷ [])
      ++ file_calls x.files
      ++ extension_calls x.extensions
      ++ init_calls x.init_callback
      ++ start ∷ [];
}

-- A call of native code.
pub data Native : Type 0 where
  natives : Str → ℕ → Native
  files_of : Str → Str → Native
  mains : Str → Native
  inits : ℕ → Native

unfoldable pub register : Native → Jx → Jx
unfolding set_process_native define_jx_file define_main on_init
register (natives name callback) x = set_process_native name callback x
register (files_of name text) x = define_jx_file name text x
register (mains text) x = define_main text x
register (inits callback) x = on_init callback x

unfoldable pub register_all : List Native → Jx → Jx
unfolding register
register_all [] x = x
register_all (r ∷ rs) x = register_all rs (register r x)
