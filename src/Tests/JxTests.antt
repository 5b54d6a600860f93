-- ===== src/Tests/JxTests.antt =====
-- The start of JXcore, run.
use node_apphost.Base.{ℕ, Str, js, List, [], ◌∷◌, ◌++◌, none, ◌≡◌}
use node_apphost.Base.Dict.{lookup}
use node_apphost.Jx.{
  initialize, new_engine, start, main_file, initial, Native, natives, files_of, mains, inits,
  register_all, file, extension, start_engine,
}
use node_apphost.Jx.Told.{each, announced}
use node_apphost.Jx.Order.{Rises}
use node_apphost.Jx.Start.{
  last_file, last_native, last_main, last_init, later_calls, start_engine_lem,
}

abbrev before : List Native
before =
    mains (js "x()")
    ∷ files_of (js "b.js") (js "1")
    ∷ natives (js "log") 4
    ∷ files_of (js "a.js") (js "2")
    ∷ files_of (js "b.js") (js "3")
    ∷ inits 9
    ∷ []

abbrev later : List Native
later = files_of (js "c.js") (js "4") ∷ mains (js "y()") ∷ []

start_engine_lem_example :
    (files : List (Str × Str)) × (methods : List (Str × ℕ)) × ((register_all later
        (start_engine (js "/app") (register_all before initial))).calls
      ≡ ((initialize (js "/app/jx") ∷ new_engine ∷ main_file (last_main none before) ∷ [])
          ++ each file files
          ++ each extension methods
          ++ announced (last_init none before)
          ++ start ∷ [])
        ++ later_calls later)
    × ((name : Str) → lookup name files ≡ last_file name none before)
    × ((name : Str) → lookup name methods ≡ last_native name none before)
    × Rises files
    × Rises methods
unfolding js
start_engine_lem_example = start_engine_lem (js "/ap") b'p' before later
