-- ===== src/Tests/HelpTests.antt =====
-- The help of both drivers, printed.
use node_apphost.Base.{
  ◌<◌, Str, js, Bool, true, false, List, ◌∷◌, ◌++◌, take, length, ◌≡◌, ◌⊎◌, refl,
}
use node_apphost.Help.{
  Param, exited, threw, spaces, pad, line, print_help, build_params, test_params,
}
use node_apphost.Help.Columns.{lines, InColumns, print_help_lem}

print_help_lem_example :
    (((rejects : Bool) → print_help rejects test_params 1 ≡ exited 1 (lines test_params))
      × InColumns test_params (lines test_params))
    ⊎ ((pre : List Param) × (p : Param) × (rest : List Param) × (test_params ≡ pre ++ p ∷ rest)
        × (28 < length p.option)
        × (print_help true test_params 1 ≡ threw (lines pre))
        × InColumns pre (lines pre)
        × ((ls : List Str) × (print_help false test_params 1 ≡ exited 1 ls)
            × (length ls ≡ length test_params)))
print_help_lem_example = print_help_lem test_params 1

-- The tenth option of build.js has 33 characters.
build_breaks : print_help true build_params 0 ≡ threw (lines (take 9 build_params))
unfolding print_help build_params pad spaces line js
build_breaks = refl

test_completes : print_help true test_params 0 ≡ exited 0 (lines test_params)
unfolding print_help test_params pad spaces line js
test_completes = refl
