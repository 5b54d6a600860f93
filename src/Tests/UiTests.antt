-- ===== src/Tests/UiTests.antt =====
-- The page's half of the bridge, run.
use node_apphost.Base.{true, false, [], ◌∷◌, none, some, ◌≡◌}
use node_apphost.Ui.{Web, invoked, is_ready}
use node_apphost.Ui.Ready.{polled, probes, page_with, is_ready_polls}

abbrev web : Web
web = record { is_android = true; stringify = λ name params. name; parse_text = λ vs. none }

is_ready_polls_example :
    polled 2 web 8 (is_ready 8 (page_with false [] [] []))
    ≡ some (page_with true [] (probes 3 8) (invoked 8 [] ∷ []))
is_ready_polls_example = is_ready_polls 2 web 8 [] [] []
