-- ===== src/Tests/RunTestsTests.antt =====
-- tests/runtests.js, run.
use node_apphost.Base.{Str, true, some, js, str_eq, false, [], ◌∷◌, ◌≡◌, refl}
use node_apphost.Base.Dict.{lookup, has}
use node_apphost.Taskman.{text, to_text}
use node_apphost.Taskman.Queue.{Exec, failed}
use node_apphost.RunTests.{TestHost, get_arch, given, pick_arch, check_args, test_script}
use node_apphost.RunTests.Main.{World, Layout, write_projects, test_file, write_tests, ran, main}
use node_apphost.RunTests.Main.Verdict.{verdict, main-verdict}

abbrev linux : TestHost
linux = record {
  is_windows = false;
  system = js "linux";
  args = (js "--dest-cpu", text (js "x64")) ∷ [];
  root_folder = js "/h/";
}

linux_arch : get_arch linux ≡ js "-m64"
unfolding js get_arch pick_arch lookup str_eq given to_text
linux_arch = refl

abbrev folder : Layout
folder = record { at = λ p. p; rejects = true }

-- `--target` is given.
abbrev asked : TestHost
asked = record linux { args = (js "--target", text (js "nodejs")) ∷ [] }

abbrev clean : World
clean = record { files = []; executable = []; lines = [] }

-- A shell in which the script fails.
abbrev failing : Str → World → Exec World
failing c w = failed w

main-verdict_example :
    (lookup (test_file folder) (write_tests folder asked clean).files ≡ some (test_script asked))
    × (main folder failing asked clean
        ≡ ran (verdict folder (failed (write_tests folder asked clean))))
unfolding js check_args has str_eq write_projects test_file
main-verdict_example = main-verdict folder failing asked clean clean refl refl refl
