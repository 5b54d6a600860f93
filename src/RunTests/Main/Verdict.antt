-- ===== src/RunTests/Main/Verdict.antt =====
-- The verdict of a test run.
use node_apphost.Base.{Str, js, false, [], ◌∷◌, ◌++◌, some, ◌≡◌, refl, ◌∙◌, ap, is_empty, arith}
use node_apphost.Base.Dict.{lookup, lookup-insert_self}
use node_apphost.Taskman.Queue.{Exec, succeeded, failed, Machine, Phase}
use node_apphost.Taskman.Queue.Sequence.{in_sequence, run_tasks-in_sequence}
use node_apphost.RunTests.{TestHost, check_args, goes_on, test_script}
use node_apphost.RunTests.Main.{
  World, Layout, write_projects, test_file, write_tests, success, tasker, ran, failed, main,
}

-- The process behind the run of the test script.
abbrev pub verdict : Layout → Exec World → Machine World
verdict l (succeeded w) = record {
  tasker = [];
  world = record w { lines = w.lines ++ success ∷ [] };
  shown = js "Testing.." ∷ [];
  phase = Phase.idle;
}
verdict l (failed w) = record {
  tasker = elim (tasker l) [ [] ↦ [] | _ ∷ ts ↦ ts ];
  world = w;
  shown = js "Testing.." ∷ [];
  phase = Phase.exited 1;
}

verdict_of :
    (l : Layout) (shell : Str → World → Exec World) (w : World) (x : Exec World)
    → is_empty (test_file l) ≡ false
    → shell (test_file l) w ≡ x
    → in_sequence shell (tasker l) w [] ≡ verdict l x
unfolding tasker js
verdict_of l shell w (succeeded w') filled e = ground arith
verdict_of l shell w (failed w') filled e = ground arith

written :
    (l : Layout) (h : TestHost) (w : World)
    → lookup (test_file l) (write_tests l h w).files ≡ some (test_script h)
unfolding write_tests
written l h w = lookup-insert_self (test_file l) (test_script h) w.files

-- When the arguments are complete and the templates are there, the test script is written first,
-- under the name that is run and with the text of `test_script`. The run of the tests prints that
-- they completed successfully, and ends with nothing left, exactly if the script succeeds;
-- otherwise the process ends with 1 and prints nothing of the kind.
pub main-verdict :
    (l : Layout) (shell : Str → World → Exec World) (h : TestHost) (w w' : World)
    → check_args h ≡ goes_on
    → write_projects l h w ≡ some w'
    → is_empty (test_file l) ≡ false
    → (lookup (test_file l) (write_tests l h w').files ≡ some (test_script h))
      × (main l shell h w ≡ ran (verdict l (shell (test_file l) (write_tests l h w'))))
unfolding main
main-verdict l shell h w w' check projects filled = (
  written l h w',
  rw (check, projects)
      (ap ran (
        run_tasks-in_sequence shell (tasker l) (write_tests l h w') []
        ∙ verdict_of l shell (write_tests l h w') _ filled refl)),
)
