-- ===== src/Tests/TaskmanTests.antt =====
-- Command lines and task queues of build.js, run.
use node_apphost.Base.{
  ℕ, ◌+◌, Str, js, str_eq, true, false, [], ◌∷◌, none, some, if◌then◌else◌, ◌≡◌, refl,
}
use node_apphost.Base.Dict.{lookup, insert}
use node_apphost.Base.Text.{split_on}
use node_apphost.Taskman.{text, one, strip_quotes, parse_args, rmdir, clone, checkout}
use node_apphost.Taskman.Args.{last_given, lookup-parse_args}
use node_apphost.Taskman.Queue.{
  Exec, succeeded, failed, returns, nothing, command, function, Task, exited, steps, start_with,
}
use node_apphost.Taskman.Queue.Completion.{
  Ends, ran, done, next, child_failed, run_tasks_terminates, run_tasks_stops,
}
use node_apphost.Taskman.Queue.Sequence.{in_sequence, run_tasks-in_sequence}

command_line :
    (lookup (js "--test") (parse_args (js "node" ∷ js "build.js" ∷ js "--test" ∷ [])) ≡ some one)
    × (lookup
          (js "--cid_node")
          (parse_args (js "node" ∷ js "build.js" ∷ js "\"--cid_node\"=ab=c" ∷ js "--x" ∷ []))
        ≡ some (text (js "ab")))
unfolding lookup parse_args js str_eq split_on strip_quotes insert
command_line = (refl, refl)

commands :
    (rmdir true (λ _. true) (λ f. f) (js "jxcore") ≡ some (js "RD /S /Q jxcore"))
    × (rmdir false (λ _. false) (λ f. f) (js "jxcore") ≡ none)
    × (clone (js "url") (js "nodejs") ≡ js "git clone url nodejs")
    × (checkout (js "nodejs") (js "v4") ≡ js "cd nodejs\ngit checkout v4")
unfolding rmdir clone checkout js
commands = (refl, refl, refl, refl)

lookup-parse_args_example :
    lookup (js "--a") (parse_args (js "node" ∷ js "b" ∷ js "--a" ∷ js "--a=2" ∷ []))
    ≡ last_given (js "--a") (js "--a" ∷ js "--a=2" ∷ [])
unfolding js
lookup-parse_args_example =
    lookup-parse_args (js "node") (js "b") (js "--a") (js "--a" ∷ js "--a=2" ∷ []) (λ e. cc)

-- A world that counts what was done, and a shell in which `make` fails.
abbrev sh : Str → ℕ → Exec ℕ
sh c n = if str_eq c (js "make") then failed n else succeeded (n + 1)

abbrev clone_task : Task ℕ
clone_task = record { action = command (js "git"); title = some (js "cloning") }

abbrev make_task : Task ℕ
make_task = record { action = command (js "make"); title = some (js "building") }

abbrev patch_task : Task ℕ
patch_task = record { action = function (λ n. returns (n + 10)); title = none }

abbrev no_task : Task ℕ
no_task = record { action = nothing; title = some (js "testing") }

run_tasks_terminates_example :
    Ends (steps sh 5 (start_with (make_task ∷ patch_task ∷ []) 0 [])).phase
run_tasks_terminates_example = run_tasks_terminates sh (make_task ∷ patch_task ∷ []) 0 []

run_tasks-in_sequence_example :
    steps sh 9 (start_with (clone_task ∷ no_task ∷ make_task ∷ patch_task ∷ []) 0 [])
    ≡ in_sequence sh (clone_task ∷ no_task ∷ make_task ∷ patch_task ∷ []) 0 []
run_tasks-in_sequence_example =
    run_tasks-in_sequence sh (clone_task ∷ no_task ∷ make_task ∷ patch_task ∷ []) 0 []

in_sequence_stops :
    in_sequence sh (clone_task ∷ no_task ∷ make_task ∷ patch_task ∷ []) 0 [] ≡ record {
      tasker = patch_task ∷ [];
      world = 1;
      shown = js "cloning" ∷ js "building" ∷ [];
      phase = exited 1;
    }
unfolding js str_eq
in_sequence_stops = refl

run_tasks_stops_example :
    steps sh 7 (start_with (clone_task ∷ make_task ∷ patch_task ∷ []) 0 []) ≡ record {
      tasker = patch_task ∷ [];
      world = 1;
      shown = js "cloning" ∷ js "building" ∷ [];
      phase = exited 1;
    }
unfolding js str_eq
run_tasks_stops_example =
    run_tasks_stops sh (clone_task ∷ []) make_task (patch_task ∷ []) 0 1 1 1 []
      (next (ran (js "git") (record { cmd = refl; cmd_filled = refl; titled = refl }) refl) done)
      (child_failed (js "make") (record { cmd = refl; cmd_filled = refl; titled = refl }) refl refl)
