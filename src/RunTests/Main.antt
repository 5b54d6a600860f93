-- ===== src/RunTests/Main.antt =====
-- tests/runtests.js from its first line to its last: the files that it writes, and its queue.
pub mod Verdict
use node_apphost.Base.{
  Str, js, Bool, true, false, List, [], ◌∷◌, ◌++◌, Option, none, some, if◌then◌else◌, ◌+◌, ◌*◌,
  length,
}
use node_apphost.Base.Dict.{Dict, lookup, insert, has}
use node_apphost.Taskman.Queue.{
  Exec, Call, returns, command, function, Task, Machine, steps, start_with,
}
use node_apphost.RunTests.{
  TestHost, Check, exits, goes_on, check_args, test_script, project_file, solution_file,
}
use node_apphost.Help.{Help, test_help}

-- The disk and the terminal: files by their names, those with mode 0755, and the lines of
-- `console.log` and `console.error` that the tasks print.
pub record World : Type 0 where
  pub files : Dict Str
  pub executable : List Str
  pub lines : List Str

-- `at` is `path.join` of the folder of the tests and a relative path; `rejects` is that of `pad`.
pub record Layout : Type 0 where
  pub at : Str → Str
  pub rejects : Bool

write_world : Str → Str → World → World
write_world name contents w = record w { files = insert name contents w.files }

-- The project files; `none` is the exception of `readFileSync`.
from_template : Layout → Str → Str → (Str → Str) → World → Option World
unfolding write_world
from_template l template name fill w = elim (lookup (l.at template) w.files) [
  | none ↦ none
  | some t ↦ some (write_world (l.at name) (fill t) w)
]

infixl 5 ◌>>=◌
abbrev pub ◌>>=◌ : {A B : Type 0} → Option A → (A → Option B) → Option B
none >>= f = none
some a >>= f = f a

unfoldable pub write_projects : Layout → TestHost → World → Option World
unfolding from_template
write_projects l h w =
    if h.is_windows
    then (do
      w' ←
          from_template l (js "../winproj/test_app/test_app.vcxproj")
            (js "../winproj/test_app/current.vcxproj") (project_file h) w
      from_template l (js "../winproj/test_app/test_app.sln") (js "../winproj/test_app/current.sln")
          (solution_file h) w')
    else some w

-- `root_folder` joined with `temp/build_test.bat`.
unfoldable pub test_file : Layout → Str
unfolding js
test_file l = l.at (js "../temp/build_test.bat")

unfoldable pub write_tests : Layout → TestHost → World → World
unfolding write_world test_file
write_tests l h w =
    let w' = write_world (test_file l) (test_script h) w in
    record w' { executable = if h.is_windows then w'.executable else test_file l ∷ w'.executable }

unfoldable pub success : Str
unfolding js
success = js "Tests completed successfully"

-- The queue.
unfoldable pub tasker : Layout → List (Task World)
unfolding test_file success
tasker l =
    record { action = command (test_file l); title = some (js "Testing..") }
    ∷ record {
      action = function (λ w. returns (record w { lines = w.lines ++ success ∷ [] }));
      title = none;
    }
    ∷ []

-- How the file ends: with the help, with an exception, or with its queue on the event loop.
pub data Outcome : Type 0 where
  helped : Help → Outcome
  failed : Outcome
  ran : Machine World → Outcome

queue_of : Layout → (Str → World → Exec World) → TestHost → Option World → Outcome
unfolding write_tests tasker steps
queue_of l shell h none = failed
queue_of l shell h (some w) =
    ran (steps shell (2 * length (tasker l) + 1) (start_with (tasker l) (write_tests l h w) []))

checked : Layout → (Str → World → Exec World) → TestHost → World → Check → Outcome
unfolding queue_of write_projects test_help
checked l shell h w (exits true) = helped (test_help l.rejects 0)
checked l shell h w (exits false) = helped (test_help l.rejects 1)
checked l shell h w goes_on = queue_of l shell h (write_projects l h w)

unfoldable pub main : Layout → (Str → World → Exec World) → TestHost → World → Outcome
unfolding checked
main l shell h w = checked l shell h w (check_args h)
