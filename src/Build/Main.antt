-- ===== src/Build/Main.antt =====
-- build.js, `setup`, `createBatch` and the end of the file: the batch files and the queue of tasks.
pub mod Queue
use node_apphost.Base.{
  ℕ, ltb, Str, js, Bool, true, false, List, [], ◌∷◌, ◌++◌, Option, none, some, if◌then◌else◌, ◌||◌,
  not,
}
use node_apphost.Base.Dict.{Dict, has, insert}
use node_apphost.Base.Search.{index_of, replace_all}
use node_apphost.Taskman.{rmdir, clone, checkout}
use node_apphost.Taskman.Queue.{Call, returns, Action, nothing, command, function, Task}
use node_apphost.Build.{
  Host, given, Settings, settings, Script, script, exits, reference_error, create_script,
}
use node_apphost.Build.Patches.{Files, patch_nodejs, patch_jxcore}
use node_apphost.Build.Release.{target_text, Plan, create_release}

-- `setup.node_url` and `setup.jxcore_url`.
unfoldable pub node_url : Host → Str
node_url h =
    given h.args (js "--url_node")
      (js "https://github.com/" ++ (if h.is_windows then js "ms-iot/node" else js "nodejs/node"))

unfoldable pub jxcore_url : Host → Str
jxcore_url h = given h.args (js "--url_jxcore") (js "https://github.com/jxcore/jxcore")

temp_file : Host → Str → Str
temp_file h name = h.join h.dirname (js "temp/" ++ name)

action_of : Option Str → Action Files
action_of none = nothing
action_of (some c) = command c

abbrev shell_task : Str → Str → Task Files
shell_task c title = record { action = command c; title = some title }

abbrev call_task : (Files → Call Files) → Task Files
call_task f = record { action = function f; title = none }

-- The tasks of `setup(false)`; `exists` is `fs.existsSync`.
unfoldable pub setup_tasks : Host → (Str → Bool) → List (Task Files)
unfolding action_of temp_file node_url jxcore_url
setup_tasks h exists =
    record {
      action = action_of (rmdir h.is_windows exists h.resolve (js "nodejs"));
      title = some (js "deleting nodejs folder");
    }
    ∷ record {
      action = action_of (rmdir h.is_windows exists h.resolve (js "jxcore"));
      title = some (js "deleting jxcore folder");
    }
    ∷ shell_task (clone (node_url h) (js "nodejs")) (js "cloning nodejs")
    ∷ shell_task (clone (jxcore_url h) (js "jxcore")) (js "cloning jxcore")
    ∷ shell_task (temp_file h (js "checkout_node.bat")) (js "checkout nodejs branch")
    ∷ shell_task (temp_file h (js "checkout_jxcore.bat")) (js "checkout jxcore branch")
    ∷ []

-- `stash` and `compile`.
stash : Host → Str → Str
unfolding temp_file
stash h repo = temp_file h (js "clean.bat") ++ (js " " ++ repo)

compile : Host → Str → Str
unfolding temp_file
compile h repo = temp_file h (js "compile.bat") ++ (js " " ++ repo)

-- The queue as the first `if` leaves it.
unfoldable pub first_tasks : Host → (Str → Bool) → List (Task Files)
unfolding setup_tasks stash
first_tasks h exists =
    if has (js "--reset") h.args || not (exists (h.resolve (js "nodejs")))
    then setup_tasks h exists
    else shell_task (stash h (js "nodejs")) (js "resetting nodejs folder")
      ∷ shell_task (stash h (js "jxcore")) (js "resetting jxcore folder")
      ∷ []

optional : Bool → Str → Action Files
optional wanted c = if wanted then command c else nothing

-- What `taskman.tasker.push` appends.
unfoldable pub build_tasks : Host → Settings → Plan → List (Task Files)
unfolding optional temp_file compile
build_tasks h st plan =
    call_task (patch_nodejs h.is_windows)
    ∷ call_task patch_jxcore
    ∷ shell_task (compile h (target_text st.forced_target))
        (js "building for " ++ (target_text st.forced_target ++ (js "@" ++ st.platform)))
    ∷ record {
      action = optional h.is_windows (temp_file h (js "copy.bat"));
      title = some (js "copying Windows binaries");
    }
    ∷ record {
      action = optional (has (js "--test") h.args) (temp_file h (js "test.bat"));
      title = some (js "testing");
    }
    ∷ shell_task plan.script_file (js "copying binaries into " ++ plan.output_folder)
    ∷ call_task (λ s. returns s)
    ∷ []

-- The branch of the Node repository that is checked out: `indexOf` above 0.
found_inside : Option ℕ → Bool
found_inside none = false
found_inside (some n) = ltb 0 n

unfoldable pub node_branch : Host → Str
unfolding found_inside node_url
node_branch h = given h.args (js "--cid_node") (
    if found_inside (index_of (js "ms-iot/node") (node_url h))
    then js "chakra-uwp"
    else js "master")

jxcore_branch : Host → Str
jxcore_branch h = given h.args (js "--cid_jxcore") (js "master")

-- The template of copy.bat, filled in by three calls of `replace`.
copy_batch : Host → Settings → Str
copy_batch h st = replace_all (js "$$TARGET") (h.join h.dirname (target_text st.forced_target)) (
    replace_all (js "$TAPP") (h.join h.dirname (js "winproj\\test_app/")) (
      replace_all (js "$$MODE") (if st.release then js "Release" else js "Debug") (
        js "del $TAPP*.lib \n"
        ++ (js "del $TAPP*.dll \n"
            ++ (js "copy $$TARGET\\$$MODE\\*.lib $TAPP\n"
                ++ js "copy $$TARGET\\$$MODE\\*.dll $TAPP\n")))))

test_batch : Host → Settings → Str
test_batch h st =
    js "cd tests\nnode runtests.js --target="
    ++ (target_text st.forced_target
        ++ (js " --dest-cpu="
            ++ (given h.args (js "--dest-cpu") (js "x64")
                ++ (if h.is_windows
                    then js " --mode="
                      ++ (given h.args (js "--release") (js "Debug") ++ js "\nexit %errorlevel%")
                    else js "\nexit $?"))))

-- The files that `createBatch` writes, in order, for the script that has been made.
unfoldable pub batch_files : Host → Str → Settings → List (Str × Str)
unfolding copy_batch test_batch jxcore_branch node_branch
batch_files h text st =
    (js "./temp/compile.bat", text)
    ∷ ((if h.is_windows
          then (js "./temp/clean.bat", js "cd %1\ngit checkout -f")
            ∷ (js "./temp/copy.bat", copy_batch h st)
            ∷ []
          else (js "./temp/clean.bat", js "cd $1;git checkout -f") ∷ [])
        ++ ((js "./temp/checkout_node.bat", checkout (js "nodejs") (node_branch h))
            ∷ (js "./temp/checkout_jxcore.bat", checkout (js "jxcore") (jxcore_branch h))
            ∷ (js "./temp/test.bat", test_batch h st)
            ∷ []))

-- How the file ends before the first task: with batch files and a queue, by `process.exit`, or by
-- an exception.
pub data Start : Type 0 where
  tasks : List (Str × Str) → List (Task Files) → Start
  exited : ℕ → Start
  failed : Start

unfoldable pub with_plan : Host → (Str → Bool) → Str → Settings → Option Plan → Start
with_plan h exists text st none = failed
with_plan h exists text st (some plan) =
    tasks (batch_files h text st) (first_tasks h exists ++ build_tasks h st plan)

unfoldable pub with_script : Host → (Str → Bool) → Script → Start
unfolding with_plan
with_script h exists (script text st) = with_plan h exists text st (create_release h st)
with_script h exists (exits n) = exited n
with_script h exists reference_error = failed

-- `--help` prints the options and exits with 0.
unfoldable pub main : Host → (Str → Bool) → Start
unfolding with_script
main h exists =
    if has (js "--help") h.args
    then exited 0
    else with_script h exists (create_script h (settings h.args))
