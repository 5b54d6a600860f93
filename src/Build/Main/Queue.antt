-- ===== src/Build/Main/Queue.antt =====
-- What the queue of a build guarantees.
use node_apphost.Base.{
  ◌+◌, ◌*◌, Str, js, Bool, true, List, [], ◌∷◌, ◌++◌, Option, none, some, ◌≡◌, inl, inr, drop, refl,
  ◌∙◌, ap, length, Bool-cases,
}
use mathlib.Core.List.{append-nil}
use node_apphost.Base.Dict.{has, lookup}
use node_apphost.Base.Search.{index_of, starts_with}
use node_apphost.Taskman.Queue.{Exec, function, Task, Machine, Phase, steps, start_with}
use node_apphost.Taskman.Queue.Completion.{
  CompleteAll, call_exited, titles, titles-append, run_tasks_stops,
}
use node_apphost.Build.{
  Host, Settings, settings, Script, script, exits, reference_error, create_script,
}
use node_apphost.Build.Scripts.{target_of, create_script-target}
use node_apphost.Build.Patches.{Files, patch_nodejs, sources_mark}
use node_apphost.Build.Patches.Effects.{patch_nodejs_refuses}
use node_apphost.Build.Release.{Plan, create_release}
use node_apphost.Build.Main.{
  first_tasks, build_tasks, tasks, exited, batch_files, with_plan, with_script, main,
}

ended : Host → Settings → Plan → Files → List Str → Machine Files
ended h st plan s shown = record {
  tasker = drop 1 (build_tasks h st plan);
  world = s;
  shown = shown;
  phase = Phase.exited 1;
}

-- If the cloned node.gyp does not hold the place for the wrapper's sources, nothing is compiled:
-- behind the first tasks the process ends with 1, the files are as those tasks left them, and the
-- compile command and all that follows it are still in the queue.
pub build_stops_unpatched :
    (shell : Str → Files → Exec Files) (h : Host) (exists : Str → Bool) (st : Settings)
    (plan : Plan) (s s' : Files) (gyp : Str)
    → CompleteAll shell (first_tasks h exists) s s'
    → lookup (js "./nodejs/node.gyp") s' ≡ some gyp
    → index_of sources_mark gyp ≡ none
    → let ts = first_tasks h exists ++ build_tasks h st plan in
      steps shell (2 * length ts + 1) (start_with ts s []) ≡ record {
        tasker = drop 1 (build_tasks h st plan);
        world = s';
        shown = titles (first_tasks h exists);
        phase = Phase.exited 1;
      }
unfolding build_tasks ended
build_stops_unpatched shell h exists st plan s s' gyp first found absent =
    let t : Task Files = record { action = function (patch_nodejs h.is_windows); title = none } in
    run_tasks_stops shell (first_tasks h exists) t (drop 1 (build_tasks h st plan)) s s' s' 1 []
      first
      (call_exited (patch_nodejs h.is_windows) (record { fn = refl; untitled = refl })
        (patch_nodejs_refuses h.is_windows s' gyp found absent))
    ∙ ap (ended h st plan s')
        (titles-append (first_tasks h exists) (t ∷ []) ∙ append-nil (titles (first_tasks h exists)))

-- The parts of a start with a queue.
abbrev StartsWith :
    Host → (Str → Bool) → Str → Settings → List (Str × Str) → List (Task Files) → Type 0
StartsWith h exists text st files queue =
    (plan : Plan) × (files ≡ batch_files h text st)
    × (queue ≡ first_tasks h exists ++ build_tasks h st plan)

with_plan_lem :
    (h : Host) (exists : Str → Bool) (text : Str) (st : Settings) (o : Option Plan)
    (files : List (Str × Str)) (queue : List (Task Files))
    → with_plan h exists text st o ≡ tasks files queue
    → StartsWith h exists text st files queue
unfolding with_plan
with_plan_lem h exists text st none files queue e = cc
with_plan_lem h exists text st (some plan) files queue e = (plan, cc, cc)

with_script_lem :
    (h : Host) (exists : Str → Bool) (made : Script) (files : List (Str × Str))
    (queue : List (Task Files))
    → with_script h exists made ≡ tasks files queue
    → (text : Str) × (st : Settings) × (made ≡ script text st)
      × StartsWith h exists text st files queue
unfolding with_script
with_script_lem h exists (script text st) files queue e =
    (text, st, refl, with_plan_lem h exists text st (create_release h st) files queue e)
with_script_lem h exists (exits n) files queue e = cc
with_script_lem h exists reference_error files queue e = cc

batch_files_head :
    (h : Host) (text : Str) (st : Settings)
    → (rest : List (Str × Str)) × (batch_files h text st ≡ (js "./temp/compile.bat", text) ∷ rest)
unfolding batch_files
batch_files_head h text st = (_, refl)

-- When build.js comes to its queue, it has first written compile.bat, with a script that starts in
-- the folder of the engine that is wanted; and the queue is that of a new or of a kept clone,
-- followed by the tasks of the build for that engine.
pub main_writes_script :
    (h : Host) (exists : Str → Bool) (files : List (Str × Str)) (queue : List (Task Files))
    → main h exists ≡ tasks files queue
    → (text : Str) × (rest : List (Str × Str)) × (st : Settings) × (plan : Plan) × (files
        ≡ (js "./temp/compile.bat", text) ∷ rest)
      × (starts_with (js "cd " ++ target_of h (settings h.args)) text ≡ true)
      × (st.forced_target ≡ some (target_of h (settings h.args)))
      × (queue ≡ first_tasks h exists ++ build_tasks h st plan)
unfolding main
main_writes_script h exists files queue e = elim (Bool-cases (has (js "--help") h.args)) [
  | inl help ↦ let e' : exited 0 ≡ tasks files queue = rw help at e in absurd (cc)
  | inr no_help ↦
      let (text, st, made, parts) =
        with_script_lem h exists (create_script h (settings h.args)) files queue
          (rw no_help at e) in
      let (plan, written, queued) = parts in
      let (target, kept, kind, start) = create_script-target h (settings h.args) st text made in
      let (rest, head) = batch_files_head h text st in
      (text, rest, st, plan, written ∙ head, start, target, queued)
]
