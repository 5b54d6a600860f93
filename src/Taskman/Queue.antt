-- ===== src/Taskman/Queue.antt =====
-- The task queue of tools/taskman.js, `exec` and `runTasks`, as a machine that the event loop steps.
-- `S` is the state of the file system, and `shell` what a child process does to it.
pub mod Completion
pub mod Sequence
use node_apphost.Base.{
  ℕ, zero, suc, Str, Bool, true, false, not, ◌&&◌, List, [], ◌∷◌, ◌++◌, Option, none, some,
  if◌then◌else◌, is_empty,
}

-- What the callback of `child_process.exec` is told: `err` is null or not.
pub data Exec (S : Type 0) : Type 0 where
  succeeded failed : S → Exec S

-- A function that is called as a task returns, calls `process.exit`, or throws.
pub data Call (S : Type 0) : Type 0 where
  returns : S → Call S
  exits : ℕ → S → Call S
  throws : S → Call S

-- `task[0]`: undefined or null, a command, or a function.
pub data Action (S : Type 0) : Type 0 where
  nothing : Action S
  command : Str → Action S
  function : (S → Call S) → Action S

pub record Task (S : Type 0) : Type 0 where
  pub action : Action S
  pub title : Option Str

-- `ready`: a call of `runTasks` is due. `waiting c`: the child process of `c` runs.
pub data Phase : Type 0 where
  ready : Phase
  waiting : Str → Phase
  idle : Phase
  exited : ℕ → Phase
  crashed : Phase

pub record Machine (S : Type 0) : Type 0 where
  pub tasker : List (Task S)
  pub world : S
  pub shown : List Str
  pub phase : Phase

abbrev pub has_action : {S : Type 0} → Action S → Bool
has_action nothing = false
has_action (command c) = not (is_empty c)
has_action (function f) = true

abbrev pub title_text : Option Str → Str
title_text none = []
title_text (some t) = t

-- `exports.exec`: starts the child; `exec` refuses what is no string by an exception.
start : {S : Type 0} → Action S → Machine S → Machine S
start (command c) m = record m { phase = waiting c }
start _ m = record m { phase = crashed }

-- `task[0]()`: a text is no function.
after_call : {S : Type 0} → Call S → Machine S → Machine S
after_call (returns w) m = record m { world = w; phase = ready }
after_call (exits n w) m = record m { world = w; phase = exited n }
after_call (throws w) m = record m { world = w; phase = crashed }

call_task : {S : Type 0} → Action S → Machine S → Machine S
unfolding after_call
call_task (function f) m = after_call (f m.world) m
call_task _ m = record m { phase = crashed }

run_task : {S : Type 0} → Task S → Machine S → Machine S
unfolding start call_task
run_task t m =
    if has_action t.action && not (is_empty (title_text t.title))
    then start t.action (record m { shown = m.shown ++ title_text t.title ∷ [] })
    else (if has_action t.action then call_task t.action m else record m { phase = ready })

-- `exports.runTasks`.
run_tasks : {S : Type 0} → List (Task S) → Machine S → Machine S
unfolding run_task
run_tasks [] m = record m { phase = idle }
run_tasks (t ∷ ts) m = run_task t (record m { tasker = ts })

-- The callback of a child: `console.error` and `process.exit(1)`, or on with the queue if it is
-- not empty.
child_done : {S : Type 0} → Exec S → Machine S → Machine S
child_done (failed w) m = record m { world = w; phase = exited 1 }
child_done (succeeded w) m = record m {
  world = w;
  phase = if is_empty m.tasker then idle else ready;
}

-- One turn of the event loop.
turn : {S : Type 0} → (Str → S → Exec S) → Phase → Machine S → Machine S
unfolding run_tasks child_done
turn shell ready m = run_tasks m.tasker m
turn shell (waiting c) m = child_done (shell c m.world) m
turn shell _ m = m

unfoldable pub step : {S : Type 0} → (Str → S → Exec S) → Machine S → Machine S
unfolding turn
step shell m = turn shell m.phase m

unfoldable pub steps : {S : Type 0} → (Str → S → Exec S) → ℕ → Machine S → Machine S
unfolding step
steps shell zero m = m
steps shell (suc n) m = steps shell n (step shell m)

-- A fresh queue, at the first call of `runTasks`.
abbrev pub start_with : {S : Type 0} → List (Task S) → S → List Str → Machine S
start_with ts w shown = record { tasker = ts; world = w; shown = shown; phase = ready }
