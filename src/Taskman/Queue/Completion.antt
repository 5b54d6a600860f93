-- ===== src/Taskman/Queue/Completion.antt =====
-- How a run of the task queue ends.
use node_apphost.Base.{
  ℕ, zero, suc, ◌+◌, ◌*◌, ◌≤◌, ◌<◌, Str, true, false, not, ◌&&◌, List, [], ◌∷◌, ◌++◌, if◌then◌else◌,
  is_empty, length, length-append, ◌≡◌, ◌⊎◌, inl, inr, refl, ◌∙◌, ap, arith,
}
use Prim.Native.Nat.add
use mathlib.Core.List.{append_assoc, append-nil}
use node_apphost.Taskman.Queue.{
  Exec, succeeded, failed, Call, returns, exits, command, function, Task, Phase, ready, waiting,
  idle, exited, Machine, has_action, title_text, step, steps, start_with,
}

-- The process waits for nothing any more.
abbrev pub Ends : Phase → Type 0
Ends ready = ⊥
Ends (waiting c) = ⊥
Ends _ = Unit

abbrev turns_left : Phase → ℕ → ℕ
turns_left ready n = 2 * n + 1
turns_left (waiting c) n = 2 * n + 2
turns_left _ n = 0

-- The lines `Running [ title ]` that a task prints.
abbrev pub titles : {S : Type 0} → List (Task S) → List Str
titles [] = []
titles (t ∷ ts) =
    (if has_action t.action && not (is_empty (title_text t.title))
      then title_text t.title ∷ []
      else [])
    ++ titles ts

-- The task starts a child process for the command.
pub record Spawns {S : Type 0} (t : Task S) (c : Str) : Type 0 where
  pub cmd : t.action ≡ command c
  pub cmd_filled : is_empty c ≡ false
  pub titled : is_empty (title_text t.title) ≡ false

-- The task calls the function.
pub record Calls {S : Type 0} (t : Task S) (f : S → Call S) : Type 0 where
  pub fn : t.action ≡ function f
  pub untitled : is_empty (title_text t.title) ≡ true

pub titles-append :
    {S : Type 0} (ts us : List (Task S)) → titles (ts ++ us) ≡ titles ts ++ titles us
titles-append [] us = refl
titles-append (t ∷ ts) us = simp (titles-append ts us, append_assoc)

module _ {S : Type 0} (shell : Str → S → Exec S) where
  -- A task that lets the queue go on, and what it does to the file system.
  pub data Completes (t : Task S) (w : S) : S → Type 0 where
    ran : {w' : S} (c : Str) → Spawns t c → shell c w ≡ succeeded w' → Completes t w w'
    called : {w' : S} (f : S → Call S) → Calls t f → f w ≡ returns w' → Completes t w w'
    skipped : has_action t.action ≡ false → Completes t w w

  pub data CompleteAll : List (Task S) → S → S → Type 0 where
    done : {w : S} → CompleteAll [] w w
    next :
        {t : Task S} {ts : List (Task S)} {w w' w'' : S}
        → Completes t w w'
        → CompleteAll ts w' w''
        → CompleteAll (t ∷ ts) w w''

  -- A task that ends the process with an exit code.
  pub data Quits (t : Task S) (w : S) : S → ℕ → Type 0 where
    child_failed :
        {w' : S} (c : Str) {code : ℕ}
        → Spawns t c
        → shell c w ≡ failed w'
        → code ≡ 1
        → Quits t w w' code
    call_exited :
        {w' : S} (f : S → Call S) {code : ℕ} → Calls t f → f w ≡ exits code w' → Quits t w w' code

  steps_of_Ends : (n : ℕ) (m : Machine S) → Ends m.phase → steps shell n m ≡ m
  unfolding steps
  steps_of_Ends zero m h = refl
  steps_of_Ends (suc n) m h = ground (arith, steps_of_Ends n m)

  pub steps_settled :
      (n b : ℕ) (m : Machine S)
      → n ≤ b
      → Ends (steps shell n m).phase
      → steps shell b m ≡ steps shell n m
  unfolding steps
  steps_settled zero b m h e = steps_of_Ends b m e
  steps_settled (suc n) zero m h e = absurd (omega arith)
  steps_settled (suc n) (suc b) m h e = steps_settled n b (step shell m) (omega arith) e

  turns_left-step :
      (m : Machine S)
      → (Ends m.phase)
        ⊎ (turns_left (step shell m).phase (length (step shell m).tasker)
            < turns_left m.phase (length m.tasker))
  unfolding step
  turns_left-step m = ground arith

  Ends-turns_left :
      (n : ℕ) (m : Machine S)
      → turns_left m.phase (length m.tasker) ≤ n
      → Ends (steps shell n m).phase
  unfolding steps
  Ends-turns_left zero m h = ground arith
  Ends-turns_left (suc n) m h = elim (turns_left-step m) [
    | inl e ↦ rw (steps_of_Ends (suc n) m e) e
    | inr lt ↦ Ends-turns_left n (step shell m) (omega arith)
  ]

  -- Whatever the tasks are and do, the process of a queue of `n` tasks waits for nothing after
  -- `2 * n + 1` turns of the event loop.
  pub run_tasks_terminates :
      (ts : List (Task S)) (w : S) (shown : List Str)
      → Ends (steps shell (2 * length ts + 1) (start_with ts w shown)).phase
  run_tasks_terminates ts w shown =
      Ends-turns_left (2 * length ts + 1) (start_with ts w shown) (omega arith)

  unfoldable pub Reaches : ℕ → Machine S → Machine S → Type 0
  Reaches b m m' = (n : ℕ) × (n ≤ b) × (steps shell n m ≡ m')

  pub steps-add :
      (n k : ℕ) (m : Machine S) → steps shell (n + k) m ≡ steps shell k (steps shell n m)
  unfolding steps
  steps-add zero k m = rw (add.zero k)
  steps-add (suc n) k m = rw (add.suc n k) (steps-add n k (step shell m))

  pub complete_one :
      (t u : Task S) (ts : List (Task S)) (w w' : S) (shown : List Str)
      → Completes t w w'
      → Reaches 2
          (start_with (t ∷ u ∷ ts) w shown)
          (start_with (u ∷ ts) w' (shown ++ titles (t ∷ [])))
  unfolding steps Reaches
  complete_one t u ts w w' shown (ran c s e) = (2, omega arith, ground (arith, s))
  complete_one t u ts w w' shown (called f s e) =
      (1, omega arith, ground (arith, s, append-nil shown))
  complete_one t u ts w w' shown (skipped h) = (1, omega arith, ground (arith, append-nil shown))

  regroup :
      (shown : List Str) (ts us : List (Task S))
      → shown ++ titles ts ++ titles us ≡ shown ++ titles (ts ++ us)
  regroup shown ts us = rw (titles-append ts us) (append_assoc shown (titles ts) (titles us))

  ended : List (Task S) → S → Phase → List Str → Machine S
  ended ts w p shown = record { tasker = ts; world = w; shown = shown; phase = p }

  complete_prefix :
      (pre : List (Task S)) (u : Task S) (us : List (Task S)) (w w' : S) (shown : List Str)
      → CompleteAll pre w w'
      → Reaches
          (2 * length pre)
          (start_with (pre ++ u ∷ us) w shown)
          (start_with (u ∷ us) w' (shown ++ titles pre))
  unfolding Reaches steps
  complete_prefix [] u us w w' shown done = (0, omega arith, rw (append-nil shown))
  complete_prefix (t ∷ []) u us w w' shown (next {w' = v} c done) = complete_one t u us w v shown c
  complete_prefix (t ∷ t' ∷ ts) u us w w' shown (next {w' = v} c cs) =
      let (n, le_n, e) = complete_one t t' (ts ++ u ∷ us) w v shown c in
      let (k, le_k, e') = complete_prefix (t' ∷ ts) u us v w' (shown ++ titles (t ∷ [])) cs in
      (
        n + k,
        omega arith,
        steps-add n k _
            ∙ ap (steps shell k) e
            ∙ e'
            ∙ ap (start_with (u ∷ us) w') (regroup shown (t ∷ []) (t' ∷ ts)),
      )

  pub settle : (b : ℕ) (m m' : Machine S) → Ends m'.phase → Reaches b m m' → steps shell b m ≡ m'
  unfolding Reaches
  settle b m m' end (n, le_n, e) = steps_settled n b m le_n (rw e end) ∙ e

  pub finish_last :
      (t : Task S) (w w' : S) (shown : List Str)
      → Completes t w w'
      → steps shell 3 (start_with (t ∷ []) w shown)
        ≡ record { tasker = []; world = w'; shown = shown ++ titles (t ∷ []); phase = idle }
  unfolding steps
  finish_last t w w' shown (ran c s e) = ground (arith, s)
  finish_last t w w' shown (called f s e) = ground (arith, s, append-nil shown)
  finish_last t w w' shown (skipped h) = ground (arith, append-nil shown)

  stop_first :
      (t : Task S) (post : List (Task S)) (w w' : S) (code : ℕ) (shown : List Str)
      → Quits t w w' code
      → steps shell 2 (start_with (t ∷ post) w shown) ≡ record {
        tasker = post;
        world = w';
        shown = shown ++ titles (t ∷ []);
        phase = exited code;
      }
  unfolding steps
  stop_first t post w w' code shown (child_failed c s e h) = ground (arith, s)
  stop_first t post w w' code shown (call_exited f s e) = ground (arith, s, append-nil shown)

  -- If every task lets the queue go on, the queue is empty in the end, every effect has been made
  -- once and in order, each child's title is printed in order, and the process is not ended.
  pub run_tasks_completes :
      (ts : List (Task S)) (w w' : S) (shown : List Str)
      → CompleteAll ts w w'
      → steps shell (2 * length ts + 1) (start_with ts w shown)
        ≡ record { tasker = []; world = w'; shown = shown ++ titles ts; phase = idle }
  unfolding steps Reaches ended
  run_tasks_completes [] w w' shown done = rw (append-nil shown)
  run_tasks_completes (t ∷ []) w w' shown (next c done) = finish_last t w w' shown c
  run_tasks_completes (t ∷ u ∷ us) w w' shown (next {w' = v} c cs) =
      let (n, le_n, e) = complete_one t u us w v shown c in
      settle (2 * length (t ∷ u ∷ us) + 1) _ _ tt (
        n + (2 * length (u ∷ us) + 1),
        omega arith,
        steps-add n (2 * length (u ∷ us) + 1) _
            ∙ ap (steps shell (2 * length (u ∷ us) + 1)) e
            ∙ run_tasks_completes (u ∷ us) v w' (shown ++ titles (t ∷ [])) cs
            ∙ ap (ended [] w' idle) (regroup shown (t ∷ []) (u ∷ us)),
      )

  -- When a child fails, or a function exits, behind tasks that let the queue go on, the process
  -- ends with that code (1 for a child), and no later task is started: all of them are still in
  -- the queue, and the file system is as the stopping task left it.
  pub run_tasks_stops :
      (pre : List (Task S)) (t : Task S) (post : List (Task S)) (w w' w'' : S) (code : ℕ)
      (shown : List Str)
      → CompleteAll pre w w'
      → Quits t w' w'' code
      → steps shell (2 * length (pre ++ t ∷ post) + 1) (start_with (pre ++ t ∷ post) w shown)
        ≡ record {
          tasker = post;
          world = w'';
          shown = shown ++ titles (pre ++ t ∷ []);
          phase = exited code;
        }
  unfolding Reaches ended
  run_tasks_stops pre t post w w' w'' code shown cs s =
      let (n, le_n, e) = complete_prefix pre t post w w' shown cs in
      settle _ _ _ tt (
        n + 2,
        omega (arith, length-append pre (t ∷ post)),
        steps-add n 2 _
            ∙ ap (steps shell 2) e
            ∙ stop_first t post w' w'' code (shown ++ titles pre) s
            ∙ ap (ended post w'' (exited code)) (regroup shown pre (t ∷ [])),
      )
