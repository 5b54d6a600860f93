-- ===== src/Taskman/Queue/Sequence.antt =====
-- The queue against its specification: a plain recursion that runs the tasks one after another.
use node_apphost.Base.{
  ◌+◌, ◌*◌, Str, true, false, List, [], ◌∷◌, ◌++◌, is_empty, length, ◌≡◌, refl, ◌∙◌, ap, arith,
  Bool, ◌⊎◌, inl, inr,
}
use mathlib.Core.List.{append-nil}
use node_apphost.Taskman.Queue.{
  Exec, succeeded, failed, Call, returns, exits, throws, Action, nothing, command, function, Task,
  Phase, idle, exited, crashed, Machine, has_action, title_text, steps, start_with,
}
use node_apphost.Taskman.Queue.Completion.{
  Ends, titles, Completes, ran, called, skipped, finish_last, complete_one, Reaches, settle,
  steps-add, steps_settled,
}

-- What a task comes to: the queue goes on, or the process ends.
pub data Effect (S : Type 0) : Type 0 where
  goes_on : S → Effect S
  ends : (p : Phase) → Ends p → S → Effect S

module _ {S : Type 0} (shell : Str → S → Exec S) where
  abbrev of_child : Exec S → Effect S
  of_child (succeeded w) = goes_on w
  of_child (failed w) = ends (exited 1) tt w

  abbrev of_call : Call S → Effect S
  of_call (returns w) = goes_on w
  of_call (exits n w) = ends (exited n) tt w
  of_call (throws w) = ends crashed tt w

  -- A command needs a title and a function must have none; the other way round the process crashes.
  abbrev pub effect : Action S → Bool → S → Effect S
  effect nothing untitled w = goes_on w
  effect (command []) untitled w = goes_on w
  effect (command (c ∷ cs)) true w = ends crashed tt w
  effect (command (c ∷ cs)) false w = of_child (shell (c ∷ cs) w)
  effect (function f) true w = of_call (f w)
  effect (function f) false w = ends crashed tt w

  -- One task after another, up to the first that ends the process.
  abbrev pub in_sequence : List (Task S) → S → List Str → Machine S
  in_sequence [] w shown = record { tasker = []; world = w; shown = shown; phase = idle }
  in_sequence (t ∷ ts) w shown = elim (effect t.action (is_empty (title_text t.title)) w) [
    | goes_on w' ↦ in_sequence ts w' (shown ++ titles (t ∷ []))
    | ends p _ w' ↦ record { tasker = ts; world = w'; shown = shown ++ titles (t ∷ []); phase = p }
  ]

  child_goes_on : (x : Exec S) (w : S) → of_child x ≡ goes_on w → x ≡ succeeded w
  child_goes_on (succeeded v) w e = cc
  child_goes_on (failed v) w e = cc

  call_goes_on : (x : Call S) (w : S) → of_call x ≡ goes_on w → x ≡ returns w
  call_goes_on (returns v) w e = cc
  call_goes_on (exits n v) w e = cc
  call_goes_on (throws v) w e = cc

  skips : (t : Task S) (w w' : S) → has_action t.action ≡ false → w ≡ w' → Completes shell t w w'
  skips t w w' h e = rw (← e) (skipped h)

  completion_of :
      (t : Task S) (a : Action S) (b : Bool) (w w' : S)
      → t.action ≡ a
      → is_empty (title_text t.title) ≡ b
      → effect a b w ≡ goes_on w'
      → Completes shell t w w'
  completion_of t nothing b w w' ha hb e = skips t w w' (rw ha) (cc)
  completion_of t (command []) b w w' ha hb e = skips t w w' (rw ha) (cc)
  completion_of t (command (c ∷ cs)) true w w' ha hb e = cc
  completion_of t (command (c ∷ cs)) false w w' ha hb e =
      ran (c ∷ cs) (record { cmd = ha; cmd_filled = refl; titled = hb }) (child_goes_on _ w' e)
  completion_of t (function f) true w w' ha hb e =
      called f (record { fn = ha; untitled = hb }) (call_goes_on _ w' e)
  completion_of t (function f) false w w' ha hb e = cc

  ends_in_two :
      (t : Task S) (post : List (Task S)) (p : Phase) (h : Ends p) (w w' : S) (shown : List Str)
      → effect t.action (is_empty (title_text t.title)) w ≡ ends p h w'
      → steps shell 2 (start_with (t ∷ post) w shown)
        ≡ record { tasker = post; world = w'; shown = shown ++ titles (t ∷ []); phase = p }
  unfolding steps
  ends_in_two t post p h w w' shown e = ground (arith, append-nil shown)

  stopped :
      (t : Task S) (post : List (Task S)) (p : Phase) (h : Ends p) (w w' : S) (shown : List Str)
      → effect t.action (is_empty (title_text t.title)) w ≡ ends p h w'
      → steps shell (2 * length (t ∷ post) + 1) (start_with (t ∷ post) w shown)
        ≡ record { tasker = post; world = w'; shown = shown ++ titles (t ∷ []); phase = p }
  stopped t post p h w w' shown e =
      let two = ends_in_two t post p h w w' shown e in
      steps_settled shell 2 (2 * length (t ∷ post) + 1) _ (omega arith) (rw two h) ∙ two

  effect_cases :
      (x : Effect S)
      → ((w : S) × (x ≡ goes_on w)) ⊎ ((p : Phase) × (h : Ends p) × (w : S) × (x ≡ ends p h w))
  effect_cases (goes_on w) = inl (w, refl)
  effect_cases (ends p h w) = inr (p, h, w, refl)

  Ends-in_sequence :
      (ts : List (Task S)) (w : S) (shown : List Str) → Ends (in_sequence ts w shown).phase
  Ends-in_sequence [] w shown = tt
  Ends-in_sequence (t ∷ ts) w shown =
      elim (effect_cases (effect t.action (is_empty (title_text t.title)) w)) [
        | inl (v, e) ↦ rw (Ends, in_sequence, e) (Ends-in_sequence ts v (shown ++ titles (t ∷ [])))
        | inr (p, h, v, e) ↦ rw (Ends, in_sequence, e) h
      ]

  go_on :
      (t : Task S) (ts : List (Task S)) (w w' : S) (shown : List Str)
      → Completes shell t w w'
      → ((v : S) (lines : List Str)
          → steps shell (2 * length ts + 1) (start_with ts v lines) ≡ in_sequence ts v lines)
      → steps shell (2 * length (t ∷ ts) + 1) (start_with (t ∷ ts) w shown)
        ≡ in_sequence ts w' (shown ++ titles (t ∷ []))
  unfolding Reaches
  go_on t [] w w' shown c ih = finish_last shell t w w' shown c
  go_on t (u ∷ us) w w' shown c ih =
      let (n, le_n, e) = complete_one shell t u us w w' shown c in
      let lines = shown ++ titles (t ∷ []) in
      settle shell (2 * length (t ∷ u ∷ us) + 1) _ _ (Ends-in_sequence (u ∷ us) w' lines) (
        n + (2 * length (u ∷ us) + 1),
        omega arith,
        steps-add shell n (2 * length (u ∷ us) + 1) _
            ∙ ap (steps shell (2 * length (u ∷ us) + 1)) e
            ∙ ih w' lines,
      )

  -- The machine that the event loop steps does what the plain recursion says, for every queue and
  -- whatever its tasks do: which effects are made, in which order, what is printed, how the process
  -- ends, and which tasks are left.
  pub run_tasks-in_sequence :
      (ts : List (Task S)) (w : S) (shown : List Str)
      → steps shell (2 * length ts + 1) (start_with ts w shown) ≡ in_sequence ts w shown
  run_tasks-in_sequence [] w shown = unfold steps in refl
  run_tasks-in_sequence (t ∷ ts) w shown =
      elim (effect_cases (effect t.action (is_empty (title_text t.title)) w)) [
        | inl (v, e) ↦
            rw (in_sequence, e)
              (go_on t ts w v shown (completion_of t t.action _ w v refl refl e)
                (run_tasks-in_sequence ts))
        | inr (p, h, v, e) ↦ rw (in_sequence, e) (stopped t ts p h w v shown e)
      ]
