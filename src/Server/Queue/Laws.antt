-- ===== src/Server/Queue/Laws.antt =====
-- engine/cvar/Console.cpp, `Drain`: what the queued tasks do together.
use voxhammer.Console.Floats.{Floats}
use voxhammer.Console.Registry.{CVar, find_cvar, is_readonly}
use voxhammer.Console.Execute.{Callback}
use voxhammer.Console.Execute.Safety.{CallbacksKeep, execute-Kept}
use voxhammer.Server.Line.{line_task}
use voxhammer.Server.Messages.{Json, with_console}
use voxhammer.Server.Messages.Laws.{handle_message-is_readonly}
use voxhammer.Server.Queue.{Task, Engine, message, command, run_task, run_batch, drain}
use voxhammer.Base.{
  refl, inr, inl, Bool-cases, [], some, ◌∷◌, if◌then◌else◌, true, ◌++◌, ◌≡◌, Text, List,
}

module _ (fl : Floats) (js : Json fl.F) (callback : Callback fl.F) (ts : Text) where
  open fl use {F}

  -- A batch in two parts: the second runs after the first, if no task of that throws.
  pub run_batch-append :
      (first second : List Task) (e : Engine F)
      → run_batch fl js callback ts (first ++ second) e ≡ (
          let (e', threw) = run_batch fl js callback ts first e in
          if threw then (e', true) else run_batch fl js callback ts second e')
  unfolding run_batch
  run_batch-append [] second e = refl
  run_batch-append (t ∷ first) second e = elim (Bool-cases (run_task fl js callback ts t e).1) [
    | inl f ↦ rw f refl
    | inr f ↦ rw f (run_batch-append first second (run_task fl js callback ts t e).0)
  ]

  module _ (key : Text) (cv : CVar fl.F) (readonly : is_readonly cv.flags ≡ true)
      (keep : CallbacksKeep fl callback key cv) where
    run_task-Kept :
        (t : Task) (e : Engine F)
        → find_cvar e.hub.con key ≡ some cv
        → find_cvar (run_task fl js callback ts t e).0.hub.con key ≡ some cv
    unfolding run_task with_console line_task
    run_task-Kept (message conn text) e h =
        handle_message-is_readonly fl js callback ts key cv readonly keep conn text e.hub h
    run_task-Kept (command l) e h = execute-Kept fl callback key cv readonly keep e.hub.con l h

    run_batch-Kept :
        (batch : List Task) (e : Engine F)
        → find_cvar e.hub.con key ≡ some cv
        → find_cvar (run_batch fl js callback ts batch e).0.hub.con key ≡ some cv
    unfolding run_batch
    run_batch-Kept [] e h = h
    run_batch-Kept (t ∷ batch) e h = elim (Bool-cases (run_task fl js callback ts t e).1) [
      | inl f ↦ rw f (run_task-Kept t e h)
      | inr f ↦ rw f (run_batch-Kept batch (run_task fl js callback ts t e).0 (run_task-Kept t e h))
    ]

    -- No remote client changes a read-only cvar: a drain of the queue, whatever messages and lines
    -- are in it, leaves it as it was, if the callbacks of the commands do.
    pub drain-is_readonly :
        (e : Engine F)
        → find_cvar e.hub.con key ≡ some cv
        → find_cvar (drain fl js callback ts e).0.hub.con key ≡ some cv
    unfolding drain
    drain-is_readonly e h = run_batch-Kept e.tasks (record e { tasks = [] }) h
