-- ===== src/Server/Queue.antt =====
-- engine/cvar/Console.cpp, `QueueTask` and `Drain`, with the tasks that engine/console/
-- ConsoleServer.cpp queues: the message of a WebSocket client, and a line of the TCP protocol.
pub mod Laws
use voxhammer.Console.Floats.{Floats}
use voxhammer.Console.Execute.{Callback}
use voxhammer.Server.Messages.{Json, Hub, Handled, handle_message, with_console}
use voxhammer.Server.Line.{line_task}
use voxhammer.Base.{
  is_nil, not, ◌&&◌, true, ◌==◌, [], false, ◌%◌, ◌∷◌, Bool, if◌then◌else◌, ◌++◌, Text, ℕ, List,
  Option,
}

pub data Task : Type 0 where
  message : (conn text : Text) → Task
  command : Text → Task

-- The server with its queue, and the answers that were promised to the TCP workers.
pub record Engine (F : Type 0) : Type 0 where
  pub hub : Hub F
  pub tasks : List Task
  pub answers : List Text

-- `QueueTask`
pub queue_task : {F : Type 0} → Task → Engine F → Engine F
queue_task t e = record e { tasks = e.tasks ++ t ∷ [] }

abbrev text_opcode : ℕ
text_opcode = 1

-- `WsData`
pub ws_data : {F : Type 0} → Text → ℕ → Text → Engine F → Engine F
ws_data conn bits text e =
    if bits % 16 == text_opcode && not (is_nil text) then queue_task (message conn text) e else e

module _ (fl : Floats) (js : Json fl.F) (callback : Callback fl.F) (ts : Text) where
  open fl use {F}

  -- A task, and whether it ended with an exception.
  pub run_task : Task → Engine F → Engine F × Bool
  run_task (message conn text) e =
      let r = handle_message fl js callback ts conn text e.hub in
      (record e { hub = r.hub }, r.threw)
  run_task (command l) e =
      let (con', answer) = line_task fl callback l e.hub.con in
      (
        record e {
          hub = with_console fl js callback ts con' e.hub;
          answers = e.answers ++ answer ∷ [];
        },
        false,
      )

  -- The loop over the batch: an exception leaves it, and the tasks behind it are gone.
  pub run_batch : List Task → Engine F → Engine F × Bool
  run_batch [] e = (e, false)
  run_batch (t ∷ batch) e =
      let (e', threw) = run_task t e in if threw then (e', true) else run_batch batch e'

  -- `Drain`
  pub drain : Engine F → Engine F × Bool
  drain e = run_batch e.tasks (record e { tasks = [] })
