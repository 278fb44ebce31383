-- ===== src/Server/Line.antt =====
-- engine/console/ConsoleServer.cpp, `LineClientLoop` and what it queues on the main thread. The
-- socket is the list of what its reads give; the check of the password is a parameter.
pub mod Split
use voxhammer.Console.Floats.{Floats}
use voxhammer.Console.Registry.{Console}
use voxhammer.Console.Execute.{execute, Callback, ExecuteResult}
use voxhammer.Base.{
  ◌||◌, [], is_nil, not, text_eq, ◌==◌, Bool, codes, if◌then◌else◌, none, ◌++◌, ◌∷◌, some, Text,
  List, Option,
}

-- What one call of `recv` gives: bytes, the end, or an error, with `line_run` after it and whether
-- it is the timeout.
pub data Recv : Type 0 where
  got : Text → Recv
  peer_closed : Recv
  failed : (running timed_out : Bool) → Recv

-- What `readLine` comes to, with the buffer and the reads that are left; or it waits for a read.
pub data LineResult : Type 0 where
  line : Text → Text → List Recv → LineResult
  ended : LineResult
  waiting : LineResult

-- `buf.find('\n')`: what is before the first newline, and what is after it.
unfoldable pub cut_line : Text → Option (Text × Text)
cut_line [] = none
cut_line (c ∷ s) =
    let later = cut_line s in
    if c == 10
    then some ([], s)
    else elim later [ none ↦ none | some (l, rest) ↦ some (c ∷ l, rest) ]

-- `if (!out.empty() && out.back() == '\r') out.pop_back();`
unfoldable pub drop_return : Text → Text
drop_return [] = []
drop_return (c ∷ []) = if c == 13 then [] else c ∷ []
drop_return (c ∷ d ∷ s) = c ∷ drop_return (d ∷ s)

-- The lambda `readLine`.
unfoldable pub read_line : Text → List Recv → LineResult
read_line buf [] = elim (cut_line buf) [
  | some (l, rest) ↦ line (drop_return l) rest []
  | none ↦ waiting
]
read_line buf (got bytes ∷ rs) =
    let more = read_line (buf ++ bytes) rs in
    elim (cut_line buf) [
      | some (l, rest) ↦ line (drop_return l) rest (got bytes ∷ rs)
      | none ↦ more
    ]
read_line buf (peer_closed ∷ rs) = elim (cut_line buf) [
  | some (l, rest) ↦ line (drop_return l) rest (peer_closed ∷ rs)
  | none ↦ ended
]
read_line buf (failed running timed_out ∷ rs) =
    let more = read_line buf rs in
    elim (cut_line buf) [
      | some (l, rest) ↦ line (drop_return l) rest (failed running timed_out ∷ rs)
      | none ↦ if not running then ended else if timed_out then more else ended
    ]

-- What the worker does: a text sent, a command queued on the main thread, the socket closed.
pub data Action : Type 0 where
  sent : Text → Action
  queued : Text → Action
  hung_up : Action

-- What the rest of the program adds to a round of the loop: `line_run` at its head, and the answer
-- of the main thread if it comes in time.
pub record Round : Type 0 where
  pub running : Bool
  pub answer : Option Text

unfoldable pub is_quit : Text → Bool
is_quit l = text_eq l (codes "quit") || text_eq l (codes "exit")

abbrev pub answer_text : Option Text → Text
answer_text none = codes "error: timeout\n"
answer_text (some s) = s

-- The `while` loop: with no round left, it is still running.
unfoldable pub serve_lines : List Round → Text → List Recv → List Action
serve_lines [] buf rs = []
serve_lines (r ∷ rounds) buf rs = if not r.running then hung_up ∷ [] else elim (read_line buf rs) [
  | waiting ↦ []
  | ended ↦ hung_up ∷ []
  | line l buf' rs' ↦
      let more = serve_lines rounds buf' rs' in
      if is_nil l
      then more
      else if is_quit l
      then hung_up ∷ []
      else queued l ∷ sent (answer_text r.answer) ∷ more
]

abbrev pub refusal : List Action
refusal = sent (codes "error: authentication failed\n") ∷ hung_up ∷ []

-- `LineClientLoop`
unfoldable pub line_client : (Text → Text → Bool) → Text → List Round → List Recv → List Action
line_client verify password_hash rounds rs = elim (read_line [] rs) [
  | waiting ↦ []
  | ended ↦ refusal
  | line pw buf rs' ↦
      if not (verify pw password_hash)
      then refusal
      else sent (codes "ok: authenticated\n") ∷ serve_lines rounds buf rs'
]

-- `r.ok ? (r.output.empty() ? "ok\n" : r.output + "\n") : ("error: " + r.error + "\n")`
unfoldable pub line_answer : ExecuteResult → Text
line_answer r =
    if r.ok
    then (if is_nil r.output then codes "ok\n" else r.output ++ b'\n' ∷ [])
    else codes "error: " ++ (r.error ++ b'\n' ∷ [])

-- The task that a command queues: what it does to the console, and the promised answer.
unfoldable pub line_task : (fl : Floats) → Callback fl.F → Text → Console fl.F → Console fl.F × Text
line_task fl callback l con = let (con', r) = execute fl callback con l in (con', line_answer r)
