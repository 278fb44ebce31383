-- ===== src/Console/Execute.antt =====
-- engine/cvar/Console.cpp: `Execute` and `ExecuteScript`. What the callback of a command does to the
-- console, and what it prints, is a parameter. The audit log is not modelled.
pub mod Script
pub mod Safety
use voxhammer.Console.Registry.{find_command, find_cvar, CVar, Console}
use voxhammer.Base.{
  ◌&&◌, none, ◌||◌, some, Option, [], codes, false, true, ◌++◌, ◌==◌, ◌∷◌, Bool, List, Text,
  if◌then◌else◌, ℕ,
}
use voxhammer.Console.Tokens.{tokenize_line}
use voxhammer.Console.Setting.{apply_set}
use voxhammer.Console.Floats.{Floats}

pub record ExecuteResult : Type 0 where
  pub ok : Bool
  pub output : Text
  pub error : Text

abbrev pub succeed : Text → ExecuteResult
succeed output = record { ok = true; output = output; error = [] }

abbrev pub fail : Text → ExecuteResult
fail error = record { ok = false; output = []; error = error }

-- The tokens after the name, with a space between them.
unfoldable pub join_args : List Text → Text
join_args [] = []
join_args (w ∷ []) = w
join_args (w ∷ x ∷ ws) = w ++ (b' ' ∷ join_args (x ∷ ws))

unfoldable pub unknown_error : Text → Text
unknown_error name = codes "unknown cvar or command: '" ++ (name ++ codes "'")

-- The callback of the command with the given name: the console it leaves, and its output.
abbrev pub Callback : Type 0 → Type 0
Callback F = Console F → Text → List Text → Console F × Text

module _ (fl : Floats) (callback : Callback fl.F) where
  open fl use {F}

  show_set : CVar F → Text
  show_set cv = cv.name ++ (codes " = \"" ++ (cv.value ++ codes "\""))

  show_cvar : CVar F → Text
  unfolding show_set
  show_cvar cv =
      show_set cv
      ++ (codes "  (default \"" ++ (cv.default_value ++ (codes "\")  -- " ++ cv.description)))

  -- The line printed after a set shows the cvar as it is then.
  show_after : Console F → Text → Text
  unfolding show_set
  show_after con name = elim (find_cvar con name) [ none ↦ [] | some cv ↦ show_set cv ]

  set_result : Text → Console F × Text → Console F × ExecuteResult
  unfolding show_after
  set_result name (con, []) = (con, succeed (show_after con name))
  set_result name (con, c ∷ e) = (con, fail (c ∷ e))

  run_cvar : Console F → Text → List Text → Option (CVar F) → Console F × ExecuteResult
  unfolding set_result show_cvar
  run_cvar con name args none = (con, fail (unknown_error name))
  run_cvar con name [] (some cv) = (con, succeed (show_cvar cv))
  run_cvar con name (a ∷ args) (some cv) =
      set_result name (apply_set fl con name cv (join_args (a ∷ args)) false)

  run_tokens : Console F → List Text → Console F × ExecuteResult
  unfolding run_cvar
  run_tokens con [] = (con, succeed [])
  run_tokens con (name ∷ args) = elim (find_command con name) [
    | some cmd ↦ let (con', out) = callback con cmd.name args in (con', succeed out)
    | none ↦ run_cvar con name args (find_cvar con name)
  ]

  -- `Execute`
  pub execute : Console F → Text → Console F × ExecuteResult
  unfolding run_tokens
  execute con line = run_tokens con (tokenize_line line)

-- `stmt.find_first_not_of(" \t\r\n") == npos`
unfoldable pub is_blank : Text → Bool
is_blank [] = true
is_blank (c ∷ s) = (c == 32 || c == 9 || c == 13 || c == 10) && is_blank s

-- The state of `ExecuteScript`: the console, the results so far and the statement being read.
pub record ScriptState (F : Type 0) : Type 0 where
  pub con : Console F
  pub agg : ExecuteResult
  pub stmt : Text

-- What a statement's result adds to the results so far.
unfoldable pub collect : ExecuteResult → ExecuteResult → ExecuteResult
collect agg r = record {
  ok = if r.ok then agg.ok else false;
  output = elim r.output [ [] ↦ agg.output | c ∷ s ↦ agg.output ++ (r.output ++ b'\n' ∷ []) ];
  error = if r.ok then agg.error else elim agg.error [ [] ↦ r.error | c ∷ s ↦ agg.error ];
}

module _ (fl : Floats) (callback : Callback fl.F) where
  open fl use {F}

  -- The lambda `flush`.
  pub flush : ScriptState F → ScriptState F
  flush st =
      if is_blank st.stmt
      then record st { stmt = [] }
      else let (con', r) = execute fl callback st.con st.stmt in
        record { con = con'; agg = collect st.agg r; stmt = [] }

  script_step : ScriptState F → ℕ → ScriptState F
  script_step st c =
      if c == 10 || c == b';' then flush st else record st { stmt = st.stmt ++ c ∷ [] }

  script_loop : ScriptState F → Text → ScriptState F
  unfolding script_step
  script_loop st [] = flush st
  script_loop st (c ∷ body) = script_loop (script_step st c) body

  -- `ExecuteScript`
  pub execute_script : Console F → Text → Console F × ExecuteResult
  unfolding script_loop
  execute_script con body =
      let st = script_loop (record { con = con; agg = succeed []; stmt = [] }) body in
      (st.con, st.agg)
