-- ===== src/Script.antt =====
-- engine/script/ScriptHost.cpp: the functions that Lua can call, `Init`, `Shutdown` and `Eval`, as it
-- is built with scripting. LuaJIT is a record.
pub mod Laws
use voxhammer.Console.Floats.{Floats}
use voxhammer.Console.Registry.{Console, find_cvar, register_command}
use voxhammer.Console.Execute.{execute, Callback}
use voxhammer.Base.{
  ◌==◌, is_nil, [], if◌then◌else◌, ◌++◌, ◌∷◌, some, none, Text, List, Option, Bool, codes,
}

-- What a chunk comes to: it was compiled, or it was not, with the message.
pub data Loaded (V : Type 0) : Type 0 where
  chunk : V → Loaded V
  load_error : V → Loaded V

-- What a protected call comes to: its values, the last on top, or the error value.
pub data Called (V : Type 0) : Type 0 where
  returned : List V → Called V
  raised : V → Called V

-- The calls of LuaJIT. `S` is its state but for the stack, and what the functions that it calls can
-- change; `call_tostring` is the unprotected call, which has no value where it raises an error;
-- `to_text` is `lua_tostring` as a C string, which is null for a value that is neither a string nor a
-- number. `load_string` is `luaL_loadstring` of a C string, and `load_buffer` is `luaL_loadbuffer` of
-- some bytes and the name of the chunk.
pub record Lua : Type 1 where
  pub V : Type 0
  pub S : Type 0
  pub new_state : Option S
  pub load_string : Text → Loaded V
  pub load_buffer : Text → Text → Loaded V
  pub pcall : S → V → S × Called V
  pub call_tostring : S → V → Option (S × V)
  pub to_text : V → Option Text

-- What a function for Lua gives back: nothing, nil, a text, or an error with its message.
pub data LuaAnswer : Type 0 where
  no_value : LuaAnswer
  nil : LuaAnswer
  text : Text → LuaAnswer
  lua_error : Text → LuaAnswer

module _ (fl : Floats) (callback : Callback fl.F) where
  open fl use {F}

  -- `l_cvar_get`
  pub cvar_get : Console F → Text → LuaAnswer
  cvar_get con name = elim (find_cvar con name) [ none ↦ nil | some cv ↦ text cv.value ]

  -- `l_cvar_set`
  pub cvar_set : Console F → Text → Text → Console F × LuaAnswer
  cvar_set con name value = elim (find_cvar con name) [
    | none ↦ (con, lua_error (codes "cvar not found: " ++ name))
    | some cv ↦
        let (con', res) = execute fl callback con (name ++ b' ' ∷ value) in
        (con', if res.ok then no_value else lua_error res.error)
  ]

  -- `l_exec`
  pub exec : Console F → Text → Console F × LuaAnswer
  exec con line =
      let (con', res) = execute fl callback con line in
      (con', text (if res.ok then res.output else res.error))

-- What a reader of a C string sees of the text: it ends before the first zero.
unfoldable pub c_str : Text → Text
c_str [] = []
c_str (c ∷ s) = let rest = c_str s in if c == 0 then [] else c ∷ rest

-- What `Eval` comes to: a text, or undefined behaviour or an abort of the program.
pub data EvalResult : Type 0 where
  done : Text → EvalResult
  crashed : EvalResult

-- The loop of the `lua` command over its arguments.
unfoldable pub add_args : Text → List Text → Text
add_args src [] = src
add_args src (a ∷ args) = add_args (if is_nil src then a else src ++ b' ' ∷ a) args

module _ (lua : Lua) where
  open lua use {V, S}

  -- `L_`, with the values on its stack, the top first.
  pub record ScriptHost : Type 0 where
    pub state : Option (S × List V)

  -- `err += lua_tostring(L_, -1); lua_pop(L_, 1);`
  take_error : S → List V → S × List V × EvalResult
  take_error s [] = (s, [], crashed)
  take_error s (v ∷ stack) = elim (lua.to_text v) [
    | none ↦ (s, stack, crashed)
    | some e ↦ (s, stack, done (codes "[lua error] " ++ e))
  ]

  -- From the test of `lua_gettop` to the end.
  take_result : S → List V → S × List V × EvalResult
  take_result s [] = (s, [], done [])
  take_result s (v ∷ stack) = elim (lua.call_tostring s v) [
    | none ↦ (s, v ∷ stack, crashed)
    | some (s', r) ↦ (s', [], done (elim (lua.to_text r) [ none ↦ [] | some t ↦ t ]))
  ]

  -- The results of a call on the stack, the last of them on top.
  pub push_all : List V → List V → List V
  push_all [] stack = stack
  push_all (v ∷ vs) stack = push_all vs (v ∷ stack)

  -- From the call of the chunk.
  run_chunk : S → List V → V → S × List V × EvalResult
  unfolding take_error take_result push_all
  run_chunk s stack f =
      let (s', r) = lua.pcall s f in
      elim r [
        | returned vs ↦ take_result s' (push_all vs stack)
        | raised v ↦ take_error s' (v ∷ stack)
      ]

  -- The source as a statement, where it was no expression.
  or_statement : Text → Loaded V → Loaded V
  or_statement source (chunk f) = chunk f
  or_statement source (load_error e) = lua.load_buffer source (codes "=(eval)")

  load_source : Text → Loaded V
  unfolding or_statement c_str
  load_source source = or_statement source (lua.load_string (c_str (codes "return " ++ source)))

  eval_loaded : S → List V → Loaded V → S × List V × EvalResult
  unfolding run_chunk take_error
  eval_loaded s stack (chunk f) = run_chunk s stack f
  eval_loaded s stack (load_error e) = take_error s (e ∷ stack)

  -- `Eval`
  pub eval : ScriptHost → Text → ScriptHost × EvalResult
  unfolding eval_loaded load_source
  eval host source = elim host.state [
    | none ↦ (host, done (codes "[lua error] not initialised"))
    | some (s, stack) ↦
        let (s', stack', r) = eval_loaded s stack (load_source source) in
        (record { state = some (s', stack') }, r)
  ]

  -- The callback of the `lua` command, with what it prints.
  pub lua_command : ScriptHost → List Text → ScriptHost × EvalResult
  lua_command host [] = (host, done (codes "usage: lua <expression>\n"))
  lua_command host (a ∷ args) =
      let (host', r) = eval host (add_args [] (a ∷ args)) in
      (host', elim r [ done t ↦ done (t ++ b'\n' ∷ []) | crashed ↦ crashed ])

  -- `Init`, with the registry of commands.
  pub init : {F : Type 0} → ScriptHost → Console F → ScriptHost × Console F
  init host con = elim lua.new_state [
    | none ↦ (record { state = none }, con)
    | some s ↦ (
      record { state = some (s, []) },
      register_command con (codes "lua")
          (codes "Execute a Lua expression or statement. e.g.  lua \"return 1+2\""),
    )
  ]

  -- `Shutdown`
  pub shutdown : ScriptHost → ScriptHost
  shutdown host = record { state = none }
