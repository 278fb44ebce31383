-- ===== src/Script/Laws.antt =====
-- engine/script/ScriptHost.cpp, `Eval`: what it answers, and the stack of the Lua state.
use voxhammer.Script.{
  c_str, Lua, Loaded, Called, chunk, load_error, returned, raised, EvalResult, done, crashed,
  take_error, take_result, run_chunk, load_source, or_statement, eval_loaded, eval, push_all,
}
use voxhammer.Base.{
  ap, ◌∙◌, inr, inl, Option-cases, ◌++◌, ◌≢◌, refl, [], codes, ◌∷◌, ◌≡◌, some, none, Text, List,
}

module _ (lua : Lua) where
  open lua use {V, S}

  -- The last of some values.
  unfoldable pub last_of : V → List V → V
  last_of v [] = v
  last_of v (w ∷ vs) = last_of w vs

  -- The answer for an error value: its text behind the tag.
  unfoldable pub error_answer : V → EvalResult
  error_answer v = elim (lua.to_text v) [
    | none ↦ crashed
    | some e ↦ done (codes "[lua error] " ++ e)
  ]

  -- The answer for a value, by the `tostring` of Lua.
  unfoldable pub value_answer : S → V → EvalResult
  value_answer s v = elim (lua.call_tostring s v) [
    | none ↦ crashed
    | some (s', r) ↦ done (elim (lua.to_text r) [ none ↦ [] | some t ↦ t ])
  ]

  -- The answer for what a call of a chunk comes to.
  unfoldable pub called_answer : S × Called V → EvalResult
  called_answer (s, raised v) = error_answer v
  called_answer (s, returned []) = done []
  called_answer (s, returned (v ∷ vs)) = value_answer s (last_of v vs)

  unfoldable pub loaded_answer : S → Loaded V → EvalResult
  loaded_answer s (chunk f) = called_answer (lua.pcall s f)
  loaded_answer s (load_error e) = error_answer e

  -- The answer for an expression, or for the source as it is where there is no such chunk.
  unfoldable pub source_answer : S → Text → Loaded V → EvalResult
  source_answer s source (chunk f) = loaded_answer s (chunk f)
  source_answer s source (load_error e) = loaded_answer s (lua.load_buffer source (codes "=(eval)"))

  -- The answer is the given one, and nothing is left on the stack, unless the program has crashed.
  abbrev pub Answers : EvalResult → S × List V × EvalResult → Type 0
  Answers r (s, stack, r') = (r' ≡ r) × (r' ≢ crashed → stack ≡ [])

  push_all-last_of :
      (v : V) (vs stack : List V)
      → (rest : List V) × (push_all lua vs (v ∷ stack) ≡ last_of v vs ∷ rest)
  unfolding push_all last_of
  push_all-last_of v [] stack = (stack, refl)
  push_all-last_of v (w ∷ vs) stack = push_all-last_of w vs (v ∷ stack)

  take_error-Answers : (s : S) (v : V) → Answers (error_answer v) (take_error lua s (v ∷ []))
  unfolding take_error error_answer
  take_error-Answers s v = elim (Option-cases (lua.to_text v)) [
    | inl e ↦ rw (take_error, error_answer, e) (refl, (λ h. refl))
    | inr (t, e) ↦ rw (take_error, error_answer, e) (refl, (λ h. refl))
  ]

  take_result-Answers :
      (s : S) (v : V) (rest : List V) → Answers (value_answer s v) (take_result lua s (v ∷ rest))
  unfolding take_result value_answer
  take_result-Answers s v rest = elim (Option-cases (lua.call_tostring s v)) [
    | inl e ↦ rw (take_result, value_answer, e) (refl, (λ h. absurd (h refl)))
    | inr ((s', r), e) ↦ rw (take_result, value_answer, e) (refl, (λ h. refl))
  ]

  called-Answers :
      (s : S) (r : Called V)
      → Answers (called_answer (s, r)) (elim r [
        | returned vs ↦ take_result lua s (push_all lua vs [])
        | raised v ↦ take_error lua s (v ∷ [])
      ])
  unfolding called_answer push_all take_result
  called-Answers s (raised v) = take_error-Answers s v
  called-Answers s (returned []) = (refl, (λ h. refl))
  called-Answers s (returned (v ∷ vs)) =
      let (rest, e) = push_all-last_of v vs [] in rw e (take_result-Answers s (last_of v vs) rest)

  eval_loaded-Answers :
      (s : S) (l : Loaded V) → Answers (loaded_answer s l) (eval_loaded lua s [] l)
  unfolding eval_loaded loaded_answer run_chunk
  eval_loaded-Answers s (chunk f) = called-Answers (lua.pcall s f).0 (lua.pcall s f).1
  eval_loaded-Answers s (load_error e) = take_error-Answers s e

  or_statement-source_answer :
      (s : S) (source : Text) (l : Loaded V)
      → loaded_answer s (or_statement lua source l) ≡ source_answer s source l
  unfolding or_statement source_answer
  or_statement-source_answer s source (chunk f) = refl
  or_statement-source_answer s source (load_error e) = refl

  -- Where the stack is empty, `Eval` takes its source up to the first zero for an expression, and
  -- all of it for a statement if that is none; it answers with the message of an error behind a tag, with the text of the last value, or
  -- with nothing for no value. Unless the program crashes, the stack is empty again.
  pub eval-source_answer :
      (s : S) (source : Text)
      → let (host, r) = eval lua (record { state = some (s, []) }) source in
        (r ≡ source_answer s source (lua.load_string (c_str (codes "return " ++ source))))
        × (r ≢ crashed → (s' : S) × (host.state ≡ some (s', [])))
  unfolding eval load_source
  eval-source_answer s source =
      let l = lua.load_string (c_str (codes "return " ++ source)) in
      let (p, q) = eval_loaded-Answers s (or_statement lua source l) in
      let s' = (eval_loaded lua s [] (or_statement lua source l)).0 in
      (p ∙ or_statement-source_answer s source l, (λ h. (s', ap (λ stack. some (s', stack)) (q h))))
