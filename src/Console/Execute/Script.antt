-- ===== src/Console/Execute/Script.antt =====
-- engine/cvar/Console.cpp, `ExecuteScript`: the loop against the list of statements.
use voxhammer.Console.Registry.{Console}
use voxhammer.Base.{
  false, true, sym, ℕ, ap, ◌∙◌, refl, ◌||◌, if◌then◌else◌, ◌++◌, ◌==◌, inr, inl, Bool-cases, [],
  ◌∷◌, List, ◌≡◌, Text,
}
use voxhammer.Console.Execute.{
  ExecuteResult, succeed, Callback, execute, is_blank, ScriptState, collect, flush, script_step,
  script_loop, execute_script,
}
use voxhammer.Console.Floats.{Floats}

-- The statements of a body: what stands between the newlines and semicolons. The first argument is
-- the part of the current statement that has been read.
unfoldable pub split_statements : Text → Text → List Text
split_statements stmt [] = stmt ∷ []
split_statements stmt (c ∷ body) =
    let next = stmt ∷ split_statements [] body in
    let longer = split_statements (stmt ++ c ∷ []) body in
    if c == 10 || c == b';' then next else longer

module _ (fl : Floats) (callback : Callback fl.F) where
  open fl use {F}

  -- One statement; a blank one is skipped.
  unfoldable pub run_one : Console F × ExecuteResult → Text → Console F × ExecuteResult
  run_one (con, agg) s =
      if is_blank s
      then (con, agg)
      else ((execute fl callback con s).0, collect agg (execute fl callback con s).1)

  unfoldable pub run_all : Console F × ExecuteResult → List Text → Console F × ExecuteResult
  run_all r [] = r
  run_all r (s ∷ ss) = run_all (run_one r s) ss

  abbrev outcome : ScriptState F → Console F × ExecuteResult
  outcome st = (st.con, st.agg)

  flush-run_one :
      (st : ScriptState F) → outcome (flush fl callback st) ≡ run_one (outcome st) st.stmt
  unfolding flush run_one
  flush-run_one st = elim (Bool-cases (is_blank st.stmt)) [ inl e ↦ rw e refl | inr e ↦ rw e refl ]

  flush-stmt : (st : ScriptState F) → (flush fl callback st).stmt ≡ []
  unfolding flush
  flush-stmt st = elim (Bool-cases (is_blank st.stmt)) [ inl e ↦ rw e refl | inr e ↦ rw e refl ]

  script_step-flush :
      (st : ScriptState F) (c : ℕ)
      → (c == 10 || c == b';') ≡ true
      → script_step fl callback st c ≡ flush fl callback st
  unfolding script_step
  script_step-flush st c e = rw e refl

  script_step_keep :
      (st : ScriptState F) (c : ℕ)
      → (c == 10 || c == b';') ≡ false
      → script_step fl callback st c ≡ record st { stmt = st.stmt ++ c ∷ [] }
  unfolding script_step
  script_step_keep st c e = rw e refl

  split_statements_at :
      (stmt : Text) (c : ℕ) (body : Text)
      → (c == 10 || c == b';') ≡ true
      → split_statements stmt (c ∷ body) ≡ stmt ∷ split_statements [] body
  unfolding split_statements
  split_statements_at stmt c body e = rw e refl

  split_statements_on :
      (stmt : Text) (c : ℕ) (body : Text)
      → (c == 10 || c == b';') ≡ false
      → split_statements stmt (c ∷ body) ≡ split_statements (stmt ++ c ∷ []) body
  unfolding split_statements
  split_statements_on stmt c body e = rw e refl

  -- The loop on what follows a statement that has just been run.
  after_flush :
      (st : ScriptState F) (body : Text)
      → run_all (outcome (flush fl callback st)) (split_statements (flush fl callback st).stmt body)
        ≡ run_all (outcome st) (st.stmt ∷ split_statements [] body)
  unfolding run_all
  after_flush st body = rw (flush-run_one st, flush-stmt st) refl

  script_loop-run_all :
      (st : ScriptState F) (body : Text)
      → outcome (script_loop fl callback st body)
        ≡ run_all (outcome st) (split_statements st.stmt body)
  unfolding script_loop run_all split_statements
  script_loop-run_all st [] = flush-run_one st
  script_loop-run_all st (c ∷ body) = elim (Bool-cases (c == 10 || c == b';')) [
    | inl e ↦
        ap (λ t. outcome (script_loop fl callback t body)) (script_step-flush st c e)
        ∙ script_loop-run_all (flush fl callback st) body
        ∙ after_flush st body
        ∙ ap (run_all (outcome st)) (sym (split_statements_at st.stmt c body e))
    | inr e ↦
        ap (λ t. outcome (script_loop fl callback t body)) (script_step_keep st c e)
        ∙ script_loop-run_all (record st { stmt = st.stmt ++ c ∷ [] }) body
        ∙ ap (run_all (outcome st)) (sym (split_statements_on st.stmt c body e))
  ]

  -- Running a script is running its statements one after the other, each on the console that the
  -- one before left, with blank statements skipped and the results collected in that order.
  pub execute_script-run_all :
      (con : Console F) (body : Text)
      → execute_script fl callback con body ≡ run_all (con, succeed []) (split_statements [] body)
  unfolding execute_script
  execute_script-run_all con body =
      script_loop-run_all (record { con = con; agg = succeed []; stmt = [] }) body
