-- ===== src/Console/Execute/Safety.antt =====
-- engine/cvar/Console.cpp, `Execute` and `ExecuteScript`: read-only cvars.
use voxhammer.Console.Tokens.{tokenize_line}
use voxhammer.Console.Registry.{find_command, find_cvar, is_readonly, CVar, Console}
use voxhammer.Base.{
  none, Option, ap, ◌∙◌, sym, refl, Option-cases, [], text_eq_iff, text_eq, Bool-cases, inr, inl,
  false, some, true, ◌∷◌, List, ◌≡◌, Text,
}
use voxhammer.Console.Execute.{
  is_blank, ExecuteResult, succeed, Callback, execute, run_tokens, run_cvar, set_result, join_args,
  execute_script,
}
use voxhammer.Console.Setting.{apply_set}
use voxhammer.Console.Execute.Script.{run_one, run_all, split_statements, execute_script-run_all}
use voxhammer.Console.Setting.Laws.{check_set-is_readonly, apply_set-Sets}
use voxhammer.Console.Floats.{Floats}

module _ (fl : Floats) (callback : Callback fl.F) where
  open fl use {F}

  -- The callbacks of the commands leave read-only cvars alone.
  abbrev pub CallbacksKeep : Text → CVar F → Type 0
  CallbacksKeep key cv =
      (con : Console F) (name : Text) (args : List Text)
      → find_cvar con key ≡ some cv
      → find_cvar (callback con name args).0 key ≡ some cv

  set_result-con : (name : Text) (r : Console F × Text) → (set_result fl callback name r).0 ≡ r.0
  unfolding set_result
  set_result-con name (con, []) = refl
  set_result-con name (con, c ∷ e) = refl

  module _ (key : Text) (cv : CVar F) (readonly : is_readonly cv.flags ≡ true) where
    abbrev Kept : Console F → Type 0
    Kept con = find_cvar con key ≡ some cv

    apply_set-Kept :
        (con : Console F) (name : Text) (other : CVar F) (v : Text)
        → find_cvar con name ≡ some other
        → Kept con
        → Kept (apply_set fl con name other v false).0
    apply_set-Kept con name other v h k = elim (apply_set-Sets fl con name other v false h) [
      | inl (_, same, _) ↦ rw same k
      | inr (w, _, ok, reads, _, _, _) ↦ elim (Bool-cases (text_eq name key)) [
        | inl e ↦
            let names : name ≡ key = (text_eq_iff name key).0 e in
            let found : some other ≡ some cv = sym h ∙ ap (find_cvar con) names ∙ k in
            let same : other ≡ cv = cc in
            absurd (check_set-is_readonly fl cv v w readonly (rw (← same) ok))
        | inr e ↦ reads key ∙ rw e k
      ]
    ]

    run_cvar-Kept :
        (con : Console F) (name : Text) (args : List Text) (o : Option (CVar F))
        → find_cvar con name ≡ o
        → Kept con
        → Kept (run_cvar fl callback con name args o).0
    unfolding run_cvar
    run_cvar-Kept con name args none h k = k
    run_cvar-Kept con name [] (some other) h k = k
    run_cvar-Kept con name (a ∷ args) (some other) h k =
        let v = join_args (a ∷ args) in
        rw (set_result-con name (apply_set fl con name other v false))
          (apply_set-Kept con name other v h k)

    module _ (keep : CallbacksKeep key cv) where
      run_tokens-Kept :
          (con : Console F) (tokens : List Text)
          → Kept con
          → Kept (run_tokens fl callback con tokens).0
      unfolding run_tokens
      run_tokens-Kept con [] k = k
      run_tokens-Kept con (name ∷ args) k = elim (Option-cases (find_command con name)) [
        | inl h ↦ rw (h, run_tokens) (run_cvar-Kept con name args (find_cvar con name) refl k)
        | inr (cmd, h) ↦ rw (h, run_tokens) (keep con cmd.name args k)
      ]

      pub execute-Kept :
          (con : Console F) (line : Text)
          → find_cvar con key ≡ some cv
          → find_cvar (execute fl callback con line).0 key ≡ some cv
      unfolding execute
      execute-Kept con line k = run_tokens-Kept con (tokenize_line line) k

      run_one-Kept :
          (r : Console F × ExecuteResult) (stmt : Text)
          → Kept r.0
          → Kept (run_one fl callback r stmt).0
      unfolding run_one execute
      run_one-Kept r stmt k = elim (Bool-cases (is_blank stmt)) [
        | inl h ↦ rw h k
        | inr h ↦ rw h (run_tokens-Kept r.0 (tokenize_line stmt) k)
      ]

      run_all-Kept :
          (r : Console F × ExecuteResult) (stmts : List Text)
          → Kept r.0
          → Kept (run_all fl callback r stmts).0
      unfolding run_all
      run_all-Kept r [] k = k
      run_all-Kept r (s ∷ ss) k = run_all-Kept (run_one fl callback r s) ss (run_one-Kept r s k)

      -- No console script changes a read-only cvar, if the callbacks of the commands do not: it reads
      -- afterwards as it read before, whatever the script sets.
      pub execute_script-is_readonly :
          (con : Console F) (body : Text)
          → find_cvar con key ≡ some cv
          → find_cvar (execute_script fl callback con body).0 key ≡ some cv
      execute_script-is_readonly con body k =
          rw (execute_script-run_all fl callback con body)
            (run_all-Kept (con, succeed []) (split_statements [] body) k)
