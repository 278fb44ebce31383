-- ===== src/Tests/Scripts.antt =====
-- engine/script/ScriptHost.cpp: `Eval` in a language of one expression.
use voxhammer.Script.{c_str, Lua, load_error, chunk, returned, crashed, eval}
use voxhammer.Script.Laws.{source_answer, eval-source_answer}
use voxhammer.Base.{◌∷◌, ◌+◌, ◌≢◌, text_eq, ◌≡◌, [], if◌then◌else◌, some, ℕ, Text, codes}

-- The chunk `return 1` gives its source; no other text is a chunk.
abbrev echo : Lua
echo = record {
  V = Text;
  S = ℕ;
  new_state = some 0;
  load_string = λ s. if text_eq s (codes "return 1") then chunk s else load_error (codes "syntax");
  load_buffer = λ s name. load_error (codes "syntax");
  pcall = λ n f. (n + 1, returned (codes "0" ∷ f ∷ []));
  call_tostring = λ n v. some (n, v);
  to_text = λ v. some v;
}

abbrev cut_source : Text
cut_source = b'1' ∷ 0 ∷ codes "junk"

eval-source_answer_example :
    let (host, r) = eval echo (record { state = some (0, []) }) cut_source in
    (r ≡ source_answer echo 0 cut_source (echo.load_string (codes "return 1")))
    × (r ≢ crashed → (s' : ℕ) × (host.state ≡ some (s', [])))
unfolding c_str
eval-source_answer_example = eval-source_answer echo 0 cut_source
