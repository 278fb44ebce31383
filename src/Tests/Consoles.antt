-- ===== src/Tests/Consoles.antt =====
-- engine/cvar: the console at a small registry, with two floats.
use voxhammer.Console.Execute.Safety.{execute_script-is_readonly}
use voxhammer.Console.Setting.Effects.{apply_set-Takes, Takes}
use voxhammer.Console.Floats.{Floats}
use voxhammer.Base.Int.{pos, ◌≤ℤ◌, negsuc, ℤ}
use voxhammer.Console.Execute.Script.{execute_script-run_all, run_all, split_statements}
use voxhammer.Console.Setting.{apply_set}
use voxhammer.Console.Tokens.{take_word, skip_space, tokenize_line, tokens_from}
use voxhammer.Console.Tokens.Laws.{tokenize_line-quoted_line, tokenize_line-step, quoted_line}
use voxhammer.Console.Execute.{succeed, execute_script, Callback}
use voxhammer.Base.{
  text_ltb, try_emplace, find, arith, ◌-◌, [], ◌^◌, ◌∷◌, refl, codes, if◌then◌else◌, ℕ, ◌≡◌, Bool,
  Text, text_eq, some, true, false, not, ◌&&◌,
}
use voxhammer.Console.Registry.{
  IsValid, find_cvar, CVarParams, empty_console, new_cvar, CVar, CVarType, Console, register_cvar,
  enum, string,
}

pub small_irrefl : (a : Bool) → (not a && a) ≡ false
small_irrefl true = refl
small_irrefl false = refl

pub small_asymm : (a b : Bool) → (not a && b) ≡ true → (not b && a) ≡ false
small_asymm a b h = ground arith

abbrev pub small_int : Bool → ℤ
small_int a = if a then pos 1 else pos 0

pub small_mono : (a b : Bool) → (not a && b) ≡ true → small_int a ≤ℤ small_int b
small_mono a b h = ground arith

pub small_bounds :
    (a : Bool) → (negsuc (2 ^ 31 - 1) ≤ℤ small_int a) × (small_int a ≤ℤ pos (2 ^ 31 - 1))
small_bounds a = ground arith

abbrev pub small_format : Bool → Text
small_format a = if a then codes "1" else codes "0"

pub small_from_chars : (a : Bool) → text_eq (small_format a) (codes "1") ≡ a
unfolding text_eq
small_from_chars true = refl
small_from_chars false = refl

-- The floats 0 and 1.
abbrev pub small_floats : Floats
small_floats = record {
  F = Bool;
  lt = λ a b. not a && b;
  to_int = small_int;
  from_chars = λ s. text_eq s (codes "1");
  format = small_format;
  lt_irrefl = small_irrefl;
  lt_asymm = small_asymm;
  to_int_mono = small_mono;
  to_int_bounds = small_bounds;
  from_chars-format = small_from_chars;
}

abbrev pub params : CVarType → ℕ → CVarParams Bool
params type flags = record {
  type = type;
  flags = flags;
  enum_values = codes "low" ∷ codes "high" ∷ [];
  range_min = false;
  range_max = true;
  range_step = true;
  live_tunable = true;
  on_change = true;
}

abbrev pub quality : CVar Bool
quality = new_cvar (codes "quality") (codes "low") [] (params enum 1)

abbrev pub version : CVar Bool
version = new_cvar (codes "version") (codes "0.1") [] (params string 2)

abbrev pub empty : Console Bool
empty = empty_console

empty-IsValid : IsValid empty
unfolding empty_console
empty-IsValid = record { sorted = tt; commands_sorted = tt; named = tt }

abbrev pub small : Console Bool
small =
    register_cvar (register_cvar empty (codes "version") (codes "0.1") [] (params string 2))
      (codes "quality") (codes "low") [] (params enum 1)

abbrev pub quiet : Callback Bool
quiet con name args = (con, codes "done")

abbrev script : Text
script = codes "quality high; version 9"

tokenize_line-quoted_line_example :
    tokenize_line (codes "\"a;b\" \"c //d\" ") ≡ codes "a;b" ∷ codes "c //d" ∷ []
unfolding quoted_line
tokenize_line-quoted_line_example =
    tokenize_line-quoted_line (codes "a;b" ∷ codes "c //d" ∷ []) (ground arith)

tokenize_line-step_example :
    tokenize_line (codes "  set 1") ≡ codes "set" ∷ tokenize_line (codes " 1")
unfolding tokens_from skip_space take_word
tokenize_line-step_example = tokenize_line-step (codes "  set 1")

apply_set-Takes_example :
    Takes small_floats small
      (codes "quality")
      quality
      (codes "high")
      false
      (apply_set small_floats small (codes "quality") quality (codes "high") false)
unfolding register_cvar new_cvar find_cvar find try_emplace text_eq text_ltb empty_console
apply_set-Takes_example =
    apply_set-Takes small_floats small (codes "quality") quality (codes "high") false refl

execute_script-run_all_example :
    execute_script small_floats quiet small script
    ≡ run_all small_floats quiet
        (small, succeed [])
        (codes "quality high" ∷ codes " version 9" ∷ [])
unfolding split_statements
execute_script-run_all_example = execute_script-run_all small_floats quiet small script

execute_script-is_readonly_example :
    find_cvar (execute_script small_floats quiet small script).0 (codes "version") ≡ some version
unfolding register_cvar new_cvar find_cvar find try_emplace text_eq text_ltb empty_console
execute_script-is_readonly_example =
    execute_script-is_readonly small_floats quiet (codes "version") version refl
      (λ con name args k. k) small script refl
