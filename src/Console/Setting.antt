-- ===== src/Console/Setting.antt =====
-- engine/cvar/Console.cpp, "Set with validation": `ApplySet` and `SetCVarOverride`.
pub mod Laws
pub mod Override
pub mod Values
pub mod Effects
use voxhammer.Base.Int.{ℤ}
use voxhammer.Console.Registry.{
  enum, bool, int, float, sunk, changed, is_readonly, Call, find_cvar, CVarType, CVar, Console,
}
use voxhammer.Base.{
  is_nil, none, some, not, ◌&&◌, [], ◌||◌, false, if◌then◌else◌, text_eq, true, ◌++◌, Bool, codes,
  write, ◌∷◌, List, Text,
}
use voxhammer.Console.Floats.{Floats, clamp, clamp_ℤ}
use voxhammer.Console.Numbers.{parse_int, int_to_text}

-- What validation makes of a value: an error, or the text to store.
pub data Checked : Type 0 where
  refused : Text → Checked
  stored : Text → Checked

-- `v == "1" || v == "true" || v == "on" || v == "yes"`
unfoldable pub is_true : Text → Bool
is_true v =
    text_eq v (codes "1")
    || text_eq v (codes "true")
    || text_eq v (codes "on")
    || text_eq v (codes "yes")

-- `CVar::GetBool` and `CVar::GetInt`.
unfoldable pub get_bool : {F : Type 0} → CVar F → Bool
get_bool cv = is_true cv.value

unfoldable pub get_int : {F : Type 0} → CVar F → ℤ
get_int cv = parse_int cv.value

-- `CVar::GetFloat`
pub get_float : (fl : Floats) → CVar fl.F → fl.F
get_float fl cv = fl.from_chars cv.value

unfoldable pub contains : List Text → Text → Bool
contains [] v = false
contains (w ∷ ws) v = text_eq w v || contains ws v

-- The list of the accepted values, for the error message.
join_with : Text → List Text → Text
join_with sep [] = []
join_with sep (w ∷ []) = w
join_with sep (w ∷ x ∷ ws) = w ++ (sep ++ join_with sep (x ∷ ws))

enum_error : Text → Text → List Text → Text
unfolding join_with
enum_error v name values =
    codes "'"
    ++ (v
        ++ (codes "' not a valid value for '"
            ++ (name
                ++ (codes "'; expected one of [" ++ (join_with (codes ", ") values ++ codes "]")))))

-- `type == Enum && !enum_values.empty()`, then the membership test.
check_enum : Text → Text → List Text → Checked
unfolding enum_error
check_enum name v [] = stored v
check_enum name v (w ∷ ws) =
    if contains (w ∷ ws) v then stored v else refused (enum_error v name (w ∷ ws))

readonly_error : Text → Text
readonly_error name = codes "cvar '" ++ (name ++ codes "' is read-only")

module _ (fl : Floats) where
  open fl use {F, lt, to_int, from_chars, format}

  -- The text stored for a value of each type, or the error.
  unfoldable pub check_value : CVar F → Text → CVarType → Checked
  unfolding check_enum
  check_value cv v enum = check_enum cv.name v cv.enum_values
  check_value cv v bool = stored (if is_true v then codes "1" else codes "0")
  check_value cv v int =
      if lt cv.range_min cv.range_max
      then stored (int_to_text (clamp_ℤ (parse_int v) (to_int cv.range_min) (to_int cv.range_max)))
      else stored v
  check_value cv v float =
      if lt cv.range_min cv.range_max
      then stored (format (clamp fl (from_chars v) cv.range_min cv.range_max))
      else stored v
  check_value cv v other = stored v

  -- `ApplySet` up to the assignment: the read-only test, then the validation.
  pub check_set : CVar F → Text → Bool → Checked
  unfolding check_value readonly_error
  check_set cv v override =
      if is_readonly cv.flags && not override
      then refused (readonly_error cv.name)
      else check_value cv v cv.type

  -- The calls that a change makes: `on_change`, then the sink, where they are set.
  pub notify : CVar F → Bool → List (Call F)
  notify cv sink =
      (if cv.on_change then changed cv ∷ [] else []) ++ (if sink then sunk cv ∷ [] else [])

  -- The assignment and the calls; the reference is the entry of the name.
  commit : Console F → Text → CVar F → Checked → Console F × Text
  unfolding notify
  commit con name cv (refused e) = (con, e)
  commit con name cv (stored v) =
      let cv' = record cv { value = v } in
      (
        record con {
          cvars = write name cv' con.cvars;
          calls = con.calls ++ notify cv' con.change_sink;
        },
        [],
      )

  -- `ApplySet`: the error text is empty if the value was set.
  pub apply_set : Console F → Text → CVar F → Text → Bool → Console F × Text
  unfolding commit
  apply_set con name cv v override = commit con name cv (check_set cv v override)

  -- `SetCVarOverride`
  pub set_cvar_override : Console F → Text → Text → Console F × Bool
  set_cvar_override con name v = elim (find_cvar con name) [
    | none ↦ (con, false)
    | some cv ↦ let (con', e) = apply_set con name cv v true in (con', is_nil e)
  ]
