-- ===== src/Console/Floats.antt =====
-- Floating point as the console uses it. The model has no floats: they are a parameter, with what
-- IEEE comparison, the cast to `int`, `std::from_chars` and `fmt` are documented to do.
use voxhammer.Base.Int.{pos, negsuc, ◌≤ℤ◌, ltb_ℤ, ℤ}
use voxhammer.Base.{◌-◌, ◌^◌, true, false, ◌≡◌, Text, Bool, if◌then◌else◌}

pub record Floats : Type 1 where
  pub F : Type 0
  pub lt : F → F → Bool
  -- `static_cast<int>`
  pub to_int : F → ℤ
  -- The value that `std::from_chars` leaves in a variable that was 0.
  pub from_chars : Text → F
  -- `fmt::format("{}", f)`
  pub format : F → Text
  pub lt_irrefl : (a : F) → lt a a ≡ false
  pub lt_asymm : (a b : F) → lt a b ≡ true → lt b a ≡ false
  -- The cast keeps the order, and its result is an `int`.
  pub to_int_mono : (a b : F) → lt a b ≡ true → to_int a ≤ℤ to_int b
  pub to_int_bounds : (a : F) → (negsuc (2 ^ 31 - 1) ≤ℤ to_int a) × (to_int a ≤ℤ pos (2 ^ 31 - 1))
  -- The shortest text of a value reads back as that value.
  pub from_chars-format : (a : F) → from_chars (format a) ≡ a

-- `std::clamp`
abbrev pub clamp : (fl : Floats) → fl.F → fl.F → fl.F → fl.F
clamp fl v lo hi = if fl.lt v lo then lo else if fl.lt hi v then hi else v

abbrev pub clamp_ℤ : ℤ → ℤ → ℤ → ℤ
clamp_ℤ v lo hi = if ltb_ℤ v lo then lo else if ltb_ℤ hi v then hi else v
