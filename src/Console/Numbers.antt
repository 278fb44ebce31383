-- ===== src/Console/Numbers.antt =====
-- What engine/cvar/Console.cpp uses of the standard library on integers: `std::from_chars` and
-- `std::to_string` for `int`.
use voxhammer.Base.Int.{◌≤ℤ◌, sub_ℕ, negsuc, pos, ℤ}
use voxhammer.Base.{
  inr, inl, Bool-cases, ap, arith, false, true, ◌∙◌, zero, ltb, ◌^◌, ◌-◌, ◌/◌, ◌==◌, if◌then◌else◌,
  none, ◌%◌, ◌&&◌, ◌*◌, ◌≡◌, some, Option, [], leb, ◌+◌, ◌<◌, ◌∷◌, suc, Bool, Text, ℕ,
}

abbrev is_digit : ℕ → Bool
is_digit c = leb b'0' c && leb c b'9'

-- The value of the longest run of digits, and whether there is one.
digits_from : ℕ → Text → ℕ
digits_from acc [] = acc
digits_from acc (c ∷ s) =
    let rest = digits_from (acc * 10 + (c - b'0')) s in if is_digit c then rest else acc

unsigned_value : Text → Option ℕ
unsigned_value [] = none
unsigned_value (c ∷ s) = if is_digit c then some (digits_from 0 (c ∷ s)) else none

-- A pattern that does not match, or a value out of range, leaves the variable at its initial 0.
in_range : ℕ → (ℕ → ℤ) → Option ℕ → ℤ
in_range limit sign none = pos 0
in_range limit sign (some n) = if leb n limit then sign n else pos 0

pub parse_int : Text → ℤ
unfolding in_range unsigned_value digits_from
parse_int [] = pos 0
parse_int (c ∷ s) =
    if c == b'-'
    then in_range (2 ^ 31) (λ n. sub_ℕ 0 n) (unsigned_value s)
    else in_range (2 ^ 31 - 1) (λ n. pos n) (unsigned_value (c ∷ s))

-- The decimal digits, on fuel; a number has no more digits than its value.
decimal : ℕ → ℕ → Text → Text
decimal zero n acc = acc
decimal (suc fuel) n acc =
    let acc' = (b'0' + n % 10) ∷ acc in
    let more = decimal fuel (n / 10) acc' in if ltb n 10 then acc' else more

pub int_to_text : ℤ → Text
unfolding decimal
int_to_text (pos n) = decimal (suc n) n []
int_to_text (negsuc n) = b'-' ∷ decimal (suc (suc n)) (suc n) []

digits_from-digit :
    (acc d : ℕ) (s : Text)
    → d < 10
    → digits_from acc ((b'0' + d) ∷ s) ≡ digits_from (acc * 10 + d) s
unfolding digits_from
digits_from-digit acc d s h =
    let same : b'0' + d - b'0' ≡ d = omega arith in
    let digit : is_digit (b'0' + d) ≡ true = ground arith in rw (same, digit)

digits_from-decimal :
    (fuel n : ℕ) (s : Text) → n < fuel → digits_from 0 (decimal fuel n s) ≡ digits_from n s
unfolding decimal
digits_from-decimal zero n s h = absurd (omega arith)
digits_from-decimal (suc fuel) n s h = elim (Bool-cases (ltb n 10)) [
  | inl e ↦
      rw e (digits_from-digit 0 (n % 10) s (omega arith) ∙ ap (λ m. digits_from m s) (ground arith))
  | inr e ↦ rw e (
      digits_from-decimal fuel (n / 10) ((b'0' + n % 10) ∷ s) (ground arith)
      ∙ digits_from-digit (n / 10) (n % 10) s (omega arith)
      ∙ ap (λ m. digits_from m s) (omega arith))
]

abbrev StartsDigit : Text → Type 0
StartsDigit [] = ⊥
StartsDigit (c ∷ s) = is_digit c ≡ true

decimal-StartsDigit : (fuel n : ℕ) (s : Text) → StartsDigit s → StartsDigit (decimal fuel n s)
unfolding decimal
decimal-StartsDigit zero n s h = h
decimal-StartsDigit (suc fuel) n s h =
    let digit : is_digit (b'0' + n % 10) ≡ true = ground arith in
    elim (Bool-cases (ltb n 10)) [
      | inl e ↦ rw e digit
      | inr e ↦ rw e (decimal-StartsDigit fuel (n / 10) ((b'0' + n % 10) ∷ s) digit)
    ]

decimal-digits : (n : ℕ) → StartsDigit (decimal (suc n) n [])
unfolding decimal
decimal-digits n =
    let digit : is_digit (b'0' + n % 10) ≡ true = ground arith in
    elim (Bool-cases (ltb n 10)) [
      | inl e ↦ rw e digit
      | inr e ↦ rw e (decimal-StartsDigit n (n / 10) ((b'0' + n % 10) ∷ []) digit)
    ]

unsigned_value-digits : (s : Text) → StartsDigit s → unsigned_value s ≡ some (digits_from 0 s)
unfolding unsigned_value
unsigned_value-digits [] h = absurd h
unsigned_value-digits (c ∷ s) h = rw h

unsigned_value-decimal : (n : ℕ) → unsigned_value (decimal (suc n) n []) ≡ some n
unfolding digits_from
unsigned_value-decimal n =
    unsigned_value-digits (decimal (suc n) n []) (decimal-digits n)
    ∙ ap some (digits_from-decimal (suc n) n [] (omega arith))

parse_int-digits :
    (s : Text) → StartsDigit s → parse_int s ≡ in_range (2 ^ 31 - 1) (λ n. pos n) (unsigned_value s)
unfolding parse_int
parse_int-digits [] h = absurd h
parse_int-digits (c ∷ s) h = let sign : (c == b'-') ≡ false = ground arith in rw sign

-- A number in the range of `int` is read back from its decimal text.
pub parse_int-int_to_text :
    (n : ℤ) → negsuc (2 ^ 31 - 1) ≤ℤ n → n ≤ℤ pos (2 ^ 31 - 1) → parse_int (int_to_text n) ≡ n
unfolding int_to_text parse_int
parse_int-int_to_text (pos n) a b =
    parse_int-digits (decimal (suc n) n []) (decimal-digits n)
    ∙ rw (unsigned_value-decimal n) (ground arith)
parse_int-int_to_text (negsuc n) a b = rw (unsigned_value-decimal (suc n)) (ground arith)
