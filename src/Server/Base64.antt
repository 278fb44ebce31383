-- ===== src/Server/Base64.antt =====
-- engine/console/ConsoleServer.cpp, `Base64Decode`. The bytes come back where it returns true.
pub mod Laws
use mathlib.Core.Option
use voxhammer.Base.{
  ◌||◌, ◌==◌, ◌%◌, ◌&&◌, ◌+◌, [], leb, ◌-◌, ◌^◌, Bool, if◌then◌else◌, ◌*◌, ◌/◌, ◌∷◌, ℕ, none, some,
  Option, List, Text,
}

-- An entry of the table `T`: a value, or -2, -3 or -1.
pub data Sextet : Type 0 where
  value : ℕ → Sextet
  blank : Sextet
  padding : Sextet
  invalid : Sextet

abbrev pub in_span : ℕ → ℕ → ℕ → Bool
in_span lo hi c = leb lo c && leb c hi

-- `T[c]`
unfoldable pub sextet : ℕ → Sextet
sextet c =
    if in_span b'A' b'Z' c
    then value (c - b'A')
    else if in_span b'a' b'z' c
    then value (c - b'a' + 26)
    else if in_span b'0' b'9' c
    then value (c - b'0' + 52)
    else if c == b'+'
    then value 62
    else if c == b'/'
    then value 63
    else if in_span 9 13 c || c == b' '
    then blank
    else if c == b'='
    then padding
    else invalid

-- `acc = (acc << 6) | v`, in 32 bits.
abbrev pub shift_in : ℕ → ℕ → ℕ
shift_in acc v = acc * 2 ^ 6 % 2 ^ 32 + v

-- `static_cast<std::uint8_t>(acc >> bits)`
abbrev pub top_byte : ℕ → ℕ → ℕ
top_byte acc bits = acc / 2 ^ bits % 256

-- `bits += 6; if (bits >= 8) …`, with the loop to go on with.
unfoldable pub push : (ℕ → ℕ → Option (List ℕ)) → ℕ → ℕ → Option (List ℕ)
push go acc bits =
    if leb 8 (bits + 6)
    then Option.map (λ out. top_byte acc (bits + 6 - 8) ∷ out) (go acc (bits + 6 - 8))
    else go acc (bits + 6)

-- The loop.
unfoldable pub decode_from : Text → ℕ → ℕ → Option (List ℕ)
decode_from [] acc bits = some []
decode_from (c ∷ s) acc bits = elim (sextet c) [
  | blank ↦ decode_from s acc bits
  | padding ↦ some []
  | invalid ↦ none
  | value v ↦ push (decode_from s) (shift_in acc v) bits
]

-- `Base64Decode`
unfoldable pub base64_decode : Text → Option (List ℕ)
base64_decode s = decode_from s 0 0
