-- ===== src/Server/Base64/Laws.antt =====
-- engine/console/ConsoleServer.cpp, `Base64Decode`: against the encoding of RFC 4648.
use mathlib.Core.Option
use voxhammer.Server.Base64.{base64_decode, top_byte, shift_in, push, decode_from, sextet, value}
use voxhammer.Base.{
  sym, ap, ◌∙◌, All, ◌==◌, ◌*◌, ◌-◌, refl, [], arith, ◌%◌, ◌+◌, ltb, ◌/◌, ◌≡◌, if◌then◌else◌, ◌<◌,
  ◌∷◌, ℕ, some, Option, List, Text,
}

-- The alphabet.
unfoldable pub digit : ℕ → ℕ
digit n =
    if ltb n 26
    then b'A' + n
    else if ltb n 52
    then b'a' + (n - 26)
    else if ltb n 62
    then b'0' + (n - 52)
    else if n == 62
    then b'+'
    else b'/'

-- Three bytes are four digits; at the end the padding fills up to four.
unfoldable pub base64_encode : List ℕ → Text
base64_encode [] = []
base64_encode (a ∷ []) = digit (a / 4) ∷ digit (a % 4 * 16) ∷ b'=' ∷ b'=' ∷ []
base64_encode (a ∷ b ∷ []) =
    digit (a / 4) ∷ digit (a % 4 * 16 + b / 16) ∷ digit (b % 16 * 4) ∷ b'=' ∷ []
base64_encode (a ∷ b ∷ c ∷ s) =
    digit (a / 4)
    ∷ digit (a % 4 * 16 + b / 16)
    ∷ digit (b % 16 * 4 + c / 64)
    ∷ digit (c % 64)
    ∷ base64_encode s

sextet-digit : (n : ℕ) → n < 64 → sextet (digit n) ≡ value n
unfolding sextet digit
sextet-digit n h = ground arith

decode_digit :
    (n : ℕ) (s : Text) (acc bits : ℕ)
    → n < 64
    → decode_from (digit n ∷ s) acc bits ≡ push (decode_from s) (shift_in acc n) bits
unfolding decode_from
decode_digit n s acc bits h = rw (sextet-digit n h, decode_from) refl

decode_padding : (s : Text) (acc bits : ℕ) → decode_from (b'=' ∷ s) acc bits ≡ some []
unfolding decode_from sextet
decode_padding s acc bits = refl

-- A byte that has come out, in front of the rest.
abbrev emit : ℕ → Option (List ℕ) → Option (List ℕ)
emit a = Option.map (λ out. a ∷ out)

-- The first two digits of a group give its first byte and keep four bits of the second.
decode_two :
    (a n : ℕ) (s : Text) (acc : ℕ)
    → a < 256
    → n < 16
    → (acc' : ℕ) × (decode_from (digit (a / 4) ∷ digit (a % 4 * 16 + n) ∷ s) acc 0
        ≡ emit a (decode_from s acc' 4))
      × (acc' % 16 ≡ n)
unfolding push
decode_two a n s acc ha hn =
    let low = a % 4 * 16 + n in
    let acc1 = shift_in acc (a / 4) in
    let acc2 = shift_in acc1 low in
    let byte : top_byte acc2 4 ≡ a = omega arith in
    (
      acc2,
      decode_digit (a / 4) (digit low ∷ s) acc 0 (omega arith)
          ∙ decode_digit low s acc1 6 (omega arith)
          ∙ ap (λ t. emit t (decode_from s acc2 4)) byte,
      omega arith,
    )

-- The third digit gives the second byte and keeps two bits of the third.
decode_third :
    (b n : ℕ) (s : Text) (acc : ℕ)
    → b < 256
    → n < 4
    → acc % 16 ≡ b / 16
    → (acc' : ℕ) × (decode_from (digit (b % 16 * 4 + n) ∷ s) acc 4 ≡ emit b (decode_from s acc' 2))
      × (acc' % 4 ≡ n)
unfolding push
decode_third b n s acc hb hn e =
    let low = b % 16 * 4 + n in
    let acc1 = shift_in acc low in
    let byte : top_byte acc1 2 ≡ b = omega arith in
    (
      acc1,
      decode_digit low s acc 4 (omega arith) ∙ ap (λ t. emit t (decode_from s acc1 2)) byte,
      omega arith,
    )

-- The fourth gives the third byte.
decode_fourth :
    (c : ℕ) (s : Text) (acc : ℕ)
    → c < 256
    → acc % 4 ≡ c / 64
    → (acc' : ℕ) × (decode_from (digit (c % 64) ∷ s) acc 2 ≡ emit c (decode_from s acc' 0))
unfolding push
decode_fourth c s acc hc e =
    let acc1 = shift_in acc (c % 64) in
    let byte : top_byte acc1 0 ≡ c = omega arith in
    (
      acc1,
      decode_digit (c % 64) s acc 2 (omega arith) ∙ ap (λ t. emit t (decode_from s acc1 0)) byte,
    )

abbrev pub IsByte : ℕ → Type 0
IsByte b = b < 256

decode_from-base64_encode :
    (bs : List ℕ) (acc : ℕ) → All IsByte bs → decode_from (base64_encode bs) acc 0 ≡ some bs
unfolding base64_encode
decode_from-base64_encode [] acc h = unfold decode_from in refl
decode_from-base64_encode (a ∷ []) acc (ha, _) =
    let tail : Text = b'=' ∷ b'=' ∷ [] in
    let (acc1, e, _) = decode_two a 0 tail acc ha (omega arith) in
    let same : a % 4 * 16 + 0 ≡ a % 4 * 16 = omega arith in
    ap (λ n. decode_from (digit (a / 4) ∷ digit n ∷ tail) acc 0) (sym same)
    ∙ e
    ∙ ap (emit a) (decode_padding (b'=' ∷ []) acc1 4)
decode_from-base64_encode (a ∷ b ∷ []) acc (ha, (hb, _)) =
    let tail : Text = b'=' ∷ [] in
    let (acc1, e, r) = decode_two a (b / 16) (digit (b % 16 * 4) ∷ tail) acc ha (omega arith) in
    let (acc2, f, _) = decode_third b 0 tail acc1 hb (omega arith) r in
    let same : b % 16 * 4 + 0 ≡ b % 16 * 4 = omega arith in
    e
    ∙ ap (λ n. emit a (decode_from (digit n ∷ tail) acc1 4)) (sym same)
    ∙ ap (emit a) (f ∙ ap (emit b) (decode_padding [] acc2 2))
decode_from-base64_encode (a ∷ b ∷ c ∷ s) acc (ha, (hb, (hc, h))) =
    let last = digit (c % 64) ∷ base64_encode s in
    let (acc1, e, r) =
      decode_two a (b / 16) (digit (b % 16 * 4 + c / 64) ∷ last) acc ha (omega arith) in
    let (acc2, f, r') = decode_third b (c / 64) last acc1 hb (omega arith) r in
    let (acc3, g) = decode_fourth c (base64_encode s) acc2 hc r' in
    e ∙ ap (emit a) (f ∙ ap (emit b) (g ∙ ap (emit c) (decode_from-base64_encode s acc3 h)))

-- Every list of bytes is decoded from its standard encoding, with padding.
pub base64_decode-base64_encode :
    (bs : List ℕ) → All IsByte bs → base64_decode (base64_encode bs) ≡ some bs
unfolding base64_decode
base64_decode-base64_encode bs h = decode_from-base64_encode bs 0 h
