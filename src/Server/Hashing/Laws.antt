-- ===== src/Server/Hashing/Laws.antt =====
-- engine/console/Password.cpp: hashing and verifying without libsodium.
use voxhammer.Server.Sessions.{hex_digit}
use voxhammer.Server.Hashing.{
  xor_bits, stub_prefix, hash_byte, hash_bytes, hex_text, stub_hash, hash_password, verify_password,
}
use voxhammer.Base.{
  ap, ◌*◌, text_eq_refl, zero, text_eq_iff, ◌%◌, refl, [], ◌/◌, ◌↔◌, suc, arith, true, ◌^◌, ◌∷◌,
  ◌++◌, ◌<◌, ◌≡◌, Text, ℕ,
}

-- The state of the hash after the bytes of a password.
abbrev pub fnv : Text → ℕ
fnv s = hash_bytes 1469598103934665603 s

append_last-injective : (s t : Text) (a b : ℕ) → s ++ a ∷ [] ≡ t ++ b ∷ [] → (s ≡ t) × (a ≡ b)
append_last-injective [] [] a b e = (refl, ground arith)
append_last-injective [] (d ∷ []) a b e = absurd (ground arith)
append_last-injective [] (d ∷ f ∷ t) a b e = absurd (ground arith)
append_last-injective (c ∷ []) [] a b e = absurd (ground arith)
append_last-injective (c ∷ f ∷ s) [] a b e = absurd (ground arith)
append_last-injective (c ∷ s) (d ∷ t) a b e =
    let (p, q) = append_last-injective s t a b (ground arith) in (ground (arith, p), q)

append-injective : (s t u : Text) → s ++ t ≡ s ++ u → t ≡ u
append-injective [] t u e = e
append-injective (c ∷ s) t u e = append-injective s t u (ground arith)

hex_digit-injective : (m n : ℕ) → m < 16 → n < 16 → hex_digit m ≡ hex_digit n → m ≡ n
hex_digit-injective m n a b e = ground arith

hex_text-injective : (k m n : ℕ) → m < 16 ^ k → n < 16 ^ k → hex_text k m ≡ hex_text k n → m ≡ n
unfolding hex_text
hex_text-injective zero m n a b e = omega arith
hex_text-injective (suc k) m n a b e =
    let (p, q) =
      append_last-injective (hex_text k (m / 16)) (hex_text k (n / 16)) (hex_digit (m % 16))
        (hex_digit (n % 16)) e in
    let high = hex_text-injective k (m / 16) (n / 16) (omega arith) (omega arith) p in
    let low = hex_digit-injective (m % 16) (n % 16) (omega arith) (omega arith) q in
    omega (arith, high, low)

hash_bytes-bound : (h : ℕ) (s : Text) → h < 2 ^ 64 → hash_bytes h s < 2 ^ 64
unfolding hash_bytes hash_byte
hash_bytes-bound h [] b = b
hash_bytes-bound h (c ∷ s) b = hash_bytes-bound (hash_byte h c) s (omega arith)

-- Without libsodium, a password is accepted for the hash of another exactly if the two have the same
-- hash state.
verify_password-fnv : (p q : Text) → (verify_password p (hash_password q) ≡ true) ↔ (fnv p ≡ fnv q)
unfolding verify_password hash_password stub_hash
verify_password-fnv p q = (
  (λ e.
      let same =
        (text_eq_iff (stub_prefix ++ hex_text 16 (fnv p)) (stub_prefix ++ hex_text 16 (fnv q))).0
          e in
      hex_text-injective 16 (fnv p) (fnv q) (hash_bytes-bound 1469598103934665603 p (omega arith))
        (hash_bytes-bound 1469598103934665603 q (omega arith))
        (append-injective stub_prefix (hex_text 16 (fnv p)) (hex_text 16 (fnv q)) same)),
  (λ e. rw e (text_eq_refl (stub_prefix ++ hex_text 16 (fnv q)))),
)

xor_bits-bound : (k a b : ℕ) → xor_bits k a b < 2 ^ k
unfolding xor_bits
xor_bits-bound zero a b = omega arith
xor_bits-bound (suc k) a b = ground (arith, xor_bits-bound k (a / 2) (b / 2))

xor_bits-left : (k a a' b : ℕ) → a < 2 ^ k → a' < 2 ^ k → xor_bits k a b ≡ xor_bits k a' b → a ≡ a'
unfolding xor_bits
xor_bits-left zero a a' b p q e = omega arith
xor_bits-left (suc k) a a' b p q e =
    ground (arith, e, xor_bits-left k (a / 2) (a' / 2) (b / 2) (omega arith) (omega arith))

xor_bits-right : (k a b b' : ℕ) → b < 2 ^ k → b' < 2 ^ k → xor_bits k a b ≡ xor_bits k a b' → b ≡ b'
unfolding xor_bits
xor_bits-right zero a b b' p q e = omega arith
xor_bits-right (suc k) a b b' p q e =
    ground (arith, e, xor_bits-right k (a / 2) (b / 2) (b' / 2) (omega arith) (omega arith))

-- The factor is odd, so that no product is lost on 64 bits.
times_prime-injective :
    (m n : ℕ)
    → m < 2 ^ 64
    → n < 2 ^ 64
    → (m * 1099511628211) % 2 ^ 64 ≡ (n * 1099511628211) % 2 ^ 64
    → m ≡ n
times_prime-injective m n a b e = omega arith

hash_byte-state : (h h' c : ℕ) → h < 2 ^ 64 → h' < 2 ^ 64 → hash_byte h c ≡ hash_byte h' c → h ≡ h'
unfolding hash_byte
hash_byte-state h h' c a b e = xor_bits-left 64 h h' c a b (
    times_prime-injective (xor_bits 64 h c) (xor_bits 64 h' c) (xor_bits-bound 64 h c)
      (xor_bits-bound 64 h' c) e)

hash_byte-byte : (h c c' : ℕ) → c < 256 → c' < 256 → hash_byte h c ≡ hash_byte h c' → c ≡ c'
unfolding hash_byte
hash_byte-byte h c c' a b e = xor_bits-right 64 h c c' (omega arith) (omega arith) (
    times_prime-injective (xor_bits 64 h c) (xor_bits 64 h c') (xor_bits-bound 64 h c)
      (xor_bits-bound 64 h c') e)

hash_byte-bound : (h c : ℕ) → hash_byte h c < 2 ^ 64
unfolding hash_byte
hash_byte-bound h c = omega arith

hash_bytes-state :
    (t : Text) (h h' : ℕ) → h < 2 ^ 64 → h' < 2 ^ 64 → hash_bytes h t ≡ hash_bytes h' t → h ≡ h'
unfolding hash_bytes
hash_bytes-state [] h h' a b e = e
hash_bytes-state (c ∷ t) h h' a b e = hash_byte-state h h' c a b (
    hash_bytes-state t (hash_byte h c) (hash_byte h' c) (hash_byte-bound h c) (hash_byte-bound h' c)
      e)

hash_bytes-differ :
    (s t : Text) (h a b : ℕ)
    → a < 256
    → b < 256
    → hash_bytes h (s ++ a ∷ t) ≡ hash_bytes h (s ++ b ∷ t)
    → a ≡ b
unfolding hash_bytes
hash_bytes-differ [] t h a b p q e = hash_byte-byte h a b p q (
    hash_bytes-state t (hash_byte h a) (hash_byte h b) (hash_byte-bound h a) (hash_byte-bound h b)
      e)
hash_bytes-differ (c ∷ s) t h a b p q e = hash_bytes-differ s t (hash_byte h c) a b p q e

-- Without libsodium, a password is accepted for its own hash, and one that differs from it in exactly
-- one byte, wherever that is, is not.
pub verify_password-hash_password :
    (s t : Text) (a b : ℕ)
    → a < 256
    → b < 256
    → (verify_password (s ++ a ∷ t) (hash_password (s ++ b ∷ t)) ≡ true) ↔ (a ≡ b)
verify_password-hash_password s t a b p q =
    let same = verify_password-fnv (s ++ a ∷ t) (s ++ b ∷ t) in
    (
      (λ e. hash_bytes-differ s t 1469598103934665603 a b p q (same.0 e)),
      (λ e. same.1 (ap (λ c. fnv (s ++ c ∷ t)) e)),
    )
