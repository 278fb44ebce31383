-- ===== src/Server/Hashing.antt =====
-- engine/console/Password.cpp: the hash that stands in where libsodium is not linked.
pub mod Laws
use voxhammer.Server.Sessions.{hex_digit, strip_prefix}
use voxhammer.Base.{
  zero, ◌==◌, if◌then◌else◌, ◌^◌, text_eq, ◌%◌, ◌+◌, Bool, [], codes, ◌*◌, ◌++◌, ◌/◌, ◌∷◌, suc,
  Text, ℕ, List,
}

-- `h ^= c` on 64 bits, where `c` is a byte: only the low byte of `h` can change.
unfoldable pub xor_bits : ℕ → ℕ → ℕ → ℕ
xor_bits zero a b = 0
xor_bits (suc n) a b =
    let high = xor_bits n (a / 2) (b / 2) in 2 * high + (if a % 2 == b % 2 then 0 else 1)

-- One round of the loop over the password.
unfoldable pub hash_byte : ℕ → ℕ → ℕ
hash_byte h c = (xor_bits 64 h c * 1099511628211) % 2 ^ 64

unfoldable pub hash_bytes : ℕ → Text → ℕ
hash_bytes h [] = h
hash_bytes h (c ∷ s) = hash_bytes (hash_byte h c) s

-- `%016llx`
unfoldable pub hex_text : ℕ → ℕ → Text
hex_text zero n = []
hex_text (suc k) n = hex_text k (n / 16) ++ hex_digit (n % 16) ∷ []

abbrev pub stub_prefix : Text
stub_prefix = codes "argon2id-stub$"

-- `StubHash`
unfoldable pub stub_hash : Text → Text
stub_hash pw = stub_prefix ++ hex_text 16 (hash_bytes 1469598103934665603 pw)

-- `HashPassword` and `VerifyPassword`, without libsodium.
unfoldable pub hash_password : Text → Text
hash_password plaintext = stub_hash plaintext

unfoldable pub verify_password : Text → Text → Bool
verify_password plaintext hash = text_eq (stub_hash plaintext) hash
