-- ===== src/Import/Reader.antt =====
-- engine/voxel/VoxImport.cpp, `struct Reader`. The buffer is a list of bytes, read little-endian.
pub mod Laws
use voxhammer.Base.{
  [], ◌^◌, leb, ◌*◌, ◌∷◌, Bool, Text, get_or, if◌then◌else◌, ◌+◌, List, Option, length, ℕ, none,
  some,
}

pub record Reader : Type 0 where
  pub bytes : List ℕ
  pub pos : ℕ

abbrev pub can_read : ℕ → Reader → Bool
can_read n r = leb (r.pos + n) (length r.bytes)

-- `data[pos + k]`
abbrev pub byte_at : Reader → ℕ → ℕ
byte_at r k = get_or r.bytes (r.pos + k) 0

-- Where a read fails: nothing can be read from there on.
abbrev pub fail_read : Reader → Reader
fail_read r = record r { pos = length r.bytes + 1 }

unfoldable pub u8 : Reader → Reader × ℕ
u8 r = if can_read 1 r then (record r { pos = r.pos + 1 }, byte_at r 0) else (fail_read r, 0)

abbrev pub word : ℕ → ℕ → ℕ → ℕ → ℕ
word a b c d = a + b * 2 ^ 8 + c * 2 ^ 16 + d * 2 ^ 24

unfoldable pub u32 : Reader → Reader × ℕ
u32 r =
    if can_read 4 r
    then (
      record r { pos = r.pos + 4 },
      word (byte_at r 0) (byte_at r 1) (byte_at r 2) (byte_at r 3),
    )
    else (fail_read r, 0)

unfoldable pub skip : ℕ → Reader → Reader
skip n r = record r { pos = r.pos + n }

-- The reader, and the tag if there was one.
unfoldable pub read_tag : Reader → Reader × Option Text
read_tag r =
    if can_read 4 r
    then (
      record r { pos = r.pos + 4 },
      some (byte_at r 0 ∷ byte_at r 1 ∷ byte_at r 2 ∷ byte_at r 3 ∷ []),
    )
    else (r, none)
