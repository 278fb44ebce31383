-- ===== src/Import/Reader/Laws.antt =====
-- engine/voxel/VoxImport.cpp, `struct Reader`: reads where the buffer goes on as expected.
use native.Mathlib.Nat.{add-zero}
use voxhammer.Base.{
  true, le→leb, refl, [], ◌∙◌, get_or, length, some, ap, ◌≤◌, arith, drop-cons, ◌≡◌, drop, ◌∷◌,
  List, ◌+◌, ℕ,
}
use voxhammer.Import.Reader.{can_read, word, read_tag, u32, byte_at, Reader, u8}

-- What is left of the buffer at the position of the reader.
abbrev pub Reads : Reader → List ℕ → Type 0
Reads r s = drop r.pos r.bytes ≡ s

abbrev pub advance : ℕ → Reader → Reader
advance n r = record r { pos = r.pos + n }

pub u8-Reads :
    (r : Reader) (a : ℕ) (s : List ℕ)
    → Reads r (a ∷ s)
    → (u8 r ≡ (advance 1 r, a)) × Reads (advance 1 r) s
unfolding u8
u8-Reads r a s h =
    let (v, t, b) = drop-cons r.bytes r.pos (r.pos + 1) a 0 s refl h in
    let first : byte_at r 0 ≡ a = ap (λ i. get_or r.bytes i 0) (add-zero r.pos) ∙ v in
    (ground (arith, first, b), t)

-- Four bytes that are there.
four :
    (r : Reader) (a b c d : ℕ) (s : List ℕ)
    → Reads r (a ∷ b ∷ c ∷ d ∷ s)
    → (byte_at r 0 ≡ a)
      × (byte_at r 1 ≡ b)
      × (byte_at r 2 ≡ c)
      × (byte_at r 3 ≡ d)
      × (r.pos + 4 ≤ length r.bytes)
      × Reads (advance 4 r) s
four r a b c d s h =
    let n = r.pos in
    let (v0, t0, b0) = drop-cons r.bytes n (n + 1) a 0 (b ∷ c ∷ d ∷ s) refl h in
    let (v1, t1, b1) = drop-cons r.bytes (n + 1) (n + 2) b 0 (c ∷ d ∷ s) (omega arith) t0 in
    let (v2, t2, b2) = drop-cons r.bytes (n + 2) (n + 3) c 0 (d ∷ s) (omega arith) t1 in
    let (v3, t3, b3) = drop-cons r.bytes (n + 3) (n + 4) d 0 s (omega arith) t2 in
    let first : byte_at r 0 ≡ a = ap (λ i. get_or r.bytes i 0) (add-zero n) ∙ v0 in
    (first, v1, v2, v3, b3, t3)

pub u32-Reads :
    (r : Reader) (a b c d : ℕ) (s : List ℕ)
    → Reads r (a ∷ b ∷ c ∷ d ∷ s)
    → (u32 r ≡ (advance 4 r, word a b c d)) × Reads (advance 4 r) s
unfolding u32
u32-Reads r a b c d s h =
    let (v0, v1, v2, v3, bound, rest) = four r a b c d s h in
    (rw (v0, v1, v2, v3, le→leb (r.pos + 4) (length r.bytes) bound) refl, rest)

pub read_tag-Reads :
    (r : Reader) (a b c d : ℕ) (s : List ℕ)
    → Reads r (a ∷ b ∷ c ∷ d ∷ s)
    → (read_tag r ≡ (advance 4 r, some (a ∷ b ∷ c ∷ d ∷ []))) × Reads (advance 4 r) s
unfolding read_tag
read_tag-Reads r a b c d s h =
    let (v0, v1, v2, v3, bound, rest) = four r a b c d s h in
    (rw (v0, v1, v2, v3, le→leb (r.pos + 4) (length r.bytes) bound) refl, rest)

pub can_read-Reads :
    (r : Reader) (a b c d : ℕ) (s : List ℕ) → Reads r (a ∷ b ∷ c ∷ d ∷ s) → can_read 4 r ≡ true
can_read-Reads r a b c d s h =
    let (_, _, _, _, bound, _) = four r a b c d s h in le→leb (r.pos + 4) (length r.bytes) bound
