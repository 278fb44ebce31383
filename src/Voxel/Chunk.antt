-- ===== src/Voxel/Chunk.antt =====
-- engine/voxel/VoxelWorld.h, `struct Chunk`: 32 * 32 * 32 materials, 0 for empty.
use voxhammer.Base.{
  ℕ, zero, suc, ◌<◌, ◌≡◌, refl, Bool, true, false, List, [], ◌∷◌, arith, length, get_or, set,
  replicate, length-set, length-replicate, get_or-set, get_or-replicate, ◌==◌, if◌then◌else◌,
}
use voxhammer.Voxel.Coords.{chunk_voxels, voxel_index}

pub record Chunk : Type 0 where
  pub mats : List ℕ

-- `mats{}`
pub new_chunk : Chunk
unfolding replicate
new_chunk = record { mats = replicate chunk_voxels 0 }

-- `Get` and `Set`, with the three coordinates as a tuple.
unfoldable pub chunk_get : Chunk → ℕ × ℕ × ℕ → ℕ
chunk_get c l = get_or c.mats (voxel_index l) 0

unfoldable pub chunk_set : Chunk → ℕ × ℕ × ℕ → ℕ → Chunk
chunk_set c l m = record { mats = set c.mats (voxel_index l) m }

all_zero : List ℕ → Bool
all_zero [] = true
all_zero (v ∷ vs) = let rest = all_zero vs in if v == 0 then rest else false

-- `Empty`
pub is_empty : Chunk → Bool
is_empty c = all_zero c.mats

-- A chunk has its fixed size.
abbrev pub IsSized : Chunk → Type 0
IsSized c = length c.mats ≡ chunk_voxels

pub new_chunk-IsSized : IsSized new_chunk
unfolding new_chunk
new_chunk-IsSized = length-replicate {A = ℕ} chunk_voxels 0

pub chunk_get-new_chunk : (l : ℕ × ℕ × ℕ) → chunk_get new_chunk l ≡ 0
unfolding new_chunk chunk_get
chunk_get-new_chunk l = get_or-replicate chunk_voxels (voxel_index l) 0

module _ (c : Chunk) (l : ℕ × ℕ × ℕ) (m : ℕ) where
  pub chunk_set-IsSized : IsSized c → IsSized (chunk_set c l m)
  unfolding chunk_set
  chunk_set-IsSized h = rw (length-set c.mats (voxel_index l) m) h

  pub chunk_get-chunk_set :
      (k : ℕ × ℕ × ℕ)
      → IsSized c
      → voxel_index l < chunk_voxels
      → chunk_get (chunk_set c l m) k
        ≡ (if voxel_index l == voxel_index k then m else chunk_get c k)
  unfolding chunk_get chunk_set
  chunk_get-chunk_set k h b = get_or-set c.mats (voxel_index l) (voxel_index k) m 0 (omega arith)

get_or-all_zero : (xs : List ℕ) (i : ℕ) → all_zero xs ≡ true → get_or xs i 0 ≡ 0
unfolding all_zero
get_or-all_zero [] i h = refl
get_or-all_zero (x ∷ xs) zero h = ground arith
get_or-all_zero (x ∷ xs) (suc i) h = ground (arith, get_or-all_zero xs i)

pub chunk_get-is_empty : (c : Chunk) (l : ℕ × ℕ × ℕ) → is_empty c ≡ true → chunk_get c l ≡ 0
unfolding is_empty chunk_get
chunk_get-is_empty c l h = get_or-all_zero c.mats (voxel_index l) h
