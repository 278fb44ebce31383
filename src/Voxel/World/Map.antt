-- ===== src/Voxel/World/Map.antt =====
-- The laws of the chunk map, and its invariant.
use voxhammer.Base.{
  ◌≡◌, refl, inl, inr, false, [], ◌∷◌, none, some, arith, if◌then◌else◌, Bool-cases, All,
}
use voxhammer.Voxel.Chunk.{Chunk, is_empty, IsSized}
use voxhammer.Voxel.Coords.{ChunkCoord, coord_eq, coord_eq_iff}
use voxhammer.Voxel.World.{ChunkMap, find_chunk, put_chunk, erase_chunk}

pub find_chunk-put_chunk :
    (m : ChunkMap) (key k : ChunkCoord) (c : Chunk)
    → find_chunk (put_chunk m key c) k ≡ (if coord_eq key k then some c else find_chunk m k)
unfolding find_chunk put_chunk
find_chunk-put_chunk [] key k c = refl
find_chunk-put_chunk ((j, d) ∷ m) key k c = ground (
  arith,
  coord_eq_iff j key,
  coord_eq_iff j k,
  coord_eq_iff key k,
  find_chunk-put_chunk m key k c,
)

pub find_chunk-erase_chunk :
    (m : ChunkMap) (key k : ChunkCoord)
    → find_chunk (erase_chunk m key) k ≡ (if coord_eq key k then none else find_chunk m k)
unfolding find_chunk erase_chunk
find_chunk-erase_chunk [] key k = ground arith
find_chunk-erase_chunk ((j, d) ∷ m) key k = ground (
  arith,
  coord_eq_iff j key,
  coord_eq_iff j k,
  coord_eq_iff key k,
  find_chunk-erase_chunk m key k,
)

-- No key occurs twice.
abbrev pub IsAbsent : ChunkCoord → ChunkMap → Type 0
IsAbsent key m = All (λ e. coord_eq e.0 key ≡ false) m

abbrev pub HasUniqueKeys : ChunkMap → Type 0
HasUniqueKeys [] = Unit {0}
HasUniqueKeys ((k, c) ∷ m) = IsAbsent k m × HasUniqueKeys m

-- A resident chunk has 32 * 32 * 32 materials, and one of them is not 0.
abbrev pub IsLive : Chunk → Type 0
IsLive c = IsSized c × (is_empty c ≡ false)

pub record IsValid (m : ChunkMap) : Type 0 where
  pub unique : HasUniqueKeys m
  pub live : All (λ e. IsLive e.1) m

put_chunk-IsAbsent :
    (m : ChunkMap) (k key : ChunkCoord) (c : Chunk)
    → coord_eq key k ≡ false
    → IsAbsent k m
    → IsAbsent k (put_chunk m key c)
unfolding put_chunk
put_chunk-IsAbsent [] k key c n h = (n, tt)
put_chunk-IsAbsent ((j, d) ∷ m) k key c n h = ground (arith, put_chunk-IsAbsent m k key c)

pub put_chunk-HasUniqueKeys :
    (m : ChunkMap) (key : ChunkCoord) (c : Chunk)
    → HasUniqueKeys m
    → HasUniqueKeys (put_chunk m key c)
unfolding put_chunk
put_chunk-HasUniqueKeys [] key c h = (tt, tt)
put_chunk-HasUniqueKeys ((j, d) ∷ m) key c h = ground (
  arith,
  coord_eq_iff j key,
  coord_eq_iff key j,
  put_chunk-IsAbsent m j key c,
  put_chunk-HasUniqueKeys m key c,
)

pub put_chunk-IsLive :
    (m : ChunkMap) (key : ChunkCoord) (c : Chunk)
    → IsLive c
    → All (λ e. IsLive e.1) m
    → All (λ e. IsLive e.1) (put_chunk m key c)
unfolding put_chunk
put_chunk-IsLive [] key c l h = (l, tt)
put_chunk-IsLive ((j, d) ∷ m) key c l h = ground (arith, put_chunk-IsLive m key c l)

pub erase_chunk-All {ℓ} :
    (P : ChunkCoord × Chunk → Type ℓ) (m : ChunkMap) (key : ChunkCoord)
    → All P m
    → All P (erase_chunk m key)
unfolding erase_chunk
erase_chunk-All P [] key h = tt
erase_chunk-All P ((j, d) ∷ m) key h = elim (Bool-cases (coord_eq j key)) [
  | inl e ↦ rw e (erase_chunk-All P m key h.1)
  | inr e ↦ rw e (h.0, erase_chunk-All P m key h.1)
]

pub erase_chunk-HasUniqueKeys :
    (m : ChunkMap) (key : ChunkCoord) → HasUniqueKeys m → HasUniqueKeys (erase_chunk m key)
unfolding erase_chunk
erase_chunk-HasUniqueKeys [] key h = tt
erase_chunk-HasUniqueKeys ((j, d) ∷ m) key h = elim (Bool-cases (coord_eq j key)) [
  | inl e ↦ rw e (erase_chunk-HasUniqueKeys m key h.1)
  | inr e ↦ rw e (erase_chunk-All _ m key h.0, erase_chunk-HasUniqueKeys m key h.1)
]

pub find_chunk-IsLive :
    (m : ChunkMap) (key : ChunkCoord) (c : Chunk)
    → All (λ e. IsLive e.1) m
    → find_chunk m key ≡ some c
    → IsLive c
unfolding find_chunk
find_chunk-IsLive [] key c h e = cc
find_chunk-IsLive ((j, d) ∷ m) k c h e = ground (arith, find_chunk-IsLive m k c h.1)
