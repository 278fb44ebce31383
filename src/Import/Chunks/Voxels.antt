-- ===== src/Import/Chunks/Voxels.antt =====
-- engine/voxel/VoxImport.cpp: the XYZI branch on the voxels that a chunk lists.
use voxhammer.Voxel.World.Access.{set_voxel-IsValid, get_voxel-set_voxel}
use voxhammer.Base.Int.{pos}
use voxhammer.Import.Reader.Laws.{u32-Reads, can_read-Reads, advance, u8-Reads, Reads}
use voxhammer.Voxel.World.{get_voxel}
use voxhammer.Import.Chunks.{read_xyzi, put_voxel, read_voxels}
use voxhammer.Import.Reader.{word, Reader}
use voxhammer.Import.Scene.{VoxScene}
use voxhammer.Base.{
  ap, refl, ◌&&◌, ◌+◌, ◌∙◌, arith, ◌==◌, ◌≡◌, [], if◌then◌else◌, length, suc, ◌∷◌, ℕ, List,
}
use voxhammer.Voxel.World.Map.{IsValid}

-- A voxel as the file has it, with Z up.
pub record Voxel : Type 0 where
  pub x : ℕ
  pub y : ℕ
  pub z : ℕ
  pub m : ℕ

abbrev pub voxel_bytes : List Voxel → List ℕ → List ℕ
voxel_bytes [] rest = rest
voxel_bytes (v ∷ vs) rest = v.x ∷ v.y ∷ v.z ∷ v.m ∷ voxel_bytes vs rest

-- The material that the last voxel of a place gives it, where index 0 stands for 1.
abbrev pub material_at : List Voxel → ℕ → ℕ → ℕ → ℕ → ℕ
material_at [] x y z before = before
material_at (v ∷ vs) x y z before =
    let given = if v.m == 0 then 1 else v.m in
    material_at vs x y z (if v.x == x && v.y == y && v.z == z then given else before)

abbrev pub IsRead : List Voxel → VoxScene → VoxScene → Type 0
IsRead vs s s' =
    IsValid s'.world
    × ((x y z : ℕ)
        → get_voxel s'.world (pos x) (pos z) (pos y)
          ≡ material_at vs x y z (get_voxel s.world (pos x) (pos z) (pos y)))
    × (s'.voxel_count ≡ s.voxel_count + length vs)

put_voxel-at :
    (x y z m : ℕ) (s : VoxScene) (x' y' z' : ℕ)
    → IsValid s.world
    → get_voxel (put_voxel x y z m s).world (pos x') (pos z') (pos y') ≡ (
        if x == x' && y == y' && z == z'
        then (if m == 0 then 1 else m)
        else get_voxel s.world (pos x') (pos z') (pos y'))
unfolding put_voxel
put_voxel-at x y z m s x' y' z' v =
    let given = if m == 0 then 1 else m in
    get_voxel-set_voxel s.world (pos x) (pos z) (pos y) given (pos x') (pos z') (pos y') v
    ∙ ground arith

put_voxel-IsValid :
    (x y z m : ℕ) (s : VoxScene) → IsValid s.world → IsValid (put_voxel x y z m s).world
unfolding put_voxel
put_voxel-IsValid x y z m s v =
    set_voxel-IsValid s.world (pos x) (pos z) (pos y) (if m == 0 then 1 else m) v

put_voxel-count :
    (x y z m : ℕ) (s : VoxScene) → (put_voxel x y z m s).voxel_count ≡ s.voxel_count + 1
unfolding put_voxel
put_voxel-count x y z m s = refl

read_voxels_one :
    (n a b c d : ℕ) (rest : List ℕ) (r : Reader) (s : VoxScene)
    → Reads r (a ∷ b ∷ c ∷ d ∷ rest)
    → (r' : Reader) × (read_voxels (suc n) r s ≡ read_voxels n r' (put_voxel a b c d s))
      × Reads r' rest
unfolding read_voxels
read_voxels_one n a b c d rest r s h =
    let (e1, h1) = u8-Reads r a (b ∷ c ∷ d ∷ rest) h in
    let (e2, h2) = u8-Reads (advance 1 r) b (c ∷ d ∷ rest) h1 in
    let (e3, h3) = u8-Reads (advance 1 (advance 1 r)) c (d ∷ rest) h2 in
    let (e4, h4) = u8-Reads (advance 1 (advance 1 (advance 1 r))) d rest h3 in
    (
      advance 1 (advance 1 (advance 1 (advance 1 r))),
      rw (can_read-Reads r a b c d rest h, e1, e2, e3, e4, read_voxels) refl,
      h4,
    )

read_voxels-IsRead :
    (vs : List Voxel) (rest : List ℕ) (r : Reader) (s : VoxScene)
    → IsValid s.world
    → Reads r (voxel_bytes vs rest)
    → IsRead vs s (read_voxels (length vs) r s).1
unfolding read_voxels
read_voxels-IsRead [] rest r s v h = (v, (λ x y z. refl), omega arith)
read_voxels-IsRead (w ∷ vs) rest r s v h =
    let (r', e, h') = read_voxels_one (length vs) w.x w.y w.z w.m (voxel_bytes vs rest) r s h in
    let s' = put_voxel w.x w.y w.z w.m s in
    let (v', at', count) =
      read_voxels-IsRead vs rest r' s' (put_voxel-IsValid w.x w.y w.z w.m s v) h' in
    rw e (
      v',
      (λ x y z. at' x y z ∙ ap (material_at vs x y z) (put_voxel-at w.x w.y w.z w.m s x y z v)),
      omega (arith, count, put_voxel-count w.x w.y w.z w.m s),
    )

-- An XYZI chunk that lists its voxels in full: each ends up in the world with Y and Z swapped and
-- with its material, or 1 where the file says 0; where two have one place, the last counts. Every
-- other voxel of the positive octant is as before, and the count grows by the number listed.
pub read_xyzi-IsRead :
    (vs : List Voxel) (a b c d : ℕ) (rest : List ℕ) (r : Reader) (s : VoxScene)
    → IsValid s.world
    → word a b c d ≡ length vs
    → Reads r (a ∷ b ∷ c ∷ d ∷ voxel_bytes vs rest)
    → IsRead vs s (read_xyzi r s).1
unfolding read_xyzi
read_xyzi-IsRead vs a b c d rest r s v n h =
    let (e, h') = u32-Reads r a b c d (voxel_bytes vs rest) h in
    rw (e, n) (read_voxels-IsRead vs rest (advance 4 r) s v h')
