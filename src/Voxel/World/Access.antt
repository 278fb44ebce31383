-- ===== src/Voxel/World/Access.antt =====
-- Reads and writes of single voxels.
use voxhammer.Voxel.World.Map.{
  find_chunk-put_chunk, find_chunk-erase_chunk, IsValid, IsLive, find_chunk-IsLive,
  put_chunk-HasUniqueKeys, put_chunk-IsLive, erase_chunk-HasUniqueKeys, erase_chunk-All,
}
use voxhammer.Base.{
  ==_iff, ◌≢◌, ap, ◌∙◌, sym, true, ◌==◌, ◌&&◌, ◌<◌, Option-cases, ℕ, ◌≡◌, refl, inl, inr, none,
  some, arith, if◌then◌else◌, Bool-cases,
}
use voxhammer.Voxel.Chunk.{
  chunk_set-IsSized, chunk_get-is_empty, chunk_get-chunk_set, chunk_set, chunk_get-new_chunk,
  chunk_get, new_chunk-IsSized, Chunk, is_empty, IsSized,
}
use voxhammer.Voxel.Coords.{
  same_cell, voxel_index-lt, chunk_local, same_pos, world_to_chunk, chunk_voxels, voxel_index,
  ChunkCoord, coord_eq, coord_eq_iff,
}
use voxhammer.Voxel.World.{
  ℤ, get_voxel, set_voxel, clear_in, get_in, get_or_create_chunk, ChunkMap, find_chunk, put_chunk,
  erase_chunk,
}

get_or_create_chunk-IsSized :
    (m : ChunkMap) (k : ChunkCoord) → IsValid m → IsSized (get_or_create_chunk m k)
unfolding get_or_create_chunk
get_or_create_chunk-IsSized m k v = elim (Option-cases (find_chunk m k)) [
  | inl e ↦ rw (e, get_or_create_chunk) new_chunk-IsSized
  | inr (c, e) ↦ rw (e, get_or_create_chunk) (find_chunk-IsLive m k c v.live e).0
]

get_or_create_chunk-get :
    (m : ChunkMap) (k : ChunkCoord) (l : ℕ × ℕ × ℕ)
    → chunk_get (get_or_create_chunk m k) l ≡ get_in (find_chunk m k) l
unfolding get_or_create_chunk get_in
get_or_create_chunk-get m k l = elim (Option-cases (find_chunk m k)) [
  | inl e ↦ rw (e, get_or_create_chunk) (chunk_get-new_chunk l)
  | inr (c, e) ↦ rw (e, get_or_create_chunk) refl
]

-- What is read after one chunk has been written.
module _ (m : ChunkMap) (k k' : ChunkCoord) (l l' : ℕ × ℕ × ℕ) where
  read_put :
      (v : ℕ) (c : Chunk)
      → IsSized c
      → voxel_index l < chunk_voxels
      → chunk_get c l' ≡ get_in (find_chunk m k) l'
      → get_in (find_chunk (put_chunk m k (chunk_set c l v)) k') l' ≡ (
          if coord_eq k k' && voxel_index l == voxel_index l'
          then v
          else get_in (find_chunk m k') l')
  unfolding get_in
  read_put v c h b old = elim (Bool-cases (coord_eq k k')) [
    | inl e ↦
        rw (find_chunk-put_chunk, e)
          (chunk_get-chunk_set c l v l' h b
            ∙ ap (λ w. if voxel_index l == voxel_index l' then v else w)
                (old ∙ ap (λ j. get_in (find_chunk m j) l') ((coord_eq_iff k k').0 e)))
    | inr e ↦ rw (find_chunk-put_chunk, e) refl
  ]

  read_erase :
      (c : Chunk)
      → IsSized c
      → voxel_index l < chunk_voxels
      → find_chunk m k ≡ some c
      → is_empty (chunk_set c l 0) ≡ true
      → get_in (find_chunk (erase_chunk m k) k') l' ≡ (
          if coord_eq k k' && voxel_index l == voxel_index l'
          then 0
          else get_in (find_chunk m k') l')
  unfolding get_in
  read_erase c h b old gone = elim (Bool-cases (coord_eq k k')) [
    | inl e ↦
        rw (find_chunk-erase_chunk, e)
          (sym (chunk_get-is_empty (chunk_set c l 0) l' gone)
            ∙ chunk_get-chunk_set c l 0 l' h b
            ∙ ap (λ w. if voxel_index l == voxel_index l' then 0 else w)
                (ap (λ o. get_in o l') (sym old)
                  ∙ ap (λ j. get_in (find_chunk m j) l') ((coord_eq_iff k k').0 e)))
    | inr e ↦ rw (find_chunk-erase_chunk, e) refl
  ]

  get_in_absent : find_chunk m k ≡ none → coord_eq k k' ≡ true → get_in (find_chunk m k') l' ≡ 0
  unfolding get_in
  get_in_absent e h =
      ap (λ j. get_in (find_chunk m j) l') (sym ((coord_eq_iff k k').0 h)) ∙ ap (λ o. get_in o l') e

  read_clear :
      IsValid m
      → voxel_index l < chunk_voxels
      → get_in (find_chunk (clear_in m k l (find_chunk m k)) k') l' ≡ (
          if coord_eq k k' && voxel_index l == voxel_index l'
          then 0
          else get_in (find_chunk m k') l')
  unfolding clear_in get_in
  read_clear w b = elim (Option-cases (find_chunk m k)) [
    | inl e ↦ rw e (ground (arith, get_in_absent e))
    | inr (c, e) ↦
        let s = (find_chunk-IsLive m k c w.live e).0 in
        rw e (elim (Bool-cases (is_empty (chunk_set c l 0))) [
          | inl g ↦ rw g (read_erase c s b e g)
          | inr g ↦ rw g (read_put 0 c s b (ap (λ o. get_in o l') (sym e)))
        ])
  ]

-- In a well-formed chunk map, reading the voxel just written gives the material written, and every
-- other voxel is unchanged.
pub get_voxel-set_voxel :
    (m : ChunkMap) (x y z : ℤ) (mat : ℕ) (x' y' z' : ℤ)
    → IsValid m
    → get_voxel (set_voxel m x y z mat) x' y' z'
      ≡ (if same_pos x y z x' y' z' then mat else get_voxel m x' y' z')
unfolding get_voxel set_voxel
get_voxel-set_voxel m x y z mat x' y' z' v =
    let k = world_to_chunk x y z in
    let k' = world_to_chunk x' y' z' in
    let l = chunk_local x y z in
    let l' = chunk_local x' y' z' in
    let b = voxel_index-lt x y z in
    rw (← same_cell x y z x' y' z') (elim (Bool-cases (mat == 0)) [
      | inl e ↦ let e' : mat ≡ 0 = (==_iff mat 0).0 e in rw (e, e') (read_clear m k k' l l' v b)
      | inr e ↦ rw e (
          read_put m k k' l l' mat (get_or_create_chunk m k) (get_or_create_chunk-IsSized m k v) b
            (get_or_create_chunk-get m k l'))
    ])

chunk_set-IsLive :
    (c : Chunk) (l : ℕ × ℕ × ℕ) (mat : ℕ)
    → IsSized c
    → voxel_index l < chunk_voxels
    → mat ≢ 0
    → IsLive (chunk_set c l mat)
chunk_set-IsLive c l mat h b n = (
  chunk_set-IsSized c l mat h,
  elim (Bool-cases (is_empty (chunk_set c l mat))) [
    | inl e ↦ absurd (
        n (
          ground
            (arith, chunk_get-chunk_set c l mat l h b, chunk_get-is_empty (chunk_set c l mat) l e)))
    | inr e ↦ e
  ],
)

clear_in-IsValid :
    (m : ChunkMap) (k : ChunkCoord) (l : ℕ × ℕ × ℕ)
    → IsValid m
    → IsValid (clear_in m k l (find_chunk m k))
unfolding clear_in
clear_in-IsValid m k l v = elim (Option-cases (find_chunk m k)) [
  | inl e ↦ rw e v
  | inr (c, e) ↦ rw e (elim (Bool-cases (is_empty (chunk_set c l 0))) [
    | inl g ↦ rw g (record {
      unique = erase_chunk-HasUniqueKeys m k v.unique;
      live = erase_chunk-All _ m k v.live;
    })
    | inr g ↦ rw g (record {
      unique = put_chunk-HasUniqueKeys m k (chunk_set c l 0) v.unique;
      live =
          put_chunk-IsLive m k (chunk_set c l 0)
            (chunk_set-IsSized c l 0 (find_chunk-IsLive m k c v.live e).0, g) v.live;
    })
  ])
]

-- Every write to a well-formed map keeps it well formed: a chunk that a write empties does not
-- stay resident.
pub set_voxel-IsValid :
    (m : ChunkMap) (x y z : ℤ) (mat : ℕ) → IsValid m → IsValid (set_voxel m x y z mat)
unfolding set_voxel
set_voxel-IsValid m x y z mat v =
    let k = world_to_chunk x y z in
    let l = chunk_local x y z in
    elim (Bool-cases (mat == 0)) [
      | inl e ↦ rw e (clear_in-IsValid m k l v)
      | inr e ↦
          let c = get_or_create_chunk m k in
          let live =
            chunk_set-IsLive c l mat (get_or_create_chunk-IsSized m k v) (voxel_index-lt x y z)
              (ground arith) in
          rw e (record {
            unique = put_chunk-HasUniqueKeys m k (chunk_set c l mat) v.unique;
            live = put_chunk-IsLive m k (chunk_set c l mat) live v.live;
          })
    ]

pub get_voxel-absent :
    (m : ChunkMap) (x y z : ℤ) → find_chunk m (world_to_chunk x y z) ≡ none → get_voxel m x y z ≡ 0
unfolding get_voxel get_in
get_voxel-absent m x y z e = rw e refl
