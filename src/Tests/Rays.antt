-- ===== src/Tests/Rays.antt =====
-- engine/voxel/VoxelWorld.cpp, `RaycastSolid`: a ray over natural numbers through a small world.
use voxhammer.Voxel.World.{ChunkMap, set_voxel}
use voxhammer.Voxel.Raycast.{RayFloats, Cell, Vec3, March, march}
use voxhammer.Voxel.Raycast.Laws.{IsOrdered, first_solid, march-first_solid}
use voxhammer.Base.Int.{pos, pos_part}
use voxhammer.Base.{arith, refl, ◌/◌, ◌*◌, ◌-◌, ◌+◌, leb, [], ltb, ◌≡◌, ℕ}

abbrev whole : RayFloats
whole = record {
  F = ℕ;
  lt = ltb;
  le = leb;
  add = λ a b. a + b;
  sub = λ a b. a - b;
  mul = λ a b. a * b;
  div = λ a b. a / b;
  neg = λ a. a;
  fabs = λ a. a;
  sqrt = λ a. a;
  zero_f = 0;
  one = 1;
  tiny = 1;
  infinity = 1000;
  floor = pos;
  of_int = pos_part;
}

-- One voxel, three cells along the first axis.
abbrev lone_voxel : ChunkMap
lone_voxel = set_voxel [] (pos 3) (pos 0) (pos 0) 7

abbrev along : Cell
along = record { x = pos 1; y = pos 0; z = pos 0 }

abbrev deltas : Vec3 whole
deltas = record { x = 1; y = 1000; z = 1000 }

abbrev origin_march : March whole
origin_march = record {
  cell = record { x = pos 0; y = pos 0; z = pos 0 };
  t = 0;
  t_max = record { x = 1; y = 1000; z = 1000 };
}

whole-IsOrdered : IsOrdered whole
whole-IsOrdered = record {
  le_trans = λ a b c p q. ground arith;
  lt-le_trans = λ a b c p q. ground arith;
  le_total = λ a b p q r. ground arith;
  le_add = λ a d p q. ground arith;
}

march-first_solid_example :
    march whole lone_voxel 10 along deltas 5 origin_march
    ≡ first_solid whole lone_voxel 10 along deltas 5 origin_march
march-first_solid_example =
    march-first_solid whole lone_voxel 10 along deltas 5 origin_march whole-IsOrdered
      (refl, refl, refl) ((refl, refl, refl), refl, refl, refl)
