-- ===== src/Import/Material.antt =====
-- engine/voxel/VoxImport.cpp: the MATL chunk and the emission bytes. Floats are a parameter.
use voxhammer.Base.Loops.{loop}
use voxhammer.Import.Reader.{u8, can_read, u32, Reader}
use voxhammer.Base.{
  ◌*◌, ◌∷◌, get_or, ◌+◌, set, true, zero, ◌&&◌, ◌^◌, [], false, ltb, text_eq, ◌%◌, ◌||◌, suc, Bool,
  if◌then◌else◌, ℕ, List, Text, codes,
}

-- What the importer uses of `float` and `double`.
pub record Floats : Type 1 where
  pub F : Type 0
  -- A numeral of the code, in tenths.
  pub tenths : ℕ → F
  pub lt : F → F → Bool
  pub add : F → F → F
  pub sub : F → F → F
  pub mul : F → F → F
  pub div : F → F → F
  -- `std::pow(2.0f, x)`
  pub pow2 : F → F
  -- `static_cast<float>(std::atof(s.c_str()))`
  pub atof : Text → F
  -- `static_cast<std::uint32_t>`
  pub to_u32 : F → ℕ

-- The loop of `readStr`.
unfoldable pub read_chars : ℕ → Reader → Reader × Text
read_chars zero r = (r, [])
read_chars (suc n) r = elim (can_read 1 r) [
  | false ↦ (r, [])
  | true ↦ let (r', c) = u8 r in let (r'', s) = read_chars n r' in (r'', c ∷ s)
]

-- The lambda `readStr`.
unfoldable pub read_str : Reader → Reader × Text
unfolding read_chars
read_str r = let (r', len) = u32 r in read_chars len r'

module _ (fl : Floats) where
  open fl use {F, tenths, lt, add, sub, mul, div, pow2, atof, to_u32}

  pub record Matl : Type 0 where
    pub is_emit : Bool
    pub emit_val : F
    pub flux_val : F

  -- One pair of the dictionary.
  pub set_pair : Text → Text → Matl → Matl
  set_pair key val m =
      if text_eq key (codes "_type")
      then (if text_eq val (codes "_emit") then record m { is_emit = true } else m)
      else if text_eq key (codes "_emit")
      then record m { emit_val = atof val }
      else if text_eq key (codes "_flux")
      then record m { flux_val = atof val }
      else m

  unfoldable pub read_pairs : ℕ → ℕ → Reader → Matl → Reader × Matl
  unfolding set_pair
  read_pairs zero self_end r m = (r, m)
  read_pairs (suc n) self_end r m = elim (ltb r.pos self_end) [
    | false ↦ (r, m)
    | true ↦
        let (r', key) = read_str r in
        let (r'', val) = read_str r' in read_pairs n self_end r'' (set_pair key val m)
  ]

  -- `fluxVal < 1.0f ? 1.0f : (fluxVal > 4.0f ? 4.0f : fluxVal)`
  pub clamp_flux : F → F
  clamp_flux x = if lt x (tenths 10) then tenths 10 else if lt (tenths 40) x then tenths 40 else x

  pub emission : Matl → F
  unfolding clamp_flux
  emission m = mul m.emit_val (pow2 (sub (clamp_flux m.flux_val) (tenths 10)))

  unfoldable pub write_emission : ℕ → Matl → List F → List F
  unfolding emission
  write_emission mat_id m emit =
      if (m.is_emit || lt (tenths 0) m.emit_val) && ltb mat_id 256
      then set emit mat_id (emission m)
      else emit

  -- The MATL branch.
  unfoldable pub read_matl : ℕ → Reader → List F → Reader × List F
  unfolding read_pairs write_emission
  read_matl self_end r emit =
      let (r', mat_id) = u32 r in
      let (r'', n_pairs) = u32 r' in
      let start : Matl = record { is_emit = false; emit_val = tenths 0; flux_val = tenths 10 } in
      let (r''', m) = read_pairs n_pairs self_end r'' start in (r''', write_emission mat_id m emit)

  -- `e01`, then the byte; the shift of a 32-bit word drops what is above it.
  pub alpha : F → ℕ
  alpha e =
      let e01 = div e (tenths 80) in
      let capped = if lt (tenths 10) e01 then tenths 10 else e01 in
      to_u32 (add (mul capped (tenths 2550)) (tenths 5)) % 256

  -- `(out.palette[i] & 0x00FFFFFFu) | (a << 24)`
  unfoldable pub with_alpha : ℕ → F → ℕ
  unfolding alpha
  with_alpha rgba e = rgba % 2 ^ 24 + alpha e * 2 ^ 24

  -- The loop over the palette.
  unfoldable pub pack_alpha : List F → List ℕ → List ℕ
  unfolding with_alpha
  pack_alpha emit palette =
      loop 256 (λ i p. set p i (with_alpha (get_or p i 0) (get_or emit i (tenths 0)))) palette
