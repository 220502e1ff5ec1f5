-- ===== src/Interp/ReadBlock/Code.antt =====
-- Code whose blocks are well nested, instruction by instruction, and its bytes as `read_block`
-- reads them: each immediate is any LEB128 number of at most five bytes, signed or not, also behind
-- `f32_const`, `f64_const` and `i64_const`. The raw bytes of a `float` or `double`, a longer number
-- of `i64_const`, and the opcodes that `read_block` does not list (`f64_add` … `f64_copysign`) have
-- no place in it. The number of targets of a `br_table` is written as the assembler writes it, and
-- each target is a byte.
use deepvm.Base.{ℕ, zero, suc, ◌-◌, ◌^◌, ◌<◌, ◌≡◌, ◌≢◌, bit_and, List, [], ◌∷◌, ◌++◌, length}
use deepvm.Leb.Write.{bb_put_leb_u32}
use deepvm.Interp.ReadBlock.{nested, plain, one_leb, two_lebs, table, indirect, shape_at}

-- The rest of the code stands last in each constructor. A block and the two branches of an `if`
-- hold code of their own.
pub data Code : Type 0 where
  stop : Code
  simple : ℕ → Code → Code
  leb : ℕ → List ℕ → Code → Code
  leb2 : ℕ → List ℕ → List ℕ → Code → Code
  call_through : ℕ → List ℕ → Code → Code
  branch_table : ℕ → List ℕ → Code → Code
  block : ℕ → ℕ → Code → Code → Code
  if_else : ℕ → ℕ → Code → Code → Code → Code

-- The bytes of a LEB128 number, `n` at most: the last one, and only that one, has its upper bit
-- clear.
abbrev pub IsLeb : ℕ → List ℕ → Type 0
IsLeb zero bytes = ⊥
IsLeb (suc n) [] = ⊥
IsLeb (suc n) (b ∷ []) = bit_and b 0x80 ≡ 0
IsLeb (suc n) (b ∷ b' ∷ bytes) = (bit_and b 0x80 ≢ 0) × IsLeb n (b' ∷ bytes)

unfoldable pub encode : Code → List ℕ
encode stop = []
encode (simple b c) = b ∷ encode c
encode (leb b v c) = b ∷ (v ++ encode c)
encode (leb2 b v w c) = b ∷ (v ++ (w ++ encode c))
encode (call_through b v c) = b ∷ (v ++ (0 ∷ encode c))
encode (branch_table b targets c) =
    b ∷ (bb_put_leb_u32 (length targets - 1) ++ (targets ++ encode c))
encode (block b t body c) = b ∷ t ∷ (encode body ++ (0x0b ∷ encode c))
encode (if_else b t c1 c2 c) = b ∷ t ∷ (encode c1 ++ (0x05 ∷ (encode c2 ++ (0x0b ∷ encode c))))

-- `read_block` lists every opcode, with the shape of the constructor that it stands in, and
-- immediates fit 32 bits.
abbrev pub IsWellFormed : Code → Type 0
IsWellFormed stop = Unit
IsWellFormed (simple b c) = (shape_at b ≡ plain) × IsWellFormed c
IsWellFormed (leb b v c) = (shape_at b ≡ one_leb) × IsLeb 5 v × IsWellFormed c
IsWellFormed (leb2 b v w c) = (shape_at b ≡ two_lebs) × IsLeb 5 v × IsLeb 5 w × IsWellFormed c
IsWellFormed (call_through b v c) = (shape_at b ≡ indirect) × IsLeb 5 v × IsWellFormed c
IsWellFormed (branch_table b targets c) =
    (shape_at b ≡ table) × (0 < length targets) × (length targets < 2 ^ 32) × IsWellFormed c
IsWellFormed (block b t body c) = (shape_at b ≡ nested) × IsWellFormed body × IsWellFormed c
IsWellFormed (if_else b t c1 c2 c) =
    (shape_at b ≡ nested) × IsWellFormed c1 × IsWellFormed c2 × IsWellFormed c

-- How deep the blocks are nested, at most `k`: the brackets are counted in a `uint8_t`.
abbrev pub IsNestedIn : ℕ → Code → Type 0
IsNestedIn k stop = Unit
IsNestedIn k (simple b c) = IsNestedIn k c
IsNestedIn k (leb b v c) = IsNestedIn k c
IsNestedIn k (leb2 b v w c) = IsNestedIn k c
IsNestedIn k (call_through b v c) = IsNestedIn k c
IsNestedIn k (branch_table b targets c) = IsNestedIn k c
IsNestedIn zero (block b t body c) = ⊥
IsNestedIn (suc k) (block b t body c) = IsNestedIn k body × IsNestedIn (suc k) c
IsNestedIn zero (if_else b t c1 c2 c) = ⊥
IsNestedIn (suc k) (if_else b t c1 c2 c) = IsNestedIn k c1 × IsNestedIn k c2 × IsNestedIn (suc k) c
