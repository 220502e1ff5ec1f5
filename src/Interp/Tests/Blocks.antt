-- ===== src/Interp/Tests/Blocks.antt =====
-- Concrete blocks.
use deepvm.Base.{
  ◌≡◌, ◌+◌, refl, [], ◌∷◌, ◌++◌, length, arith, ok, err, unknown_opcode, out_of_fuel, ◌≢◌,
}
use deepvm.Opcode.Table.{opcode_of}
use deepvm.Interp.ReadBlock.{read_block, shape_at}
use deepvm.Interp.ReadBlock.Code.{Code, stop, simple, leb, if_else, encode, IsWellFormed}
use deepvm.Interp.ReadBlock.Ending.{read_block-ends}
use deepvm.Interp.ReadBlock.Structure.{read_block_finds_end, read_block_rejects_f64}

abbrev pub nop : Code
nop = simple 0x01 stop

-- i32.const 5; if i32.const 64; drop else nop end
abbrev branches : Code
branches =
    leb 0x41 (5 ∷ []) (if_else 0x04 0x40 (leb 0x41 (0xc0 ∷ 0x00 ∷ []) (simple 0x1a stop)) nop stop)

pub nop-IsWellFormed : IsWellFormed nop
unfolding shape_at opcode_of
nop-IsWellFormed = (refl, tt)

branches-IsWellFormed : IsWellFormed branches
unfolding shape_at opcode_of
branches-IsWellFormed = (
  refl,
  refl,
  (refl, (refl, ((λ clear. omega (arith, clear)), refl), (refl, tt)), (refl, tt), tt),
)

read_block_finds_end_example :
    (read_block (encode branches ++ (0x0b ∷ [])) ≡ ok (length (encode branches) + 1))
    × (read_block (encode branches ++ (0x05 ∷ [])) ≡ ok (length (encode branches) + 1))
read_block_finds_end_example = read_block_finds_end branches [] branches-IsWellFormed (tt, tt, tt)

read_block_rejects_f64_example :
    read_block (encode branches ++ ((0xa0 + 2) ∷ 0x0b ∷ [])) ≡ err unknown_opcode
read_block_rejects_f64_example =
    read_block_rejects_f64 branches 2 (0x0b ∷ []) branches-IsWellFormed (tt, tt, tt) (omega arith)

-- A block without an end.
read_block-ends_example : read_block (0x41 ∷ 5 ∷ 0x02 ∷ []) ≢ err out_of_fuel
read_block-ends_example = read_block-ends (0x41 ∷ 5 ∷ 0x02 ∷ [])
