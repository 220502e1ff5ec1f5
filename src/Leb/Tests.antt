-- ===== src/Leb/Tests.antt =====
-- Concrete LEB128 bytes.
use deepvm.Base.{◌≡◌, [], ◌∷◌, ◌++◌, ok, arith}
use deepvm.Leb.{read_leb_u32, read_leb_i32, read_leb_i64}
use deepvm.Leb.Write.{bb_put_leb_u32, bb_put_leb_s32, bb_put_leb_s64}
use deepvm.Leb.Signed.{read_leb_i32-bb_put_leb_s32, read_leb_i64-bb_put_leb_s64}
use deepvm.Leb.Unsigned.{read_leb_u32-bb_put_leb_u32}

read_leb_u32-bb_put_leb_u32_example :
    read_leb_u32 (bb_put_leb_u32 624485 ++ (7 ∷ [])) ≡ ok (624485, 7 ∷ [])
read_leb_u32-bb_put_leb_u32_example = read_leb_u32-bb_put_leb_u32 624485 (7 ∷ []) (omega arith)

-- -624485 in 32 bits, and -1 in 64
read_leb_i32-bb_put_leb_s32_example :
    read_leb_i32 (bb_put_leb_s32 4294342811 ++ (7 ∷ [])) ≡ ok (4294342811, 7 ∷ [])
read_leb_i32-bb_put_leb_s32_example = read_leb_i32-bb_put_leb_s32 4294342811 (7 ∷ []) (omega arith)

read_leb_i64-bb_put_leb_s64_example :
    read_leb_i64 (bb_put_leb_s64 18446744073709551615 ++ (7 ∷ []))
    ≡ ok (18446744073709551615, 7 ∷ [])
read_leb_i64-bb_put_leb_s64_example =
    read_leb_i64-bb_put_leb_s64 18446744073709551615 (7 ∷ []) (omega arith)
