-- ===== src/Leb.antt =====
-- The LEB128 readers of src/deep_loader.c (`read_leb_u32`, `read_leb_i32` and `read_leb_i64`;
-- nothing calls `read_leb_u64`). A pointer into the module is the list of the bytes from it to the
-- end of the buffer, so `*p += n` drops n bytes, and reading past the end is undefined.
pub mod Write
pub mod Unsigned
pub mod Rounds
pub mod Positive
pub mod Negative
pub mod Signed
pub mod Mixed
mod Tests
use deepvm.Base.{
  ℕ, zero, suc, ◌+◌, ◌-◌, ◌*◌, ◌%◌, ◌^◌, bit_and, bit_or, Bool, true, false, ◌&&◌, not, List, [],
  ◌∷◌, Result, ok, err, undefined, ltb, ◌==◌, if◌then◌else◌, u32,
}

-- A pointer into the bytes of the module.
abbrev pub Ptr : Type 0
Ptr = List ℕ

-- The loop of the unsigned readers, with `rounds` bytes left to try, at the bit `shift` of a result
-- of `width` bits. It gives 0 and leaves the pointer at `start` when no byte of its rounds is the
-- last one. In the source the groups are shifted as `int`, which C leaves undefined where the fifth
-- one is shifted out of 31 bits; here it is cut to the result's width.
unfoldable pub leb_u_loop : ℕ → ℕ → ℕ → ℕ → Ptr → Ptr → Result (ℕ × Ptr)
leb_u_loop width zero shift res start buf = ok (0, start)
leb_u_loop width (suc rounds) shift res start [] = err undefined
leb_u_loop width (suc rounds) shift res start (byte ∷ buf) =
    let res' = bit_or res (bit_and byte 0x7f * 2 ^ shift % 2 ^ width) in
    let rest = leb_u_loop width rounds (shift + 7) res' start buf in
    if bit_and byte 0x80 == 0 then ok (res', buf) else rest

unfoldable pub read_leb_u32 : Ptr → Result (ℕ × Ptr)
read_leb_u32 p = leb_u_loop 32 5 0 0 p p

-- The loop of the signed readers: `res |= ~0 << shift` after a last byte whose sign bit is set.
unfoldable pub leb_s_loop : ℕ → ℕ → ℕ → ℕ → Ptr → Ptr → Result (ℕ × Ptr)
leb_s_loop width zero shift res start buf = ok (0, start)
leb_s_loop width (suc rounds) shift res start [] = err undefined
leb_s_loop width (suc rounds) shift res start (byte ∷ buf) =
    let res' = bit_or res (bit_and byte 0x7f * 2 ^ shift % 2 ^ width) in
    let rest = leb_s_loop width rounds (shift + 7) res' start buf in
    if bit_and byte 0x80 == 0
    then if ltb (shift + 7) width && not (bit_and byte 0x40 == 0)
      then ok (bit_or res' (2 ^ width - 2 ^ (shift + 7)), buf)
      else ok (res', buf)
    else rest

unfoldable pub read_leb_i32 : Ptr → Result (ℕ × Ptr)
read_leb_i32 p = leb_s_loop 32 5 0 0 p p

unfoldable pub read_leb_i64 : Ptr → Result (ℕ × Ptr)
read_leb_i64 p = leb_s_loop 64 10 0 0 p p
