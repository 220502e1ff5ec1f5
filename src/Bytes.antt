-- ===== src/Bytes.antt =====
-- Byte-addressed memory: the operand stack, the local variables and the linear memory. Models the
-- accesses of src/deep_loader.c (`read_mem8` … `write_mem64`) and the `memcpy` of
-- src/deep_interp.c. Words are little-endian, as on the machines the source supports.
pub mod Access
use deepvm.Base.{ℕ, zero, suc, ◌+◌, ◌-◌, ◌*◌, ◌/◌, ◌%◌, ◌^◌, ◌&&◌, ltb, leb, if◌then◌else◌}

-- The byte at each address. How many addresses there are stands beside it.
abbrev pub Bytes : Type 0
Bytes = ℕ → ℕ

abbrev pub zeroed : Bytes
zeroed i = 0

-- The word of `n` bytes at `off`: `read_memory` into a word.
unfoldable pub read_mem : ℕ → Bytes → ℕ → ℕ
read_mem zero mem off = 0
read_mem (suc n) mem off = mem off % 256 + 256 * read_mem n mem (off + 1)

-- The bytes of the word `val` stored at `off`: `write_memory` from a word.
unfoldable pub write_mem : ℕ → Bytes → ℕ → ℕ → Bytes
write_mem n mem val off i =
    if leb off i && ltb i (off + n) then val / 2 ^ (8 * (i - off)) % 256 else mem i

-- `memcpy (dst + d, src + s, n)`
unfoldable pub memcpy : Bytes → ℕ → Bytes → ℕ → ℕ → Bytes
memcpy dst d src s n i = if leb d i && ltb i (d + n) then src (s + (i - d)) else dst i
