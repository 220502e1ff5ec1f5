-- ===== src/Interp/Instructions/Memory.antt =====
-- The loads, the stores, `memory_size` and `memory_grow`. An address is the sum of a popped base
-- and an immediate offset, in 64 bits. The source checks no address: one that is not inside the
-- memory is undefined.
use deepvm.Base.{
  ℕ, ◌+◌, ◌-◌, ◌*◌, ◌^◌, Option, none, some, leb, ◌==◌, if◌then◌else◌, u8, u16, u32, sign_extend,
  undefined, ok, err,
}
use deepvm.Bytes.{Bytes, read_mem, write_mem, memcpy}
use deepvm.Leb.{read_leb_u32}
use deepvm.Opcode.Kinds.{
  Load, i32_load, i64_load, f32_load, f64_load, i32_load8_s, i32_load8_u, i32_load16_s,
  i32_load16_u, i64_load8_s, i64_load8_u, i64_load16_s, i64_load16_u, i64_load32_s, i64_load32_u,
  Store, i32_store, i64_store, f32_store, f64_store, i32_store8, i32_store16, i64_store8,
  i64_store16, i64_store32,
}
use deepvm.Vm.State.{State, M, ◌>>=◌, trap, pop32, push32, push64, pop64, read_ip}

-- `read_mem8` … `read_mem64` and `write_mem8` … `write_mem64` at an address of the memory.
unfoldable pub load_bytes : ℕ → ℕ → M ℕ
load_bytes n at s =
    if leb (at + n) s.memory_size then ok (read_mem n s.memory at, s) else err undefined

unfoldable pub store_bytes : ℕ → ℕ → ℕ → M (Unit {0})
store_bytes n at val s =
    if leb (at + n) s.memory_size
    then ok (tt, record s { memory = write_mem n s.memory val at })
    else err undefined

-- The base is popped, then the two immediates are read, the alignment in vain.
unfoldable pub load_from : ℕ → M ℕ
load_from n = do
  base ← pop32
  _ ← read_ip read_leb_u32
  offset ← read_ip read_leb_u32
  load_bytes n (base + offset)

unfoldable pub store_popped : ℕ → ℕ → M (Unit {0})
store_popped n number = do
  base ← pop32
  _ ← read_ip read_leb_u32
  offset ← read_ip read_leb_u32
  store_bytes n (base + offset) number

-- `f64_load` reads the word into a `uint32_t`, and then eight bytes from that variable.
unfoldable pub exec_load : Load → M (Unit {0})
exec_load i32_load = do x ← load_from 4; push32 x
exec_load i64_load = do x ← load_from 8; push64 x
exec_load f32_load = do x ← load_from 4; push32 x
exec_load f64_load = do _ ← load_from 8; trap undefined
exec_load i32_load8_s = do x ← load_from 1; push32 (sign_extend 8 32 x)
exec_load i32_load8_u = do x ← load_from 1; push32 x
exec_load i32_load16_s = do x ← load_from 2; push32 (sign_extend 16 32 x)
exec_load i32_load16_u = do x ← load_from 2; push32 x
exec_load i64_load8_s = do x ← load_from 1; push64 (sign_extend 8 64 x)
exec_load i64_load8_u = do x ← load_from 1; push64 x
exec_load i64_load16_s = do x ← load_from 2; push64 (sign_extend 16 64 x)
exec_load i64_load16_u = do x ← load_from 2; push64 x
exec_load i64_load32_s = do x ← load_from 4; push64 (sign_extend 32 64 x)
exec_load i64_load32_u = do x ← load_from 4; push64 x

unfoldable pub exec_store : Store → M (Unit {0})
exec_store i32_store = do x ← pop32; store_popped 4 x
exec_store i64_store = do x ← pop64; store_popped 8 x
exec_store f32_store = do x ← pop32; store_popped 4 x
exec_store f64_store = do x ← pop64; store_popped 8 x
exec_store i32_store8 = do x ← pop32; store_popped 1 (u8 x)
exec_store i32_store16 = do x ← pop32; store_popped 2 (u16 x)
exec_store i64_store8 = do x ← pop64; store_popped 1 (u8 x)
exec_store i64_store16 = do x ← pop64; store_popped 2 (u16 x)
exec_store i64_store32 = do x ← pop64; store_popped 4 (u32 x)

unfoldable pub exec_memory_size : M (Unit {0})
exec_memory_size = do _ ← read_ip read_leb_u32; λ s. push32 s.memory_pages s

-- `deep_realloc` of src/deep_mem.c returns `NULL` whatever it is asked for.
unfoldable pub deep_realloc : Bytes → ℕ → Option Bytes
deep_realloc ptr size = none

abbrev minus_one : ℕ
minus_one = 2 ^ 32 - 1

page_size : ℕ
page_size = 65536

-- The branch where the pages may have grown: the new ones are cleared.
unfoldable pub grow_to : ℕ → ℕ → State → Option Bytes → M (Unit {0})
unfolding page_size
grow_to old_pages new_pages s none _ = push32 minus_one s
grow_to old_pages new_pages s (some new_mem) _ = push32 old_pages (record s {
  memory =
      memcpy new_mem (u32 (old_pages * page_size)) (λ _. 0) 0
        (u32 ((new_pages - old_pages) * page_size));
  memory_size = u32 (new_pages * page_size);
  memory_pages = new_pages;
})

unfoldable pub exec_memory_grow : M (Unit {0})
unfolding grow_to deep_realloc page_size
exec_memory_grow = do
  _ ← read_ip read_leb_u32
  delta ← pop32
  λ s.
      let old_pages = s.memory_pages in
      let new_pages = u32 (old_pages + delta) in
      if delta == 0
      then push32 old_pages s
      else if leb new_pages old_pages
      then push32 minus_one s
      else grow_to old_pages new_pages s (deep_realloc s.memory (u32 (new_pages * page_size))) s
