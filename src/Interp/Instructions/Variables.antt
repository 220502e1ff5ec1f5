-- ===== src/Interp/Instructions/Variables.antt =====
-- `op_drop`, `op_select`, and the instructions on local and global variables.
use deepvm.Base.{
  ℕ, ◌+◌, ◌-◌, ◌||◌, Bool, none, some, List, get_elem?, set, leb, ◌==◌, if◌then◌else◌, u32,
  undefined, ok, err,
}
use deepvm.Bytes.{memcpy}
use deepvm.Leb.{read_leb_u32}
use deepvm.Vm.State.{M, ◌>>=◌, ◌>>◌, return, Module, Global, pop32, push32, push64, pop64, read_ip}

-- An element of an array of the program; out of range is undefined.
unfoldable pub element : {A : Type 0} → List A → ℕ → M A
element xs i s = elim (get_elem? xs i) [ none ↦ err undefined | some x ↦ ok (x, s) ]

unfoldable pub exec_drop : M (Unit {0})
exec_drop = do _ ← pop32; return tt

unfoldable pub exec_select : M (Unit {0})
exec_select = do a ← pop32; b ← pop32; c ← pop32; push32 (if a == 0 then b else c)

-- Where a local variable lies, and its length: two neighbours in the table of offsets.
unfoldable pub local_slot : List ℕ → M (ℕ × ℕ)
unfolding element
local_slot offsets = do
  index ← read_ip read_leb_u32
  start ← element offsets index
  end ← element offsets (index + 1)
  return (start, end - start)

-- `memcpy (sp, local_vars + start, size)`
unfoldable pub copy_to_stack : ℕ → ℕ → M (Unit {0})
copy_to_stack start size s =
    if leb (s.sp + size) s.sp_end
    then ok (tt, record s { stack = memcpy s.stack s.sp s.local_vars start size; sp = s.sp + size })
    else err undefined

-- `memcpy (local_vars + start, sp - size, size)`, which leaves `sp` alone.
unfoldable pub copy_from_stack : ℕ → ℕ → M (Unit {0})
copy_from_stack start size s =
    if leb size s.sp
    then ok (tt, record s { local_vars = memcpy s.local_vars start s.stack (s.sp - size) size })
    else err undefined

unfoldable pub exec_local_get : List ℕ → M (Unit {0})
exec_local_get offsets = do (start, size) ← local_slot offsets; copy_to_stack start size

unfoldable pub exec_local_set : List ℕ → M (Unit {0})
exec_local_set offsets = do
  (start, size) ← local_slot offsets
  copy_from_stack start size
  λ s. ok (tt, record s { sp = s.sp - size })

unfoldable pub exec_local_tee : List ℕ → M (Unit {0})
exec_local_tee offsets = do (start, size) ← local_slot offsets; copy_from_stack start size

-- `gtype == type_i64 || gtype == type_f64`
abbrev pub is_wide : Global → Bool
is_wide g = g.type == 0x7e || g.type == 0x7c

unfoldable pub exec_global_get : Module → M (Unit {0})
exec_global_get m = do
  index ← read_ip read_leb_u32
  g ← element m.global_section index
  v ← λ s. element s.global_vars index s
  if is_wide g then push64 v else push32 (u32 v)

unfoldable pub exec_global_set : Module → M (Unit {0})
exec_global_set m = do
  index ← read_ip read_leb_u32
  g ← element m.global_section index
  v ← if is_wide g then pop64 else pop32
  _ ← λ s. element s.global_vars index s
  λ s. ok (tt, record s { global_vars = set s.global_vars index v })
