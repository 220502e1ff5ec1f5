-- ===== src/Vm/State.antt =====
-- `DEEPExecEnv`, `DEEPFunction` and `DEEPModule` (include/deep_interp.h, include/deep_loader.h),
-- and the macros of src/deep_interp.c that move the operand stack.
use deepvm.Base.{
  ℕ, zero, suc, ◌+◌, ◌-◌, ◌*◌, Bool, Option, List, [], ◌∷◌, leb, if◌then◌else◌, Trap, undefined,
  Result, ok, err,
}
use deepvm.Bytes.{Bytes, read_mem, write_mem}
use deepvm.Leb.{Ptr}
use deepvm.Vm.Int.{ℤ}

-- `DEEPType`: the types of the parameters and of the results, as their bytes.
pub record FuncType : Type 0 where
  pub params : List ℕ
  pub results : List ℕ

-- `DEEPFunction`. The list of offsets has one entry more than there are local variables.
pub record Func : Type 0 where
  pub func_type : FuncType
  pub code_size : ℕ
  pub code_begin : Ptr
  pub local_var_offsets : List ℕ
  pub is_import : Bool

-- `DEEPExport`, `DEEPImport`, `DEEPData` and `DEEPGlobal`. A name is the bytes behind its pointer.
pub record Export : Type 0 where
  pub name : List ℕ
  pub index : ℕ
  pub tag : ℕ

pub record Import : Type 0 where
  pub module_name : List ℕ
  pub member_name : List ℕ
  pub index : ℕ
  pub tag : ℕ

pub record DataSegment : Type 0 where
  pub offset : ℕ
  pub datasize : ℕ
  pub bytes : Ptr

pub record Global : Type 0 where
  pub type : ℕ
  pub is_mutable : Bool
  pub init_value : ℕ

-- `DEEPMemory`, `DEEPTable` and `DEEPElem`. Without a maximum, `max` is 0.
pub record MemoryType : Type 0 where
  pub min_pages : ℕ
  pub max_pages : ℕ
  pub has_max : Bool

pub record TableType : Type 0 where
  pub element_type : ℕ
  pub min : ℕ
  pub max : ℕ
  pub has_max : Bool

pub record Elem : Type 0 where
  pub table_index : ℕ
  pub offset : ℕ
  pub func_indices : List ℕ

-- `DEEPModule`. A section is the list of its entries, so its count is the length. An entry of
-- `type_section` that the loader leaves NULL is `none`; the entries of `func_section` that it
-- leaves NULL come last and are left off the list. `table` is `none` also where `table_count` is 0.
pub record Module : Type 0 where
  pub type_section : List (Option FuncType)
  pub func_section : List Func
  pub import_function_count : ℕ
  pub import_table_count : ℕ
  pub import_memory_count : ℕ
  pub import_global_count : ℕ
  pub export_section : List Export
  pub import_section : List Import
  pub data_section : List DataSegment
  pub global_section : List Global
  pub memory : Option MemoryType
  pub table : Option TableType
  pub elem_section : List Elem
  pub start_index : ℕ
  pub has_start : Bool

-- What the built-in functions print.
pub data Output : Type 0 where
  text : List ℕ → Output
  int32 float32 int64 float64 : ℕ → Output

-- `DEEPExecEnv`, with the variables `sp` and `ip` of the running `exec_instructions`; the
-- environment's own `sp`, which is only brought up to date at calls, is `env_sp`. Stack pointers
-- are offsets from the stack's start. `local_vars` is the array of the running function, and
-- `current_frame_index` the number of frames below the running one. Output is newest first.
pub record State : Type 0 where
  pub ip : Ptr
  pub sp : ℕ
  pub env_sp : ℕ
  pub stack : Bytes
  pub sp_end : ℕ
  pub local_vars : Bytes
  pub local_size : ℕ
  pub global_vars : List ℕ
  pub memory : Bytes
  pub memory_size : ℕ
  pub memory_pages : ℕ
  pub table : Option (List ℕ)
  pub current_frame_index : ℕ
  pub jump_depth : ℤ
  pub output : List Output

-- A computation on the state that can trap.
abbrev pub M : Type 0 → Type 0
M A = State → Result (A × State)

abbrev pub return : {A : Type 0} → A → M A
return a s = ok (a, s)

abbrev pub trap : {A : Type 0} → Trap → M A
trap e s = err e

infixl 5 ◌>>=◌ ◌>>◌
abbrev pub ◌>>=◌ : {A B : Type 0} → M A → (A → M B) → M B
◌>>=◌ m f s = elim (m s) [ err e ↦ err e | ok (a, s') ↦ f a s' ]

abbrev pub ◌>>◌ : {B : Type 0} → M (Unit {0}) → M B → M B
m >> k = m >>= λ _. k

-- `sp -= n, *(T *)sp` for a type of `n` bytes. Below the stack's start it is undefined.
unfoldable pub pop : ℕ → M ℕ
pop n s =
    if leb n s.sp
    then ok (read_mem n s.stack (s.sp - n), record s { sp = s.sp - n })
    else err undefined

-- `memcpy (sp, &x, n); sp += n`. Past the stack's end it is undefined: the source checks for the
-- overflow only after the write.
unfoldable pub push : ℕ → ℕ → M (Unit {0})
push n x s =
    if leb (s.sp + n) s.sp_end
    then ok (tt, record s { stack = write_mem n s.stack x s.sp; sp = s.sp + n })
    else err undefined

abbrev pub pop32 : M ℕ
pop32 = pop 4

abbrev pub push32 : ℕ → M (Unit {0})
push32 = push 4

abbrev pub pop64 : M ℕ
pop64 = pop 8

abbrev pub push64 : ℕ → M (Unit {0})
push64 = push 8

-- A read at `ip` that moves it on.
abbrev pub read_ip : {A : Type 0} → (Ptr → Result (A × Ptr)) → M A
read_ip read s = elim (read s.ip) [ err e ↦ err e | ok (a, p) ↦ ok (a, record s { ip = p }) ]

-- `READ_BYTE`
unfoldable pub read_byte : Ptr → Result (ℕ × Ptr)
read_byte [] = err undefined
read_byte (b ∷ p) = ok (b, p)

-- `READ_VALUE` of a type of `n` bytes, and the `memcpy` of an IEEE constant.
unfoldable pub read_value : ℕ → Ptr → Result (ℕ × Ptr)
read_value zero p = ok (0, p)
read_value (suc n) [] = err undefined
read_value (suc n) (b ∷ p) = elim (read_value n p) [
  | err e ↦ err e
  | ok (v, q) ↦ ok (b + 256 * v, q)
]
