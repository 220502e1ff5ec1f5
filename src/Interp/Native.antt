-- ===== src/Interp/Native.antt =====
-- The built-in functions of src/deep_interp.c (`native_puts` … `native_isnand`, `deep_native_call`)
-- and the search for the name of an imported function. What is printed goes to the state's output.
use deepvm.Base.{
  ℕ, ◌+◌, Bool, true, false, ◌&&◌, Option, none, some, List, [], ◌∷◌, ltb, leb, ◌==◌, ◌^◌, ◌-◌,
  if◌then◌else◌, u32, ok,
}
use deepvm.Vm.State.{
  M, ◌>>=◌, ◌>>◌, return, Module, Import, DataSegment, Output, text, int32, float32, int64, float64,
  pop32, push32, pop64,
}
use deepvm.Vm.Floats.{Floats}

-- The bytes of a C string behind a pointer, up to its zero byte.
unfoldable pub c_string : List ℕ → List ℕ
c_string [] = []
c_string (c ∷ p) = if c == 0 then [] else c ∷ c_string p

unfoldable pub same_bytes : List ℕ → List ℕ → Bool
same_bytes [] [] = true
same_bytes [] (y ∷ ys) = false
same_bytes (x ∷ xs) [] = false
same_bytes (x ∷ xs) (y ∷ ys) = x == y && same_bytes xs ys

-- `!strcmp(a, b)`
unfoldable pub same_string : List ℕ → List ℕ → Bool
unfolding c_string same_bytes
same_string a b = same_bytes (c_string a) (c_string b)

pub data Builtin : Type 0 where
  puts puti putf putl putd isinff isnanf isinfd isnand : Builtin

-- `g_DeepNativeMap`, the names as their ASCII codes.
abbrev pub native_map : List (List ℕ × Builtin)
native_map =
    (b'p' ∷ b'u' ∷ b't' ∷ b's' ∷ [], puts)
    ∷ (b'p' ∷ b'u' ∷ b't' ∷ b'i' ∷ [], puti)
    ∷ (b'p' ∷ b'u' ∷ b't' ∷ b'f' ∷ [], putf)
    ∷ (b'p' ∷ b'u' ∷ b't' ∷ b'l' ∷ [], putl)
    ∷ (b'p' ∷ b'u' ∷ b't' ∷ b'd' ∷ [], putd)
    ∷ (b'i' ∷ b's' ∷ b'i' ∷ b'n' ∷ b'f' ∷ b'f' ∷ [], isinff)
    ∷ (b'i' ∷ b's' ∷ b'n' ∷ b'a' ∷ b'n' ∷ b'f' ∷ [], isnanf)
    ∷ (b'i' ∷ b's' ∷ b'i' ∷ b'n' ∷ b'f' ∷ b'd' ∷ [], isinfd)
    ∷ (b'i' ∷ b's' ∷ b'n' ∷ b'a' ∷ b'n' ∷ b'd' ∷ [], isnand)
    ∷ []

unfoldable pub find_builtin : List (List ℕ × Builtin) → List ℕ → Option Builtin
find_builtin [] name = none
find_builtin ((func_name, f) ∷ table) name =
    if same_string name func_name then some f else find_builtin table name

abbrev pub print : Output → M (Unit {0})
print o s = ok (tt, record s { output = o ∷ s.output })

-- The first segment that holds the offset. The sum is one of `uint32_t`.
unfoldable pub find_segment : List DataSegment → ℕ → Option DataSegment
find_segment [] at = none
find_segment (d ∷ ds) at =
    if leb d.offset at && ltb at (u32 (d.offset + d.datasize)) then some d else find_segment ds at

-- `native_puts` prints from the start of the segment, whatever the offset inside it.
unfoldable pub puts_segment : Option DataSegment → M (Unit {0})
unfolding c_string
puts_segment none = push32 (2 ^ 32 - 1)
puts_segment (some d) = do print (text (c_string d.bytes)); push32 0

unfoldable pub call_builtin : Floats → Module → Builtin → M (Unit {0})
unfolding find_segment puts_segment
call_builtin fl m puts = do offset ← pop32; puts_segment (find_segment m.data_section offset)
call_builtin fl m puti = do x ← pop32; print (int32 x); push32 0
call_builtin fl m putf = do x ← pop32; print (float32 x); push32 0
call_builtin fl m putl = do x ← pop64; print (int64 x); push32 0
call_builtin fl m putd = do x ← pop64; print (float64 x); push32 0
call_builtin fl m isinff = do x ← pop32; push32 (fl.single.fisinf x)
call_builtin fl m isnanf = do x ← pop32; push32 (fl.single.fisnan x)
call_builtin fl m isinfd = do x ← pop64; push32 (fl.double.fisinf x)
call_builtin fl m isnand = do x ← pop64; push32 (fl.double.fisnan x)

-- `deep_native_call`, from the new frame's `sp`. Nothing happens for a name that is not in the table.
unfoldable pub deep_native_call : Floats → Module → List ℕ → ℕ → M (Unit {0})
unfolding find_builtin same_string
deep_native_call fl m name frame_sp = elim (find_builtin native_map name) [
  | none ↦ return tt
  | some f ↦ do
    λ s. ok (tt, record s { sp = frame_sp })
    call_builtin fl m f
    λ s. ok (tt, record s { env_sp = s.sp })
]

-- The loop of `call_function` that looks for the name of the `func_index`-th imported function.
unfoldable pub import_name : List Import → ℕ → ℕ → Option (List ℕ)
import_name [] count func_index = none
import_name (i ∷ is) count func_index =
    if count == func_index
    then some i.member_name
    else import_name is (if i.tag == 0 then count + 1 else count) func_index
