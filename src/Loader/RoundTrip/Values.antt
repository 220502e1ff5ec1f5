-- ===== src/Loader/RoundTrip/Values.antt =====
-- The table, memory, global and start sections.
use deepvm.Base.{
  ℕ, ◌^◌, ◌<◌, ◌≡◌, refl, sym, ap, ◌∙◌, Bool, true, false, some, List, [], ◌∷◌, ◌++◌, map,
  append_assoc, ok, length, All, arith, ◌==◌,
}
use deepvm.Leb.{Ptr, read_leb_u32, read_leb_i32, read_leb_i64}
use deepvm.Leb.Write.{bb_put_leb_u32, bb_put_leb_s32, bb_put_leb_s64}
use deepvm.Leb.Unsigned.{read_leb_u32-bb_put_leb_u32}
use deepvm.Leb.Signed.{read_leb_i32-bb_put_leb_s32, read_leb_i64-bb_put_leb_s64}
use deepvm.Vm.State.{Module, Global, TableType, MemoryType, read_byte, read_value}
use deepvm.Loader.Reader.{Reader, return, ◌>>=◌, ◌>>◌}
use deepvm.Loader.Sections.{
  read_max, decode_table, decode_table_section, decode_memory, decode_memory_section, init_expr,
  decode_global, decode_global_section, decode_start_section,
}
use deepvm.Loader.Reads.{>>=-ok, then_leb, read_vector-put_vector, read_value-bb_put_le}
use deepvm.Wat.Sections.{
  put_limits, put_table, put_memory, Init, i32_init, i64_init, f32_init, f64_init, get_init,
  GlobalForm, put_init, put_global, put_mutable, put_vector, bb_put_le,
}

-- A minimum and a maximum of 32 bits; without a maximum it is 0.
pub record IsLimits (has_max : Bool) (min max : ℕ) : Type 0 where
  pub small_min : min < 2 ^ 32
  pub small_max : max < 2 ^ 32
  pub no_max : has_max ≡ false → max ≡ 0

then_limits :
    {B : Type 0} (has_max : Bool) (min max : ℕ) (rest : Ptr) (k : Bool → ℕ → ℕ → Reader B)
    → IsLimits has_max min max
    → (read_byte >>= λ flags. read_leb_u32 >>= λ min. read_max flags >>= λ max. k max.0 min max.1)
        (put_limits has_max min max ++ rest)
      ≡ k has_max min max rest
unfolding put_limits read_byte read_max
then_limits true min max rest k limits =
    rw (append_assoc (bb_put_leb_u32 min) (bb_put_leb_u32 max) rest) (
      then_leb min (bb_put_leb_u32 max ++ rest) _ limits.small_min
      ∙ >>=-ok {A = Bool × ℕ} (read_max 1) (λ m. k m.0 min m.1) (bb_put_leb_u32 max ++ rest)
          (then_leb max rest (λ m. return (true, m)) limits.small_max))
then_limits false min max rest k limits =
    then_leb min rest _ limits.small_min
    ∙ ap (λ (i : ℕ). k false min i rest) (sym (limits.no_max refl))

table_of :
    (t : TableType) (rest : Ptr)
    → t.element_type ≡ 0x70
    → IsLimits t.has_max t.min t.max
    → decode_table (0x70 ∷ put_limits t.has_max t.min t.max ++ rest) ≡ ok (t, rest)
unfolding decode_table read_byte
table_of t rest is limits =
    then_limits t.has_max t.min t.max rest
      (λ has_max min max.
        return (record { element_type = 0x70; min = min; max = max; has_max = has_max }))
      limits
    ∙ ap
        (λ (i : ℕ).
          ok (record { element_type = i; min = t.min; max = t.max; has_max = t.has_max }, rest))
        (sym is)

-- A table that the assembler wrote is read back.
pub decode_table_section-put_table :
    (t : TableType) (rest : Ptr) (m : Module)
    → t.element_type ≡ 0x70
    → IsLimits t.has_max t.min t.max
    → decode_table_section (put_table t ++ rest) m ≡ ok (record m { table = some t })
unfolding put_table decode_table_section
decode_table_section-put_table t rest m is limits =
    let after : Ptr = 0x70 ∷ put_limits t.has_max t.min t.max in
    rw (
      append_assoc (bb_put_leb_u32 1) after rest,
      read_leb_u32-bb_put_leb_u32 1 (after ++ rest) (omega arith),
      decode_table_section,
      table_of t rest is limits,
    )

memory_of :
    (t : MemoryType) (rest : Ptr)
    → IsLimits t.has_max t.min_pages t.max_pages
    → decode_memory (put_limits t.has_max t.min_pages t.max_pages ++ rest) ≡ ok (t, rest)
unfolding decode_memory
memory_of t rest limits =
    then_limits t.has_max t.min_pages t.max_pages rest
      (λ has_max min max. return (record { min_pages = min; max_pages = max; has_max = has_max }))
      limits

-- A memory that the assembler wrote is read back.
pub decode_memory_section-put_memory :
    (t : MemoryType) (rest : Ptr) (m : Module)
    → IsLimits t.has_max t.min_pages t.max_pages
    → decode_memory_section (put_memory t ++ rest) m ≡ ok (record m { memory = some t })
unfolding put_memory decode_memory_section
decode_memory_section-put_memory t rest m limits =
    let after : Ptr = put_limits t.has_max t.min_pages t.max_pages in
    rw (
      append_assoc (bb_put_leb_u32 1) after rest,
      read_leb_u32-bb_put_leb_u32 1 (after ++ rest) (omega arith),
      decode_memory_section,
      memory_of t rest limits,
    )

-- The start function that the assembler wrote is read back.
pub decode_start_section-bb_put_leb_u32 :
    (index : ℕ) (rest : Ptr) (m : Module)
    → index < 2 ^ 32
    → decode_start_section (bb_put_leb_u32 index ++ rest) m
      ≡ ok (record m { start_index = index; has_start = true })
unfolding decode_start_section
decode_start_section-bb_put_leb_u32 index rest m small =
    rw (read_leb_u32-bb_put_leb_u32 index rest small, decode_start_section)

-- The value that the loader gives a global: another global's is not known to it.
unfoldable pub init_value : Init → ℕ
init_value (i32_init v) = v
init_value (i64_init v) = v
init_value (f32_init v) = v
init_value (f64_init v) = v
init_value (get_init index) = 0

-- A constant fits its type.
unfoldable pub IsSmallInit : Init → Type 0
IsSmallInit (i32_init v) = v < 2 ^ 32
IsSmallInit (i64_init v) = v < 2 ^ 64
IsSmallInit (f32_init v) = v < 2 ^ 32
IsSmallInit (f64_init v) = v < 2 ^ 64
IsSmallInit (get_init index) = index < 2 ^ 32

unfoldable pub as_global : GlobalForm → Global
as_global g = record { type = g.type; is_mutable = g.is_mutable; init_value = init_value g.init }

then_init :
    {B : Type 0} (init : Init) (rest : Ptr) (k : ℕ → Reader B)
    → IsSmallInit init
    → (read_byte >>= λ op. init_expr op >>= k) (put_init init ++ rest) ≡ k (init_value init) rest
unfolding put_init init_value IsSmallInit init_expr read_byte
then_init (i32_init v) rest k small =
    >>=-ok read_leb_i32 k (bb_put_leb_s32 v ++ rest) (read_leb_i32-bb_put_leb_s32 v rest small)
then_init (i64_init v) rest k small =
    >>=-ok read_leb_i64 k (bb_put_leb_s64 v ++ rest) (read_leb_i64-bb_put_leb_s64 v rest small)
then_init (f32_init v) rest k small =
    >>=-ok (read_value 4) k (bb_put_le 4 v ++ rest) (read_value-bb_put_le 4 v rest small)
then_init (f64_init v) rest k small =
    >>=-ok (read_value 8) k (bb_put_le 8 v ++ rest) (read_value-bb_put_le 8 v rest small)
then_init (get_init index) rest k small =
    >>=-ok (read_leb_u32 >> return 0) k (bb_put_leb_u32 index ++ rest)
      (then_leb index rest (λ _. return 0) small)

is_mutable_byte : (b : Bool) → (put_mutable b == 1) ≡ b
unfolding put_mutable
is_mutable_byte true = refl
is_mutable_byte false = refl

decode_global-put_global :
    (g : GlobalForm) (rest : Ptr)
    → IsSmallInit g.init
    → decode_global (put_global g ++ rest) ≡ ok (as_global g, rest)
unfolding decode_global put_global read_byte as_global
decode_global-put_global g rest small =
    rw (append_assoc (put_init g.init) (0x0b ∷ []) rest, is_mutable_byte g.is_mutable)
      (then_init g.init (0x0b ∷ rest) _ small)

-- The globals that the assembler wrote are read back, with 0 for the value of another global.
pub decode_global_section-put_vector :
    (globals : List GlobalForm) (rest : Ptr) (m : Module)
    → length globals < 2 ^ 32
    → All (λ g. IsSmallInit g.init) globals
    → decode_global_section (put_vector put_global globals ++ rest) m
      ≡ ok (record m { global_section = map as_global globals })
unfolding decode_global_section
decode_global_section-put_vector globals rest m few small = rw (
  read_vector-put_vector decode_global put_global as_global (λ g. IsSmallInit g.init)
      decode_global-put_global globals rest few small,
  decode_global_section,
)
