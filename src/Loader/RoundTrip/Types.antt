-- ===== src/Loader/RoundTrip/Types.antt =====
-- The type section, and types.
use deepvm.Base.{◌^◌, ◌<◌, ◌≡◌, ◌∙◌, some, List, ◌++◌, map, append_assoc, ok, length, All}
use deepvm.Leb.{Ptr}
use deepvm.Leb.Write.{bb_put_leb_u32}
use deepvm.Vm.State.{FuncType, Module, read_byte}
use deepvm.Loader.Sections.{decode_type, decode_type_section}
use deepvm.Loader.Reads.{then_leb, then_skip, then_each, read_vector-put_vector}
use deepvm.Wat.Sections.{put_type, put_vector}

-- The counts of a type fit in 32 bits.
pub record IsSmallType (t : FuncType) : Type 0 where
  pub few_params : length t.params < 2 ^ 32
  pub few_results : length t.results < 2 ^ 32

pub decode_type-put_type :
    (t : FuncType) (rest : Ptr)
    → IsSmallType t
    → decode_type (put_type t ++ rest) ≡ ok (some t, rest)
unfolding decode_type put_type read_byte
decode_type-put_type t rest small =
    let after : Ptr = t.params ++ (bb_put_leb_u32 (length t.results) ++ (t.results ++ rest)) in
    rw
      (
        append_assoc (bb_put_leb_u32 (length t.params))
            (t.params ++ (bb_put_leb_u32 (length t.results) ++ t.results)) rest,
        append_assoc t.params (bb_put_leb_u32 (length t.results) ++ t.results) rest,
        append_assoc (bb_put_leb_u32 (length t.results)) t.results rest,
      )
      (then_leb (length t.params) after _ small.few_params
        ∙ then_skip t.params _ _
        ∙ then_leb (length t.results) _ _ small.few_results
        ∙ then_each t.params _ _
        ∙ then_leb (length t.results) _ _ small.few_results
        ∙ then_each t.results rest _)

-- The types that the assembler wrote are read back.
pub decode_type_section-put_vector :
    (types : List FuncType) (rest : Ptr) (m : Module)
    → length types < 2 ^ 32
    → All IsSmallType types
    → decode_type_section (put_vector put_type types ++ rest) m
      ≡ ok (record m { type_section = map some types })
unfolding decode_type_section
decode_type_section-put_vector types rest m few small = rw (
  read_vector-put_vector decode_type put_type some IsSmallType decode_type-put_type types rest few
      small,
  decode_type_section,
)
