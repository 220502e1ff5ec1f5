-- ===== src/Loader/RoundTrip/Segments.antt =====
-- The elem and data sections.
use deepvm.Base.{
  ℕ, ◌^◌, ◌<◌, ◌≡◌, refl, sym, ap, ◌∙◌, List, [], ◌∷◌, ◌++◌, append_assoc, ok, length, All, arith,
}
use deepvm.Leb.{Ptr, read_leb_u32, read_leb_i32}
use deepvm.Leb.Write.{bb_put_leb_u32, bb_put_leb_s32}
use deepvm.Leb.Unsigned.{read_leb_u32-bb_put_leb_u32}
use deepvm.Leb.Mixed.{read_leb_u32-bb_put_leb_s32}
use deepvm.Leb.Signed.{read_leb_i32-bb_put_leb_s32}
use deepvm.Vm.State.{Module, Elem, DataSegment, read_byte}
use deepvm.Loader.Reader.{repeat}
use deepvm.Loader.Sections.{
  read_vector, elem_offset, decode_elem, decode_elem_section, decode_data, decode_data_section,
}
use deepvm.Loader.Reads.{
  map_same, >>=-ok, then_leb, then_skip, read_vector-put_vector, repeat-put_each,
}
use deepvm.Wat.Sections.{put_offset, put_elem, DataForm, put_data, put_vector, put_each}

pub record IsSmallElem (e : Elem) : Type 0 where
  pub first_table : e.table_index ≡ 0
  pub small_offset : e.offset < 2 ^ 32
  pub few : length e.func_indices < 2 ^ 32
  pub small_indices : All (λ i. i < 2 ^ 32) e.func_indices

decode_elem-put_elem :
    (e : Elem) (rest : Ptr) → IsSmallElem e → decode_elem (put_elem e ++ rest) ≡ ok (e, rest)
unfolding decode_elem put_elem put_offset read_byte elem_offset put_vector
decode_elem-put_elem e rest small =
    let funcs : Ptr =
      bb_put_leb_u32 (length e.func_indices) ++ put_each bb_put_leb_u32 e.func_indices in
    let offset : Ptr = 0x41 ∷ bb_put_leb_s32 e.offset ++ (0x0b ∷ []) in
    rw
      (
        append_assoc (bb_put_leb_u32 0) (offset ++ funcs) rest,
        append_assoc offset funcs rest,
        append_assoc (bb_put_leb_s32 e.offset) (0x0b ∷ []) (funcs ++ rest),
        append_assoc (bb_put_leb_u32 (length e.func_indices))
            (put_each bb_put_leb_u32 e.func_indices) rest,
      )
      (then_leb 0 _ _ (omega arith)
        ∙ >>=-ok read_leb_i32 _ _ (read_leb_i32-bb_put_leb_s32 e.offset _ small.small_offset)
        ∙ then_leb (length e.func_indices) _ _ small.few
        ∙ >>=-ok (repeat (length e.func_indices) read_leb_u32) _ _ (
            repeat-put_each read_leb_u32 bb_put_leb_u32 (λ i. i) (λ i. i < 2 ^ 32)
              read_leb_u32-bb_put_leb_u32 e.func_indices rest small.small_indices)
        ∙ rw (map_same e.func_indices) (
            ap
              (λ (i : ℕ). ok (
                record { table_index = i; offset = e.offset; func_indices = e.func_indices },
                rest,
              ))
              (sym small.first_table)))

-- The segments of elements that the assembler wrote, with any offset of 32 bits, are read back.
pub decode_elem_section-put_vector :
    (elems : List Elem) (rest : Ptr) (m : Module)
    → length elems < 2 ^ 32
    → All IsSmallElem elems
    → decode_elem_section (put_vector put_elem elems ++ rest) m
      ≡ ok (record m { elem_section = elems })
unfolding decode_elem_section
decode_elem_section-put_vector elems rest m few small = rw (
  read_vector-put_vector decode_elem put_elem (λ e. e) IsSmallElem decode_elem-put_elem elems rest
      few small,
  decode_elem_section,
  map_same elems,
)

pub record IsSmallData (d : DataForm) : Type 0 where
  pub positive_offset : d.offset < 2 ^ 31
  pub short : length d.bytes < 2 ^ 32

-- The segments as the loader has them: each points to its bytes, with the rest of the module
-- behind them.
unfoldable pub data_segments : List DataForm → Ptr → List DataSegment
data_segments [] rest = []
data_segments (d ∷ ds) rest =
    record {
      offset = d.offset;
      datasize = length d.bytes;
      bytes = d.bytes ++ (put_each put_data ds ++ rest);
    }
    ∷ data_segments ds rest

decode_data-put_data :
    (d : DataForm) (rest : Ptr)
    → IsSmallData d
    → decode_data (put_data d ++ rest)
      ≡ ok (record { offset = d.offset; datasize = length d.bytes; bytes = d.bytes ++ rest }, rest)
unfolding decode_data put_data put_offset read_byte
decode_data-put_data d rest small =
    let content : Ptr = bb_put_leb_u32 (length d.bytes) ++ d.bytes in
    let offset : Ptr = bb_put_leb_s32 d.offset ++ (0x0b ∷ []) in
    rw
      (
        append_assoc offset content rest,
        append_assoc (bb_put_leb_s32 d.offset) (0x0b ∷ []) (content ++ rest),
        append_assoc (bb_put_leb_u32 (length d.bytes)) d.bytes rest,
      )
      (then_skip (0x41 ∷ [])
          (bb_put_leb_s32 d.offset ++ (0x0b ∷ bb_put_leb_u32 (length d.bytes) ++ (d.bytes ++ rest)))
          _
        ∙ >>=-ok read_leb_u32 _ _ (read_leb_u32-bb_put_leb_s32 d.offset _ small.positive_offset)
        ∙ then_skip (0x0b ∷ []) (bb_put_leb_u32 (length d.bytes) ++ (d.bytes ++ rest)) _
        ∙ then_leb (length d.bytes) (d.bytes ++ rest) _ small.short
        ∙ then_skip d.bytes rest _)

repeat-decode_data :
    (ds : List DataForm) (rest : Ptr)
    → All IsSmallData ds
    → repeat (length ds) decode_data (put_each put_data ds ++ rest)
      ≡ ok (data_segments ds rest, rest)
unfolding repeat put_each data_segments
repeat-decode_data [] rest small = refl
repeat-decode_data (d ∷ ds) rest small =
    rw (append_assoc (put_data d) (put_each put_data ds) rest) (
      >>=-ok decode_data _ (put_data d ++ (put_each put_data ds ++ rest))
        (decode_data-put_data d (put_each put_data ds ++ rest) small.0)
      ∙ >>=-ok (repeat (length ds) decode_data) _ (put_each put_data ds ++ rest)
          (repeat-decode_data ds rest small.1))

-- The data segments that the assembler wrote are read back where the offsets, which it writes as
-- signed numbers and the loader reads as unsigned ones, are below 2 ^ 31.
pub decode_data_section-put_vector :
    (ds : List DataForm) (rest : Ptr) (m : Module)
    → length ds < 2 ^ 32
    → All IsSmallData ds
    → decode_data_section (put_vector put_data ds ++ rest) m
      ≡ ok (record m { data_section = data_segments ds rest })
unfolding decode_data_section read_vector put_vector
decode_data_section-put_vector ds rest m few small =
    let vector : read_vector decode_data (put_vector put_data ds ++ rest)
        ≡ ok (data_segments ds rest, rest) =
      rw (append_assoc (bb_put_leb_u32 (length ds)) (put_each put_data ds) rest) (
        then_leb (length ds) (put_each put_data ds ++ rest) (λ n. repeat n decode_data) few
        ∙ repeat-decode_data ds rest small) in
    rw (vector, decode_data_section)
