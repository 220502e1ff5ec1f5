-- ===== src/Loader/RoundTrip/Functions.antt =====
-- The function and code sections, read side by side.
use deepvm.Base.{
  suc, ◌+◌, ◌-◌, ◌^◌, ◌<◌, ◌≤◌, ◌≡◌, sym, ◌∙◌, false, [], ◌∷◌, ◌++◌, map, append_assoc, ok, length,
  length-append, All, arith, u32,
}
use deepvm.Leb.{Ptr}
use deepvm.Leb.Write.{bb_put_leb_u32}
use deepvm.Leb.Unsigned.{read_leb_u32-bb_put_leb_u32}
use deepvm.Vm.State.{FuncType, Func}
use deepvm.Loader.Reads.{skip-ok}
use deepvm.Loader.Locals.{read_clusters, local_var_count, variable_types}
use deepvm.Loader.Functions.{decode_body}
use deepvm.Wat.Sections.{put_each}
use deepvm.Wat.Bodies.{Body, clusters, put_run, body_bytes, put_body}
use deepvm.Loader.RoundTrip.Locals.{
  as_cluster, clusters_read, read_clusters-put_each, all_variables-clusters_read,
  local_var_count-clusters_read, variable_types-run_lengths, length-run_lengths, small_runs,
}
use deepvm.Loader.RoundTrip.Offsets.{IsValueType, offsets_from, make_function-value}

-- A body that fits its type: at most 255 variables, of value types.
pub record IsSmallBody (type : FuncType) (f : Body) : Type 0 where
  pub few : length type.params + length f.local_types < 256
  pub values : All IsValueType (type.params ++ f.local_types)
  pub short : length (body_bytes f) < 2 ^ 32

-- The function as the loader has it; its code ends with the byte that the assembler puts there,
-- and the rest of the module is behind it.
unfoldable pub as_func : FuncType → Body → Ptr → Func
as_func type f rest = record {
  func_type = type;
  code_size = suc (length f.code);
  code_begin = f.code ++ (0x0b ∷ rest);
  local_var_offsets = offsets_from 0 (type.params ++ f.local_types);
  is_import = false;
}

clusters_variables : (f : Body) → variable_types (map as_cluster (clusters f)) ≡ f.local_types
unfolding clusters
clusters_variables f = variable_types-run_lengths (length f.local_types) f.local_types (omega arith)

clusters_few : (f : Body) → length (clusters f) ≤ length f.local_types
unfolding clusters
clusters_few f = length-run_lengths (length f.local_types) f.local_types

clusters_small : (f : Body) → length f.local_types ≤ 255 → All (λ run. run.0 ≤ 255) (clusters f)
unfolding clusters
clusters_small f h = small_runs 255 (length f.local_types) f.local_types h

body_clusters :
    (type : FuncType) (f : Body) (rest : Ptr)
    → IsSmallBody type f
    → read_clusters (length type.params) (body_bytes f ++ rest)
      ≡ ok (clusters_read (length type.params) (clusters f), f.code ++ (0x0b ∷ rest))
unfolding body_bytes
body_clusters type f rest small =
    let end : Ptr = f.code ++ (0x0b ∷ []) in
    let few = small.few in
    rw
      (
        append_assoc (bb_put_leb_u32 (length (clusters f))) (put_each put_run (clusters f) ++ end)
            rest,
        append_assoc (put_each put_run (clusters f)) end rest,
        append_assoc f.code (0x0b ∷ []) rest,
      )
      (read_clusters-put_each (length type.params) (clusters f) (f.code ++ (0x0b ∷ rest))
        (omega arith) (omega (arith, clusters_few f)) (clusters_small f (omega arith)))

body_length : (f : Body) → suc (length f.code) ≤ length (body_bytes f)
unfolding body_bytes
body_length f = omega (
  arith,
  length-append (bb_put_leb_u32 (length (clusters f)))
      (put_each put_run (clusters f) ++ (f.code ++ (0x0b ∷ []))),
  length-append (put_each put_run (clusters f)) (f.code ++ (0x0b ∷ [])),
  length-append f.code (0x0b ∷ []),
)

pub decode_body-put_body :
    (type : FuncType) (f : Body) (rest : Ptr)
    → IsSmallBody type f
    → decode_body type (put_body f ++ rest) ≡ ok (as_func type f rest, rest)
unfolding decode_body put_body as_func
decode_body-put_body type f rest small =
    let size : u32 (
          length (body_bytes f)
          + 2 ^ 32
          - (length (body_bytes f ++ rest) - length (f.code ++ (0x0b ∷ rest))))
        ≡ suc (length f.code) =
      let short = small.short in
      omega (
        arith,
        body_length f,
        length-append (body_bytes f) rest,
        length-append f.code (0x0b ∷ rest),
      ) in
    let types = clusters_variables f in
    rw (
      append_assoc (bb_put_leb_u32 (length (body_bytes f))) (body_bytes f) rest,
      read_leb_u32-bb_put_leb_u32 (length (body_bytes f)) (body_bytes f ++ rest) small.short,
      body_clusters type f rest small,
      size,
      all_variables-clusters_read type (clusters f) f.local_types types,
      make_function-value type false (suc (length f.code)) (f.code ++ (0x0b ∷ rest))
          (type.params ++ f.local_types)
          (local_var_count type (clusters_read (length type.params) (clusters f)))
          (local_var_count-clusters_read type (clusters f) f.local_types types small.few
            ∙ sym (length-append type.params f.local_types))
          small.values,
      skip-ok (body_bytes f) rest,
    )
