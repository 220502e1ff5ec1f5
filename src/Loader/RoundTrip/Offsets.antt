-- ===== src/Loader/RoundTrip/Offsets.antt =====
-- The offsets of the local variables of a function.
use deepvm.Base.{
  ℕ, zero, suc, ◌+◌, ◌*◌, ◌≤◌, ◌≡◌, refl, sym, ap, Bool, ◌||◌, some, List, [], ◌∷◌, ok, length,
  get_elem?, All, arith, ◌==◌, if◌then◌else◌,
}
use mathlib.Core.Option.{some-injective, some-ne-none}
use deepvm.Leb.{Ptr}
use deepvm.Vm.State.{FuncType}
use deepvm.Interp.Exec.{wasm_type_size}
use deepvm.Loader.Functions.{local_offsets, make_function}

-- `i32` and `f32`, and the types of eight bytes.
pub data IsValueType : ℕ → Type 0 where
  i32_type : IsValueType 0x7f
  i64_type : IsValueType 0x7e
  f32_type : IsValueType 0x7d
  f64_type : IsValueType 0x7c

unfoldable pub value_size : ℕ → ℕ
value_size t = if (t == 0x7f) || (t == 0x7d) then 4 else 8

wasm_type_size-value : {t : ℕ} → IsValueType t → wasm_type_size t ≡ ok (value_size t)
unfolding wasm_type_size value_size
wasm_type_size-value i32_type = refl
wasm_type_size-value i64_type = refl
wasm_type_size-value f32_type = refl
wasm_type_size-value f64_type = refl

value_size_le : (t : ℕ) → value_size t ≤ 8
unfolding value_size
value_size_le t = ground arith

-- Each variable lies behind the ones before it, and the end of the last one closes the list.
unfoldable pub offsets_from : ℕ → List ℕ → List ℕ
offsets_from offset [] = offset ∷ []
offsets_from offset (t ∷ types) = offset ∷ offsets_from (offset + value_size t) types

pub local_offsets-value :
    (offset : ℕ) (types : List ℕ)
    → All IsValueType types
    → local_offsets (length types) offset types ≡ ok (offsets_from offset types)
unfolding local_offsets offsets_from
local_offsets-value offset [] values = refl
local_offsets-value offset (t ∷ types) values =
    rw (wasm_type_size-value values.0, local_offsets-value (offset + value_size t) types values.1)

pub make_function-value :
    (type : FuncType) (is_import : Bool) (code_size : ℕ) (code_begin : Ptr) (types : List ℕ)
    (count : ℕ)
    → count ≡ length types
    → All IsValueType types
    → make_function type is_import code_size code_begin types count
      ≡ ok (record {
        func_type = type;
        code_size = code_size;
        code_begin = code_begin;
        local_var_offsets = offsets_from 0 types;
        is_import = is_import;
      })
unfolding make_function
make_function-value type is_import code_size code_begin types count is values =
    rw (is, local_offsets-value 0 types values)

length-offsets_from :
    (offset : ℕ) (types : List ℕ) → length (offsets_from offset types) ≡ suc (length types)
unfolding offsets_from
length-offsets_from offset [] = refl
length-offsets_from offset (t ∷ types) = ap suc (length-offsets_from (offset + value_size t) types)

first :
    (offset t' t bound : ℕ)
    → some t' ≡ some t
    → offset + 8 ≤ bound
    → (o : ℕ) × (some offset ≡ some o)
      × (some (offset + value_size t') ≡ some (o + value_size t))
      × (o + value_size t ≤ bound)
first offset t' t bound h room = (
  offset,
  refl,
  ap (λ (u : ℕ). some (offset + value_size u)) (some-injective t' t h),
  omega (arith, value_size_le t),
)

offsets_from-disjoint :
    (offset : ℕ) (types : List ℕ) (i t : ℕ)
    → get_elem? types i ≡ some t
    → (o : ℕ) × (get_elem? (offsets_from offset types) i ≡ some o)
      × (get_elem? (offsets_from offset types) (suc i) ≡ some (o + value_size t))
      × (o + value_size t ≤ offset + 8 * length types)
unfolding offsets_from
offsets_from-disjoint offset [] i t h = absurd (some-ne-none t (sym h))
offsets_from-disjoint offset (t' ∷ []) zero t h = first offset t' t (offset + 8) h (omega arith)
offsets_from-disjoint offset (t' ∷ (u ∷ types)) zero t h =
    first offset t' t (offset + 8 * suc (suc (length types))) h (omega arith)
offsets_from-disjoint offset (t' ∷ types) (suc i) t h =
    let rest = offsets_from-disjoint (offset + value_size t') types i t h in
    (rest.0, rest.1, rest.2, omega (arith, rest.3, value_size_le t'))

-- The variables of a function with value types lie one behind the other: the list of offsets that
-- the loader makes has the end of each one right behind its start, at most 8 bytes for each of
-- them, and one entry more than there are variables.
pub local_offsets-disjoint :
    (types : List ℕ) (i t : ℕ)
    → All IsValueType types
    → get_elem? types i ≡ some t
    → (o : ℕ) × (offsets : List ℕ) × (local_offsets (length types) 0 types ≡ ok offsets)
      × (length offsets ≡ suc (length types))
      × (get_elem? offsets i ≡ some o)
      × (get_elem? offsets (suc i) ≡ some (o + value_size t))
      × (o + value_size t ≤ 8 * length types)
local_offsets-disjoint types i t values h =
    let found = offsets_from-disjoint 0 types i t h in
    (
      found.0,
      offsets_from 0 types,
      local_offsets-value 0 types values,
      length-offsets_from 0 types,
      found.1,
      found.2,
      omega (arith, found.3),
    )
