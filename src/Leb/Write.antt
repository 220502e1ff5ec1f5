-- ===== src/Leb/Write.antt =====
-- The LEB128 writers of src/deep_wat.c (`bb_put_leb_u32`, `bb_put_leb_s32`, `bb_put_leb_s64`), as
-- the bytes that they append to the buffer.
use deepvm.Base.{
  ℕ, zero, suc, ◌+◌, ◌-◌, ◌/◌, ◌^◌, bit_and, bit_or, ◌&&◌, ◌||◌, not, List, [], ◌∷◌, ltb, ◌==◌,
  if◌then◌else◌,
}

-- `do { … } while (v)`, with fuel for so many bytes.
unfoldable pub put_leb_u : ℕ → ℕ → List ℕ
put_leb_u zero v = []
put_leb_u (suc fuel) v =
    let byte = bit_and v 0x7f in
    let v' = v / 2 ^ 7 in
    let rest = put_leb_u fuel v' in if v' == 0 then byte ∷ [] else bit_or byte 0x80 ∷ rest

-- A 32-bit value takes at most five bytes.
unfoldable pub bb_put_leb_u32 : ℕ → List ℕ
bb_put_leb_u32 v = put_leb_u 5 v

-- `value >> 7` of a signed value, on its pattern of `width` bits.
unfoldable pub shift_right7 : ℕ → ℕ → ℕ
shift_right7 width v =
    if ltb v (2 ^ (width - 1)) then v / 2 ^ 7 else v / 2 ^ 7 + (2 ^ width - 2 ^ (width - 7))

-- `while (more) { … }` of the signed writers, with fuel for so many bytes.
unfoldable pub put_leb_s : ℕ → ℕ → ℕ → List ℕ
put_leb_s width zero value = []
put_leb_s width (suc fuel) value =
    let byte = bit_and value 0x7f in
    let value' = shift_right7 width value in
    let sign = not (bit_and byte 0x40 == 0) in
    let rest = put_leb_s width fuel value' in
    if ((value' == 0) && not sign) || ((value' == 2 ^ width - 1) && sign)
    then byte ∷ []
    else bit_or byte 0x80 ∷ rest

-- 32 bits take at most five bytes, and 64 bits at most ten.
unfoldable pub bb_put_leb_s32 : ℕ → List ℕ
bb_put_leb_s32 value = put_leb_s 32 5 value

unfoldable pub bb_put_leb_s64 : ℕ → List ℕ
bb_put_leb_s64 value = put_leb_s 64 10 value
