-- ===== src/Wat/Numbers/Values.antt =====
-- `parse_int_lit` of src/deep_wat.c gives the value of the digits.
use deepvm.Base.{
  ℕ, ◌+◌, ◌-◌, ◌*◌, ◌^◌, Bool, List, [], ◌∷◌, ◌++◌, map, length, ltb, if◌then◌else◌, u64,
}

-- The digits of a number, and its value: each digit counts by its place.
unfoldable pub digit_char : ℕ → ℕ
digit_char d = if ltb d 10 then b'0' + d else b'a' + (d - 10)

unfoldable pub value : ℕ → List ℕ → ℕ
value base [] = 0
value base (d ∷ ds) = d * base ^ length ds + value base ds

unfoldable pub base_of : Bool → ℕ
base_of hex = if hex then 16 else 10

unfoldable pub prefix_of : Bool → List ℕ
prefix_of hex = if hex then b'0' ∷ (b'x' ∷ []) else []

pub data Sign : Type 0 where
  unsigned plus minus : Sign

unfoldable pub literal : Sign → Bool → List ℕ → List ℕ
literal unsigned hex ds = prefix_of hex ++ map digit_char ds
literal plus hex ds = b'+' ∷ prefix_of hex ++ map digit_char ds
literal minus hex ds = b'-' ∷ prefix_of hex ++ map digit_char ds

-- The pattern of 64 bits of the number.
unfoldable pub with_sign : Sign → ℕ → ℕ
with_sign unsigned v = v
with_sign plus v = v
with_sign minus v = u64 (2 ^ 64 - v)
