-- ===== src/Base/Words.antt =====
-- Machine words as native numbers: a w-bit word is a number below 2 ^ w.
use Prim.Native.Nat.{ℕ, ◌+◌, ◌-◌, ◌%◌, ◌^◌, ◌<◌, bit_and}
use mathlib.Core.Path.{◌≡◌, refl}
use mathlib.Core.Bool.{true}
use deepvm.Base.Tests.{ltb, ◌==◌, if◌then◌else◌, ==→eq}
use deepvm.Base.Bits.{all_below, all_below_sound}

abbrev pub u8 : ℕ → ℕ
u8 n = n % 2 ^ 8

abbrev pub u16 : ℕ → ℕ
u16 n = n % 2 ^ 16

abbrev pub u32 : ℕ → ℕ
u32 n = n % 2 ^ 32

abbrev pub u64 : ℕ → ℕ
u64 n = n % 2 ^ 64

-- A signed number of `from` bits as one of `to` bits, both by their patterns.
abbrev pub sign_extend : ℕ → ℕ → ℕ → ℕ
sign_extend from to x = if ltb x (2 ^ (from - 1)) then x else 2 ^ to - 2 ^ from + x

low7_table : all_below 256 (λ b. bit_and b 0x7f == b % 128) ≡ true
unfolding all_below
low7_table = refl

high_table : all_below 256 (λ b. bit_and b 0x80 == (if ltb b 128 then 0 else 128)) ≡ true
unfolding all_below
high_table = refl

sign7_table : all_below 256 (λ b. bit_and b 0x40 == (if ltb (b % 128) 64 then 0 else 64)) ≡ true
unfolding all_below
sign7_table = refl

-- The three masks of a LEB128 byte: its payload, its continuation bit and its sign bit.
pub bit_and_low7 : (b : ℕ) → b < 256 → bit_and b 0x7f ≡ b % 128
bit_and_low7 b h = ==→eq _ _ (all_below_sound 256 _ b low7_table h)

pub bit_and_high : (b : ℕ) → b < 256 → bit_and b 0x80 ≡ (if ltb b 128 then 0 else 128)
bit_and_high b h = ==→eq _ _ (all_below_sound 256 _ b high_table h)

pub bit_and_sign7 : (b : ℕ) → b < 256 → bit_and b 0x40 ≡ (if ltb (b % 128) 64 then 0 else 64)
bit_and_sign7 b h = ==→eq _ _ (all_below_sound 256 _ b sign7_table h)
