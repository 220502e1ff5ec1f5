-- ===== src/Vm/Int.antt =====
-- Signed numbers, for `int jump_depth` and for what an `int32_t` or `int64_t` stands for.
use deepvm.Base.{ℕ, zero, suc, ◌-◌, ◌^◌, Bool, true, false, ltb, leb, ◌==◌, if◌then◌else◌}

-- `negsuc n` is -(n + 1).
pub data ℤ : Type 0 where
  pos : ℕ → ℤ
  negsuc : ℕ → ℤ

abbrev pub is_zero : ℤ → Bool
is_zero (pos n) = n == 0
is_zero (negsuc n) = false

abbrev pub is_negative : ℤ → Bool
is_negative (pos n) = false
is_negative (negsuc n) = true

abbrev pub decrement : ℤ → ℤ
decrement (pos zero) = negsuc 0
decrement (pos (suc n)) = pos n
decrement (negsuc n) = negsuc (suc n)

infix 50 ◌<?ℤ◌ ◌≤?ℤ◌
abbrev pub ◌<?ℤ◌ : ℤ → ℤ → Bool
pos a <?ℤ pos b = ltb a b
pos a <?ℤ negsuc b = false
negsuc a <?ℤ pos b = true
negsuc a <?ℤ negsuc b = ltb b a

abbrev pub ◌≤?ℤ◌ : ℤ → ℤ → Bool
pos a ≤?ℤ pos b = leb a b
pos a ≤?ℤ negsuc b = false
negsuc a ≤?ℤ pos b = true
negsuc a ≤?ℤ negsuc b = leb b a

-- The number that a pattern of `w` bits stands for.
abbrev pub signed : ℕ → ℕ → ℤ
signed w x = if ltb x (2 ^ (w - 1)) then pos x else negsuc (2 ^ w - x - 1)

abbrev pub magnitude : ℤ → ℕ
magnitude (pos n) = n
magnitude (negsuc n) = suc n
