-- ===== src/Base/Results.antt =====
-- How a computation of the virtual machine can end: with a value, or without one.

-- `undefined` is behaviour that C leaves undefined (a read or write out of range, a division
-- that overflows); `out_of_fuel` is the model's; the others are `deep_error` with `exit`.
pub data Trap : Type 0 where
  unreachable div_by_zero rem_by_zero undefined_element uninitialized_element : Trap
  unknown_opcode invalid_type no_builtin bad_return_type : Trap
  undefined out_of_fuel : Trap

pub data Result {ℓ} (A : Type ℓ) : Type ℓ where
  ok : A → Result A
  err : Trap → Result A

infixl 5 ◌>>=◌ ◌>>◌
-- Goes on with the value, or ends with the trap.
abbrev pub ◌>>=◌ {ℓ κ} : {S : Type ℓ} {T : Type κ} → Result S → (S → Result T) → Result T
err trap >>= next = err trap
ok value >>= next = next value

abbrev pub ◌>>◌ {ℓ} : {T : Type ℓ} → Result (Unit {0}) → Result T → Result T
first >> second = first >>= λ done. second
