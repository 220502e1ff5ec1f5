-- ===== src/Vm/Order.antt =====
-- Where the signed comparisons `i32_gts`, `i64_gts`, `i32_ges` and `i64_ges` of
-- src/deep_interp.c, which compare as unsigned ones, agree with the order of the signed numbers.
use deepvm.Base.{ℕ, ◌-◌, ◌^◌, ◌<◌, ◌≡◌, not, ltb, arith}
use deepvm.Vm.Int.{signed, ◌<?ℤ◌, ◌≤?ℤ◌}
use deepvm.Vm.Words.{int_compare_op}
use deepvm.Opcode.Kinds.{gts, ges}

-- `gts` and `ges` agree with the signed order on two operands of `w` bits whose signs are the
-- same, negative ones included.
pub gts-same_sign :
    (w b a : ℕ)
    → b < 2 ^ w
    → a < 2 ^ w
    → ltb b (2 ^ (w - 1)) ≡ ltb a (2 ^ (w - 1))
    → (int_compare_op w gts b a ≡ (signed w a <?ℤ signed w b))
      × (int_compare_op w ges b a ≡ (signed w a ≤?ℤ signed w b))
unfolding int_compare_op
gts-same_sign w b a hb ha same = (ground arith, ground arith)

-- On two operands whose signs differ, `gts` and `ges` give the opposite of the signed order.
pub gts-other_sign :
    (w b a : ℕ)
    → ltb b (2 ^ (w - 1)) ≡ not (ltb a (2 ^ (w - 1)))
    → (int_compare_op w gts b a ≡ not (signed w a <?ℤ signed w b))
      × (int_compare_op w ges b a ≡ not (signed w a ≤?ℤ signed w b))
unfolding int_compare_op
gts-other_sign w b a differ = (ground arith, ground arith)
