-- ===== src/Vm/Tests.antt =====
-- Concrete words.
use deepvm.Base.{◌≡◌, ◌<◌, ◌≤◌, ◌^◌, ◌-◌, ◌%◌, ◌/◌, refl, not, arith}
use deepvm.Vm.Int.{signed, ◌<?ℤ◌, ◌≤?ℤ◌}
use deepvm.Vm.Words.{int_compare_op, int_unary_op}
use deepvm.Vm.Order.{gts-same_sign, gts-other_sign}
use deepvm.Vm.Zeros.{int_unary_op-clz, int_unary_op-ctz}
use deepvm.Opcode.Kinds.{gts, ges, clz, ctz}

-- -2 and -5
gts-same_sign_example :
    (int_compare_op 32 gts 4294967294 4294967291 ≡ (signed 32 4294967291 <?ℤ signed 32 4294967294))
    × (int_compare_op 32 ges 4294967294 4294967291
        ≡ (signed 32 4294967291 ≤?ℤ signed 32 4294967294))
gts-same_sign_example = gts-same_sign 32 4294967294 4294967291 (omega arith) (omega arith) refl

-- -1 and 3
gts-other_sign_example :
    (int_compare_op 32 gts 4294967295 3 ≡ not (signed 32 3 <?ℤ signed 32 4294967295))
    × (int_compare_op 32 ges 4294967295 3 ≡ not (signed 32 3 ≤?ℤ signed 32 4294967295))
gts-other_sign_example = gts-other_sign 32 4294967295 3 refl

int_unary_op-clz_example :
    (int_unary_op 32 clz 300 < 32)
    × (2 ^ (32 - 1 - int_unary_op 32 clz 300) ≤ 300)
    × (300 < 2 ^ (32 - int_unary_op 32 clz 300))
int_unary_op-clz_example = int_unary_op-clz 32 300 (omega arith) (omega arith)

int_unary_op-ctz_example :
    (int_unary_op 32 ctz 296 < 32)
    × (296 % 2 ^ int_unary_op 32 ctz 296 ≡ 0)
    × (296 / 2 ^ int_unary_op 32 ctz 296 % 2 ≡ 1)
int_unary_op-ctz_example = int_unary_op-ctz 32 296 (omega arith) (omega arith)
