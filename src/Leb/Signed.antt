-- ===== src/Leb/Signed.antt =====
-- The signed readers read back what the signed writers wrote.
use native.Mathlib.Decide.{dec_lt}
use deepvm.Base.{ℕ, ◌-◌, ◌^◌, ◌<◌, ◌≡◌, ap, ◌∙◌, ◌++◌, ok, arith}
use deepvm.Leb.{Ptr, leb_s_loop, read_leb_i32, read_leb_i64}
use deepvm.Leb.Write.{put_leb_s, bb_put_leb_s32, bb_put_leb_s64}
use deepvm.Leb.Positive.{loop-positive}
use deepvm.Leb.Rounds.{leb_s_loop-more, leb_s_loop-last_positive}
use deepvm.Leb.Negative.{leb_s_loop-negative}

-- `read_leb_i32` reads back the pattern of every 32-bit value, negative ones included, that
-- `bb_put_leb_s32` wrote, whatever bytes follow, and leaves the pointer behind the last byte.
pub read_leb_i32-bb_put_leb_s32 :
    (v : ℕ) (rest : Ptr) → v < 2 ^ 32 → read_leb_i32 (bb_put_leb_s32 v ++ rest) ≡ ok (v, rest)
unfolding read_leb_i32 bb_put_leb_s32
read_leb_i32-bb_put_leb_s32 v rest fits = elim (dec_lt v (2 ^ 31)) [
  | yes small ↦
      loop-positive leb_s_loop leb_s_loop-last_positive leb_s_loop-more 32 5 31 0 0 v
        (put_leb_s 32 5 v ++ rest) rest (omega arith) (omega arith) (omega arith) small
        (omega arith) (omega arith)
      ∙ ap (λ (i : ℕ). ok (i, rest)) (omega arith)
  | no large ↦
      let c : ℕ = 2 ^ 32 - 1 - v in
      let e : v ≡ 2 ^ 32 - 1 - c = omega arith in
      ap (λ (i : ℕ). leb_s_loop 32 5 0 0 (put_leb_s 32 5 v ++ rest) (put_leb_s 32 5 i ++ rest)) e
      ∙ (leb_s_loop-negative 32 5 31 0 0 c (put_leb_s 32 5 v ++ rest) rest (omega arith)
            (omega arith) (omega arith) (omega arith) (omega arith) (omega arith)
          ∙ ap (λ (i : ℕ). ok (i, rest)) (omega arith))
]

-- `read_leb_i64` reads back the pattern of every 64-bit value, negative ones included, that
-- `bb_put_leb_s64` wrote, whatever bytes follow, and leaves the pointer behind the last byte.
pub read_leb_i64-bb_put_leb_s64 :
    (v : ℕ) (rest : Ptr) → v < 2 ^ 64 → read_leb_i64 (bb_put_leb_s64 v ++ rest) ≡ ok (v, rest)
unfolding read_leb_i64 bb_put_leb_s64
read_leb_i64-bb_put_leb_s64 v rest fits = elim (dec_lt v (2 ^ 63)) [
  | yes small ↦
      loop-positive leb_s_loop leb_s_loop-last_positive leb_s_loop-more 64 10 63 0 0 v
        (put_leb_s 64 10 v ++ rest) rest (omega arith) (omega arith) (omega arith) small
        (omega arith) (omega arith)
      ∙ ap (λ (i : ℕ). ok (i, rest)) (omega arith)
  | no large ↦
      let c : ℕ = 2 ^ 64 - 1 - v in
      let e : v ≡ 2 ^ 64 - 1 - c = omega arith in
      ap (λ (i : ℕ). leb_s_loop 64 10 0 0 (put_leb_s 64 10 v ++ rest) (put_leb_s 64 10 i ++ rest)) e
      ∙ (leb_s_loop-negative 64 10 63 0 0 c (put_leb_s 64 10 v ++ rest) rest (omega arith)
            (omega arith) (omega arith) (omega arith) (omega arith) (omega arith)
          ∙ ap (λ (i : ℕ). ok (i, rest)) (omega arith))
]
