-- ===== src/Leb/Mixed.antt =====
-- The unsigned reader on the values of the signed writer: the loader reads the offset of a data
-- segment so, which the assembler writes as a signed number.
use deepvm.Base.{ℕ, suc, ◌+◌, ◌*◌, ◌^◌, ◌<◌, ◌≡◌, ap, ◌∙◌, ◌∷◌, ◌++◌, ok, arith}
use deepvm.Leb.{Ptr, leb_u_loop, read_leb_u32}
use deepvm.Leb.Write.{put_leb_s, bb_put_leb_s32}
use deepvm.Leb.Unsigned.{leb_u_loop-more, leb_u_loop-last}
use deepvm.Leb.Positive.{loop-positive}

leb_u_loop-last_small :
    (w n shift res b : ℕ) (start buf : Ptr)
    → b < 64
    → res < 2 ^ shift
    → b * 2 ^ shift < 2 ^ w
    → leb_u_loop w (suc n) shift res start (b ∷ buf) ≡ ok (res + b * 2 ^ shift, buf)
leb_u_loop-last_small w n shift res b start buf small =
    leb_u_loop-last w n shift res b start buf (omega arith)

-- `read_leb_u32` reads back every value below 2 ^ 31 that `bb_put_leb_s32` wrote, whatever bytes
-- follow, and leaves the pointer behind the last byte written.
pub read_leb_u32-bb_put_leb_s32 :
    (v : ℕ) (rest : Ptr) → v < 2 ^ 31 → read_leb_u32 (bb_put_leb_s32 v ++ rest) ≡ ok (v, rest)
unfolding read_leb_u32 bb_put_leb_s32
read_leb_u32-bb_put_leb_s32 v rest small =
    loop-positive leb_u_loop leb_u_loop-last_small leb_u_loop-more 32 5 31 0 0 v
      (put_leb_s 32 5 v ++ rest) rest (omega arith) (omega arith) (omega arith) small (omega arith)
      (omega arith)
    ∙ ap (λ (i : ℕ). ok (i, rest)) (omega arith)
