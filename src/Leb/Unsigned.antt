-- ===== src/Leb/Unsigned.antt =====
-- The unsigned reader reads back what the unsigned writer wrote.
use native.Mathlib.Nat.{mod-eq_of_lt, div-add-mod}
use native.Mathlib.Decide.{dec_lt}
use deepvm.Base.{
  ℕ, zero, suc, ◌+◌, ◌*◌, ◌/◌, ◌%◌, ◌^◌, ◌≤◌, ◌<◌, bit_and, bit_or, ◌≡◌, ap, ◌∙◌, true, false, [],
  ◌∷◌, ◌++◌, ok, arith, ◌==◌, bit_or_shifted, bit_and_low, bit_and_low7, bit_and_high, pow-add7,
}
use deepvm.Leb.{Ptr, leb_u_loop, read_leb_u32}
use deepvm.Leb.Write.{put_leb_u, bb_put_leb_u32}

-- The value so far, with seven more bits put in front of it.
pub add_septet :
    (width shift res b : ℕ)
    → res < 2 ^ shift
    → b * 2 ^ shift < 2 ^ width
    → bit_or res (b * 2 ^ shift % 2 ^ width) ≡ res + b * 2 ^ shift
add_septet width shift res b low fits = rw (mod-eq_of_lt fits) (bit_or_shifted shift res b low)

pub septet_split : (v t : ℕ) → v * t ≡ v / 128 * (128 * t) + v % 128 * t
septet_split v t = omega (arith, ap (λ (x : ℕ). x * t) (div-add-mod v 128))

pub septet_lt :
    (shift res b : ℕ) → b < 128 → res < 2 ^ shift → res + b * 2 ^ shift < 2 ^ (shift + 7)
septet_lt shift res b small low = rw (pow-add7 shift) (grind arith)

fewer : (n v : ℕ) → v < 2 ^ (suc n * 7) → v / 128 < 2 ^ (n * 7)
fewer n v h =
    let e : suc n * 7 ≡ n * 7 + 7 = omega arith in
    let h' : v < 2 ^ (n * 7 + 7) = rw e at h in omega (arith, pow-add7 (n * 7))

-- The byte that a writer puts before others, and how a reader takes it apart.
pub continued_lem : (b : ℕ) → b < 128 → bit_or b 0x80 ≡ b + 128
continued_lem b h = bit_or_shifted 7 b 1 h

pub continued_payload : (b : ℕ) → b < 128 → bit_and (bit_or b 0x80) 0x7f ≡ b
continued_payload b h = rw continued_lem (omega (arith, bit_and_low7 (b + 128) (omega arith)))

pub continued_flag : (b : ℕ) → b < 128 → (bit_and (bit_or b 0x80) 0x80 == 0) ≡ false
continued_flag b h = ground (arith, continued_lem b h, bit_and_high (b + 128) (omega arith))

pub last_payload : (b : ℕ) → b < 128 → bit_and b 0x7f ≡ b
last_payload b h = omega (arith, bit_and_low7 b (omega arith))

pub last_flag : (b : ℕ) → b < 128 → (bit_and b 0x80 == 0) ≡ true
last_flag b h = ground (arith, bit_and_high b (omega arith))

-- One round of the reader, at a last byte and at another one.
pub leb_u_loop-last :
    (width n shift res b : ℕ) (start buf : Ptr)
    → b < 128
    → res < 2 ^ shift
    → b * 2 ^ shift < 2 ^ width
    → leb_u_loop width (suc n) shift res start (b ∷ buf) ≡ ok (res + b * 2 ^ shift, buf)
unfolding leb_u_loop
leb_u_loop-last width n shift res b start buf small low fits =
    rw (last_flag b small, last_payload b small, add_septet width shift res b low fits)

pub leb_u_loop-more :
    (width n shift res b : ℕ) (start buf : Ptr)
    → b < 128
    → res < 2 ^ shift
    → b * 2 ^ shift < 2 ^ width
    → leb_u_loop width (suc n) shift res start (bit_or b 0x80 ∷ buf)
      ≡ leb_u_loop width n (shift + 7) (res + b * 2 ^ shift) start buf
unfolding leb_u_loop
leb_u_loop-more width n shift res b start buf small low fits =
    rw (continued_flag b small, continued_payload b small, add_septet width shift res b low fits)

put_leb_u-last : (n v : ℕ) → v < 128 → put_leb_u (suc n) v ≡ v ∷ []
unfolding put_leb_u
put_leb_u-last n v small =
    let zero_left : v / 128 ≡ 0 = omega arith in rw (zero_left, bit_and_low 7 v, mod-eq_of_lt small)

put_leb_u-more :
    (n v : ℕ) → 128 ≤ v → put_leb_u (suc n) v ≡ bit_or (v % 128) 0x80 ∷ put_leb_u n (v / 128)
unfolding put_leb_u
put_leb_u-more n v large =
    let some_left : (v / 128 == 0) ≡ false = ground arith in rw (some_left, bit_and_low 7 v)

-- From any bit on, with as many rounds as the writer had.
leb_u_loop-put_leb_u :
    (width n shift res v : ℕ) (start rest : Ptr)
    → res < 2 ^ shift
    → v < 2 ^ (n * 7)
    → 0 < v + n
    → v * 2 ^ shift < 2 ^ width
    → leb_u_loop width n shift res start (put_leb_u n v ++ rest) ≡ ok (res + v * 2 ^ shift, rest)
leb_u_loop-put_leb_u width zero shift res v start rest low few pos fits = absurd (omega arith)
leb_u_loop-put_leb_u width (suc n) shift res v start rest low few pos fits = elim (dec_lt v 128) [
  | yes small ↦
      rw (put_leb_u-last n v small) (leb_u_loop-last width n shift res v start rest small low fits)
  | no large ↦
      let split : v * 2 ^ shift ≡ v / 128 * 2 ^ (shift + 7) + v % 128 * 2 ^ shift =
        rw (pow-add7 shift) (septet_split v (2 ^ shift)) in
      rw
        (
          put_leb_u-more n v (omega arith),
          leb_u_loop-more width n shift res (v % 128) start (put_leb_u n (v / 128) ++ rest)
              (omega arith) low (omega arith),
        )
        (leb_u_loop-put_leb_u width n (shift + 7) (res + v % 128 * 2 ^ shift) (v / 128) start rest
            (septet_lt shift res (v % 128) (omega arith) low) (fewer n v few) (omega arith)
            (omega arith)
          ∙ ap (λ (t : ℕ). ok (t, rest)) (omega arith))
]

-- `read_leb_u32` reads back every 32-bit value that `bb_put_leb_u32` wrote, whatever bytes follow,
-- and leaves the pointer behind the last byte written.
pub read_leb_u32-bb_put_leb_u32 :
    (v : ℕ) (rest : Ptr) → v < 2 ^ 32 → read_leb_u32 (bb_put_leb_u32 v ++ rest) ≡ ok (v, rest)
unfolding read_leb_u32 bb_put_leb_u32
read_leb_u32-bb_put_leb_u32 v rest fits =
    leb_u_loop-put_leb_u 32 5 0 0 v (put_leb_u 5 v ++ rest) rest (omega arith) (omega arith)
      (omega arith) (omega arith)
    ∙ ap (λ (t : ℕ). ok (t, rest)) (omega arith)
