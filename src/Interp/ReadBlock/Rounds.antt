-- ===== src/Interp/ReadBlock/Rounds.antt =====
-- One round of the scan of `read_block` over each kind of instruction, and the fuel for them.
use deepvm.Base.{
  ℕ, zero, suc, ◌+◌, ◌-◌, ◌*◌, ◌%◌, ◌^◌, ◌≤◌, ◌<◌, ◌≡◌, refl, true, false, List, [], ok, bit_and,
  bit_or, ◌∷◌, ◌++◌, length, length-append, drop-append, arith, ◌==◌,
}
use deepvm.Leb.{Ptr, leb_u_loop, read_leb_u32}
use deepvm.Leb.Write.{bb_put_leb_u32}
use deepvm.Leb.Unsigned.{read_leb_u32-bb_put_leb_u32}
use deepvm.Opcode.Table.{opcode_of}
use deepvm.Interp.ReadBlock.{
  nested, plain, one_leb, two_lebs, table, indirect, end_of_block, else_of_block, shape_at,
  read_block_loop,
}
use deepvm.Interp.ReadBlock.Code.{
  Code, stop, simple, leb, leb2, call_through, branch_table, block, if_else, encode, IsLeb,
}

-- The fuel that the rounds over the code take, in front of `k`.
unfoldable pub more : Code → ℕ → ℕ
more stop k = k
more (simple b c) k = suc (more c k)
more (leb b v c) k = suc (more c k)
more (leb2 b v w c) k = suc (more c k)
more (call_through b v c) k = suc (more c k)
more (branch_table b targets c) k = suc (more c k)
more (block b t body c) k = suc (more body (suc (more c k)))
more (if_else b t c1 c2 c) k = suc (more c1 (suc (more c2 (suc (more c k)))))

-- The readers take any number of at most as many bytes as they have rounds.
leb_u_loop-IsLeb :
    (n shift res : ℕ) (start : Ptr) (bytes : List ℕ) (p : Ptr)
    → IsLeb n bytes
    → (v : ℕ) × (leb_u_loop 32 n shift res start (bytes ++ p) ≡ ok (v, p))
unfolding leb_u_loop
leb_u_loop-IsLeb zero shift res start bytes p is = absurd is
leb_u_loop-IsLeb (suc n) shift res start [] p is = absurd is
leb_u_loop-IsLeb (suc n) shift res start (b ∷ []) p is =
    let last : (bit_and b 0x80 == 0) ≡ true = ground (arith, is) in
    rw last (bit_or res (bit_and b 0x7f * 2 ^ shift % 2 ^ 32), refl)
leb_u_loop-IsLeb (suc n) shift res start (b ∷ b' ∷ bytes) p is =
    let more_bytes : (bit_and b 0x80 == 0) ≡ false = ground (arith, is.0) in
    rw more_bytes (leb_u_loop-IsLeb n (shift + 7) _ start (b' ∷ bytes) p is.1)

read_leb_u32-IsLeb :
    (bytes : List ℕ) (p : Ptr) → IsLeb 5 bytes → (v : ℕ) × (read_leb_u32 (bytes ++ p) ≡ ok (v, p))
unfolding read_leb_u32
read_leb_u32-IsLeb bytes p is = leb_u_loop-IsLeb 5 0 0 (bytes ++ p) bytes p is

-- One round on an opcode of each shape.
module _ (fuel net b : ℕ) where
  pub round-simple :
      (p : Ptr)
      → shape_at b ≡ plain
      → read_block_loop (suc fuel) net (b ∷ p) ≡ read_block_loop fuel net p
  unfolding read_block_loop
  round-simple p h = rw h

  pub round-leb :
      (v : List ℕ) (p : Ptr)
      → shape_at b ≡ one_leb
      → IsLeb 5 v
      → read_block_loop (suc fuel) net (b ∷ (v ++ p)) ≡ read_block_loop fuel net p
  unfolding read_block_loop
  round-leb v p h is = rw (h, (read_leb_u32-IsLeb v p is).1)

  pub round-leb2 :
      (v w : List ℕ) (p : Ptr)
      → shape_at b ≡ two_lebs
      → IsLeb 5 v
      → IsLeb 5 w
      → read_block_loop (suc fuel) net (b ∷ (v ++ (w ++ p))) ≡ read_block_loop fuel net p
  unfolding read_block_loop
  round-leb2 v w p h is is' =
      rw (h, (read_leb_u32-IsLeb v (w ++ p) is).1, (read_leb_u32-IsLeb w p is').1)

  pub round-indirect :
      (v : List ℕ) (p : Ptr)
      → shape_at b ≡ indirect
      → IsLeb 5 v
      → read_block_loop (suc fuel) net (b ∷ (v ++ (0 ∷ p))) ≡ read_block_loop fuel net p
  unfolding read_block_loop
  round-indirect v p h is = rw (h, (read_leb_u32-IsLeb v (0 ∷ p) is).1)

  pub round-table :
      (targets : List ℕ) (p : Ptr)
      → shape_at b ≡ table
      → 0 < length targets
      → length targets < 2 ^ 32
      → read_block_loop (suc fuel) net (b ∷ (bb_put_leb_u32 (length targets - 1) ++ (targets ++ p)))
        ≡ read_block_loop fuel net p
  unfolding read_block_loop
  round-table targets p h pos fits =
      let count : length targets - 1 + 1 ≡ length targets = omega arith in
      rw (
        h,
        read_leb_u32-bb_put_leb_u32 (length targets - 1) _ (omega arith),
        count,
        drop-append targets p,
      )

  pub round-nested :
      (t : ℕ) (p : Ptr)
      → shape_at b ≡ nested
      → net < 255
      → read_block_loop (suc fuel) net (b ∷ t ∷ p) ≡ read_block_loop fuel (suc net) p
  unfolding read_block_loop
  round-nested t p h fits = let e : (net + 1) % 256 ≡ suc net = omega arith in rw (h, e)

  pub round-end :
      (p : Ptr)
      → shape_at b ≡ end_of_block
      → 0 < net
      → net < 255
      → read_block_loop (suc fuel) (suc net) (b ∷ p) ≡ read_block_loop fuel net p
  unfolding read_block_loop
  round-end p h pos fits =
      let e : (suc net + 255) % 256 ≡ net = omega arith in
      let f : (net == 0) ≡ false = ground arith in rw (h, e, f)

  pub round-else :
      (p : Ptr)
      → shape_at b ≡ else_of_block
      → 0 < net
      → net < 255
      → read_block_loop (suc fuel) (suc net) (b ∷ p) ≡ read_block_loop fuel (suc net) p
  unfolding read_block_loop
  round-else p h pos fits =
      let e : (suc net + 255) % 256 ≡ net = omega arith in
      let g : (net + 1) % 256 ≡ suc net = omega arith in
      let f : (net == 0) ≡ false = ground arith in rw (h, e, f, g)

pub end_shape : shape_at 0x0b ≡ end_of_block
unfolding shape_at opcode_of
end_shape = refl

pub else_shape : shape_at 0x05 ≡ else_of_block
unfolding shape_at opcode_of
else_shape = refl

-- The rounds over the code, which are no more than its bytes.
pub rounds : Code → ℕ
rounds stop = 0
rounds (simple b c) = suc (rounds c)
rounds (leb b v c) = suc (rounds c)
rounds (leb2 b v w c) = suc (rounds c)
rounds (call_through b v c) = suc (rounds c)
rounds (branch_table b targets c) = suc (rounds c)
rounds (block b t body c) = suc (rounds body + suc (rounds c))
rounds (if_else b t c1 c2 c) = suc (rounds c1 + suc (rounds c2 + suc (rounds c)))

pub more-eq : (c : Code) (k : ℕ) → more c k ≡ rounds c + k
unfolding more rounds
more-eq stop k = omega arith
more-eq (simple b c) k = omega (arith, more-eq c k)
more-eq (leb b v c) k = omega (arith, more-eq c k)
more-eq (leb2 b v w c) k = omega (arith, more-eq c k)
more-eq (call_through b v c) k = omega (arith, more-eq c k)
more-eq (branch_table b targets c) k = omega (arith, more-eq c k)
more-eq (block b t body c) k = omega (arith, more-eq body (suc (more c k)), more-eq c k)
more-eq (if_else b t c1 c2 c) k =
    omega
      (arith, more-eq c1 (suc (more c2 (suc (more c k)))), more-eq c2 (suc (more c k)), more-eq c k)

pub rounds-le : (c : Code) → rounds c ≤ length (encode c)
unfolding rounds encode
rounds-le stop = omega arith
rounds-le (simple b c) = omega (arith, rounds-le c)
rounds-le (leb b v c) = omega (arith, rounds-le c, length-append v (encode c))
rounds-le (leb2 b v w c) =
    omega (arith, rounds-le c, length-append v (w ++ encode c), length-append w (encode c))
rounds-le (call_through b v c) = omega (arith, rounds-le c, length-append v (0 ∷ encode c))
rounds-le (branch_table b targets c) = omega (
  arith,
  rounds-le c,
  length-append (bb_put_leb_u32 (length targets - 1)) (targets ++ encode c),
  length-append targets (encode c),
)
rounds-le (block b t body c) =
    omega (arith, rounds-le body, rounds-le c, length-append (encode body) (0x0b ∷ encode c))
rounds-le (if_else b t c1 c2 c) = omega (
  arith,
  rounds-le c1,
  rounds-le c2,
  rounds-le c,
  length-append (encode c1) (0x05 ∷ (encode c2 ++ (0x0b ∷ encode c))),
  length-append (encode c2) (0x0b ∷ encode c),
)
