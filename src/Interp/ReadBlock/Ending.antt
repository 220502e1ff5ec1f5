-- ===== src/Interp/ReadBlock/Ending.antt =====
-- `read_block` comes to an end: its fuel is enough.
use deepvm.Base.{
  ℕ, zero, suc, ◌+◌, ◌-◌, ◌*◌, ◌%◌, ◌^◌, ◌≤◌, ◌<◌, bit_and, bit_or, ◌≢◌, Bool, true, false, [], ◌∷◌,
  length, drop, ◌==◌, if◌then◌else◌, u8, arith, undefined, unknown_opcode, out_of_fuel, Result, ok,
  err, ◌>>=◌,
}
use deepvm.Leb.{Ptr, leb_u_loop, read_leb_u32}
use deepvm.Vm.State.{read_byte}
use deepvm.Interp.ReadBlock.{
  Shape, nested, table, end_of_block, else_of_block, plain, indirect, one_leb, two_lebs, unlisted,
  shape_at, read_block_case, read_block_loop, read_block,
}

-- A read that fails at the end of the bytes, or leaves at most `k` of them.
data Reads (k : ℕ) : Result (ℕ × Ptr) → Type 0 where
  fails : Reads k (err undefined)
  reads : {v : ℕ} {p : Ptr} → length p ≤ k → Reads k (ok (v, p))

-- An outcome other than a lack of fuel.
data Ended {A : Type 0} : Result A → Type 0 where
  value : {a : A} → Ended (ok a)
  no_bytes : Ended (err undefined)
  no_opcode : Ended (err unknown_opcode)

Ended-bind :
    {A : Type 0} (k : ℕ) {r : Result (ℕ × Ptr)} (f : ℕ × Ptr → Result A)
    → Reads k r
    → ((v : ℕ) (p : Ptr) → length p ≤ k → Ended (f (v, p)))
    → Ended (r >>= f)
Ended-bind k f fails next = no_bytes
Ended-bind k f (reads {v} {p} h) next = next v p h

Reads-if :
    (k : ℕ) (b : Bool) {x y : Result (ℕ × Ptr)}
    → Reads k x
    → Reads k y
    → Reads k (if b then x else y)
Reads-if k true hx hy = hx
Reads-if k false hx hy = hy

Ended-if : {A : Type 0} (b : Bool) {x y : Result A} → Ended x → Ended y → Ended (if b then x else y)
Ended-if true hx hy = hx
Ended-if false hx hy = hy

leb_u_loop-Reads :
    (k width rounds shift res : ℕ) (start buf : Ptr)
    → length start ≤ k
    → length buf ≤ k
    → Reads k (leb_u_loop width rounds shift res start buf)
unfolding leb_u_loop
leb_u_loop-Reads k width zero shift res start buf h g = reads h
leb_u_loop-Reads k width (suc rounds) shift res start [] h g = fails
leb_u_loop-Reads k width (suc rounds) shift res start (byte ∷ buf) h g =
    Reads-if k (bit_and byte 0x80 == 0) (reads (omega arith)) (
      leb_u_loop-Reads k width rounds (shift + 7)
        (bit_or res (bit_and byte 0x7f * 2 ^ shift % 2 ^ width)) start buf h (omega arith))

read_leb_u32-Reads : (k : ℕ) (p : Ptr) → length p ≤ k → Reads k (read_leb_u32 p)
unfolding read_leb_u32
read_leb_u32-Reads k p h = leb_u_loop-Reads k 32 5 0 0 p p h h

read_byte-Reads : (k : ℕ) (p : Ptr) → length p ≤ k → Reads k (read_byte p)
unfolding read_byte
read_byte-Reads k [] h = fails
read_byte-Reads k (b ∷ p) h = reads (omega arith)

length-drop : (n : ℕ) (p : Ptr) → length (drop n p) ≤ length p
length-drop zero p = omega arith
length-drop (suc n) [] = omega arith
length-drop (suc n) (b ∷ p) = omega (arith, length-drop n p)

module _ (k : ℕ) (scan : ℕ → Ptr → Result Ptr)
    (scanned : (net : ℕ) (p : Ptr) → length p ≤ k → Ended (scan net p)) where
  read_block_case-Ended :
      (shape : Shape) (net : ℕ) (p : Ptr) → length p ≤ k → Ended (read_block_case scan shape net p)
  unfolding read_block_case
  read_block_case-Ended nested net p h =
      Ended-bind k _ (read_byte-Reads k p h) (λ _ q g. scanned (u8 (net + 1)) q g)
  read_block_case-Ended table net p h =
      Ended-bind k _ (read_leb_u32-Reads k p h)
        λ n q g. scanned net (drop (n + 1) q) (omega (arith, length-drop (n + 1) q))
  read_block_case-Ended end_of_block net p h =
      Ended-if (u8 (net + 255) == 0) value (scanned (u8 (net + 255)) p h)
  read_block_case-Ended else_of_block net p h =
      Ended-if (u8 (net + 255) == 0) value (scanned (u8 (u8 (net + 255) + 1)) p h)
  read_block_case-Ended plain net p h = scanned net p h
  read_block_case-Ended indirect net p h =
      Ended-bind k _ (read_leb_u32-Reads k p h)
        λ _ q g. Ended-bind k _ (read_byte-Reads k q g) (λ _ r f. scanned net r f)
  read_block_case-Ended one_leb net p h =
      Ended-bind k _ (read_leb_u32-Reads k p h) (λ _ q g. scanned net q g)
  read_block_case-Ended two_lebs net p h =
      Ended-bind k _ (read_leb_u32-Reads k p h)
        λ _ q g. Ended-bind k _ (read_leb_u32-Reads k q g) (λ _ r f. scanned net r f)
  read_block_case-Ended unlisted net p h = no_opcode

read_block_loop-Ended :
    (fuel net : ℕ) (p : Ptr) → length p < fuel → Ended (read_block_loop fuel net p)
unfolding read_block_loop read_byte
read_block_loop-Ended zero net p h = absurd (omega arith)
read_block_loop-Ended (suc fuel) net [] h = no_bytes
read_block_loop-Ended (suc fuel) net (b ∷ p) h =
    read_block_case-Ended (length p) (read_block_loop fuel)
      (λ n q g. read_block_loop-Ended fuel n q (omega arith)) (shape_at b) net p (omega arith)

Ended-fuel : {A : Type 0} {r : Result A} → Ended r → r ≢ err out_of_fuel
Ended-fuel value h = absurd cc
Ended-fuel no_bytes h = absurd cc
Ended-fuel no_opcode h = absurd cc

-- On any bytes at all, well formed or not, `read_block` comes to an end within its fuel.
pub read_block-ends : (ip : Ptr) → read_block ip ≢ err out_of_fuel
unfolding read_block
read_block-ends ip =
    Ended-fuel (measured (read_block_loop-Ended (length ip + 1) 1 ip (omega arith)))
  where
    measured : {r : Result Ptr} → Ended r → Ended (r >>= λ after. ok (length ip - length after))
    measured value = value
    measured no_bytes = no_bytes
    measured no_opcode = no_opcode
