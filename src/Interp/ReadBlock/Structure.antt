-- ===== src/Interp/ReadBlock/Structure.antt =====
-- Where `read_block` stops on code whose blocks are well nested.
use deepvm.Base.{
  ℕ, zero, suc, ◌+◌, ◌-◌, ◌<◌, ◌≡◌, refl, ap, ◌∙◌, ◌∷◌, ◌++◌, append_assoc, length, length-append,
  arith, ok, err, unknown_opcode, ◌>>=◌,
}
use deepvm.Leb.{Ptr}
use deepvm.Opcode.Table.{opcode_of}
use deepvm.Interp.ReadBlock.{unlisted, shape_at, read_block_case, read_block_loop, read_block}
use deepvm.Interp.ReadBlock.Code.{
  Code, stop, simple, leb, leb2, call_through, branch_table, block, if_else, encode, IsWellFormed,
  IsNestedIn,
}
use deepvm.Interp.ReadBlock.Rounds.{
  more, round-simple, round-leb, round-leb2, round-indirect, round-table, round-nested, round-end,
  round-else, end_shape, else_shape, rounds, more-eq, rounds-le,
}

-- The scan passes over well nested code with as many brackets open behind it as in front of it.
scan-encode :
    (c : Code) (d k net : ℕ) (rest : Ptr)
    → IsWellFormed c
    → IsNestedIn d c
    → 0 < net
    → net + d < 255
    → read_block_loop (more c k) net (encode c ++ rest) ≡ read_block_loop k net rest
unfolding more encode
scan-encode stop d k net rest wf nest pos fits = refl
scan-encode (simple b c) d k net rest wf nest pos fits =
    round-simple (more c k) net b _ wf.0 ∙ scan-encode c d k net rest wf.1 nest pos fits
scan-encode (leb b v c) d k net rest wf nest pos fits =
    rw append_assoc
      (round-leb (more c k) net b v _ wf.0 wf.1 ∙ scan-encode c d k net rest wf.2 nest pos fits)
scan-encode (leb2 b v w c) d k net rest wf nest pos fits =
    rw (append_assoc, append_assoc)
      (round-leb2 (more c k) net b v w _ wf.0 wf.1 wf.2
        ∙ scan-encode c d k net rest wf.3 nest pos fits)
scan-encode (call_through b v c) d k net rest wf nest pos fits =
    rw append_assoc (
      round-indirect (more c k) net b v _ wf.0 wf.1 ∙ scan-encode c d k net rest wf.2 nest pos fits)
scan-encode (branch_table b targets c) d k net rest wf nest pos fits =
    rw (append_assoc, append_assoc)
      (round-table (more c k) net b targets _ wf.0 wf.1 wf.2
        ∙ scan-encode c d k net rest wf.3 nest pos fits)
scan-encode (block b t body c) zero k net rest wf nest pos fits = absurd nest
scan-encode (block b t body c) (suc d) k net rest wf nest pos fits = rw append_assoc (
    round-nested _ net b t _ wf.0 (omega arith)
    ∙ (scan-encode body d (suc (more c k)) (suc net) _ wf.1 nest.0 (omega arith) (omega arith)
        ∙ (round-end (more c k) net 0x0b _ end_shape pos (omega arith)
            ∙ scan-encode c (suc d) k net rest wf.2 nest.1 pos fits)))
scan-encode (if_else b t c1 c2 c) zero k net rest wf nest pos fits = absurd nest
scan-encode (if_else b t c1 c2 c) (suc d) k net rest wf nest pos fits =
    rw (append_assoc, append_assoc)
      (round-nested _ net b t _ wf.0 (omega arith)
        ∙ (scan-encode c1 d _ (suc net) _ wf.1 nest.0 (omega arith) (omega arith)
            ∙ (round-else _ net 0x05 _ else_shape pos (omega arith)
                ∙ (scan-encode c2 d (suc (more c k)) (suc net) _ wf.2 nest.1 (omega arith)
                      (omega arith)
                    ∙ (round-end (more c k) net 0x0b _ end_shape pos (omega arith)
                        ∙ scan-encode c (suc d) k net rest wf.3 nest.2 pos fits)))))

-- The scan of a block whose code is well nested comes, with the fuel that `read_block` gives it, to
-- what stands behind that code with one bracket open.
read_block-encode :
    (c : Code) (b : ℕ) (rest : Ptr)
    → IsWellFormed c
    → IsNestedIn 253 c
    → (fuel : ℕ) × (read_block (encode c ++ (b ∷ rest)) ≡ (do
      after ← read_block_case (read_block_loop fuel) (shape_at b) 1 rest
      ok (length (encode c ++ (b ∷ rest)) - length after)))
unfolding read_block
read_block-encode c b rest wf nest =
    let whole = encode c ++ (b ∷ rest) in
    let left = length whole - rounds c in
    let enough : length whole + 1 ≡ more c (suc left) =
      omega (arith, more-eq c (suc left), rounds-le c, length-append (encode c) (b ∷ rest)) in
    (
      left,
      rw (enough, scan-encode c 253 (suc left) 1 (b ∷ rest) wf nest (omega arith) (omega arith))
          (unfold read_block_loop in refl),
    )

-- On code whose blocks are well nested, at most 253 deep, that holds no opcode which `read_block`
-- does not list (these are `f64_add` … `f64_copysign`), and in which each immediate, those of
-- constants included, is a LEB128 number of at most five bytes (so neither the raw bytes of
-- `f32_const` and `f64_const` nor a longer one of `i64_const`) and the targets of a `br_table`
-- single bytes behind their number in its shortest form, `read_block` stops behind the `end`, or
-- the `else`, that follows the code: its result is the number of bytes up to there.
pub read_block_finds_end :
    (c : Code) (rest : Ptr)
    → IsWellFormed c
    → IsNestedIn 253 c
    → (read_block (encode c ++ (0x0b ∷ rest)) ≡ ok (length (encode c) + 1))
      × (read_block (encode c ++ (0x05 ∷ rest)) ≡ ok (length (encode c) + 1))
read_block_finds_end c rest wf nest = (
  (read_block-encode c 0x0b rest wf nest).1
      ∙ unfold read_block_case in rw end_shape (ap ok (up_to 0x0b)),
  (read_block-encode c 0x05 rest wf nest).1
      ∙ unfold read_block_case in rw else_shape (ap ok (up_to 0x05)),
)
  where
    up_to : (b : ℕ) → length (encode c ++ (b ∷ rest)) - length rest ≡ length (encode c) + 1
    up_to b = omega (arith, length-append (encode c) (b ∷ rest))

f64_shape : (k : ℕ) → k < 7 → shape_at (0xa0 + k) ≡ unlisted
unfolding shape_at opcode_of
f64_shape zero h = refl
f64_shape (suc zero) h = refl
f64_shape (suc (suc zero)) h = refl
f64_shape (suc (suc (suc zero))) h = refl
f64_shape (suc (suc (suc (suc zero)))) h = refl
f64_shape (suc (suc (suc (suc (suc zero))))) h = refl
f64_shape (suc (suc (suc (suc (suc (suc zero)))))) h = refl
f64_shape (suc (suc (suc (suc (suc (suc (suc k))))))) h = absurd (omega arith)

-- On the two-operand arithmetic of `double` (`f64_add` … `f64_copysign`, 0xa0 to 0xa6) behind well
-- nested code of the kind in which `read_block_finds_end` finds the end, `read_block` stops the
-- program with an unknown opcode: no block that holds such an instruction can be entered.
pub read_block_rejects_f64 :
    (c : Code) (k : ℕ) (rest : Ptr)
    → IsWellFormed c
    → IsNestedIn 253 c
    → k < 7
    → read_block (encode c ++ ((0xa0 + k) ∷ rest)) ≡ err unknown_opcode
read_block_rejects_f64 c k rest wf nest h =
    (read_block-encode c (0xa0 + k) rest wf nest).1 ∙ unfold read_block_case in rw (f64_shape k h)
