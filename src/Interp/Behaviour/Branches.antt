-- ===== src/Interp/Behaviour/Branches.antt =====
-- `op_br_table` on a table of single-byte targets.
use deepvm.Base.{
  ℕ, suc, ◌+◌, ◌-◌, ◌%◌, ◌^◌, ◌≤◌, ◌<◌, ◌≡◌, refl, ◌∙◌, ◌++◌, List, [], ◌∷◌, append_assoc, true,
  false, ltb, lt→ltb, if◌then◌else◌, arith, ok, u8, u32, some, get_elem?, drop, drop-append, length,
  length-append,
}
use deepvm.Bytes.{read_mem}
use deepvm.Leb.{Ptr, read_leb_u32}
use deepvm.Leb.Write.{bb_put_leb_u32}
use deepvm.Vm.Int.{signed}
use deepvm.Vm.State.{State, pop32, read_ip}
use deepvm.Vm.Steps.{>>=-ok, pop-ok, read_ip-leb}
use deepvm.Interp.Exec.{exec_br_table}

get_elem?-behind : (xs ys : List ℕ) (i : ℕ) → get_elem? (xs ++ ys) (length xs + i) ≡ get_elem? ys i
get_elem?-behind [] ys i = let e : 0 + i ≡ i = omega arith in rw e
get_elem?-behind (x ∷ xs) ys i =
    let e : suc (length xs) + i ≡ suc (length xs + i) = omega arith in
    rw e (get_elem?-behind xs ys i)

behind_table : (xs : List ℕ) (d : ℕ) (p : Ptr) → drop (length xs + 1) (xs ++ (d ∷ p)) ≡ p
behind_table xs d p =
    let e : length xs + 1 ≡ length (xs ++ (d ∷ [])) = omega (arith, length-append xs (d ∷ [])) in
    rw (e, ← append_assoc xs (d ∷ []) p) (drop-append (xs ++ (d ∷ [])) p)

-- Up to the choice of the target, with `size` bytes of table.
module _ (n size : ℕ) (bytes after : Ptr) (s : State) where
  chosen :
      (target : ℕ)
      → n < 2 ^ 32
      → 4 ≤ s.sp
      → u8 (1 + u8 n) ≡ size
      → drop size bytes ≡ after
      → get_elem? bytes (
          if ltb (u8 (read_mem 4 s.stack (s.sp - 4)) + 1) size
          then u8 (read_mem 4 s.stack (s.sp - 4))
          else size)
        ≡ some target
      → exec_br_table (record s { ip = bb_put_leb_u32 n ++ bytes })
        ≡ ok (tt, record s { ip = after; sp = s.sp - 4; jump_depth = signed 32 (u32 (target + 1)) })
  unfolding exec_br_table
  chosen target fits deep is_size is_after is_target =
      >>=-ok (read_ip read_leb_u32) _ _ (read_ip-leb n bytes s fits)
      ∙ (>>=-ok pop32 _ (record s { ip = bytes }) (pop-ok 4 (record s { ip = bytes }) deep)
          ∙ rw is_size (rw (is_after, is_target)))

-- A `br_table` of `n` targets and a default one, each a single byte and `n` below 255, with an
-- index below `n` on the stack: the jump goes to the target of that index, and the code behind the
-- table is next.
pub exec_br_table-target :
    (targets : List ℕ) (default target : ℕ) (rest : Ptr) (s : State)
    → length targets < 255
    → 4 ≤ s.sp
    → read_mem 4 s.stack (s.sp - 4) < length targets
    → get_elem? (targets ++ (default ∷ rest)) (read_mem 4 s.stack (s.sp - 4)) ≡ some target
    → exec_br_table
        (record s { ip = bb_put_leb_u32 (length targets) ++ (targets ++ (default ∷ rest)) })
      ≡ ok (tt, record s { ip = rest; sp = s.sp - 4; jump_depth = signed 32 (u32 (target + 1)) })
exec_br_table-target targets default target rest s small deep inside is_target =
    let i = read_mem 4 s.stack (s.sp - 4) in
    let same : u8 i ≡ i = omega arith in
    let below : ltb (i + 1) (length targets + 1) ≡ true = lt→ltb _ _ (omega arith) in
    chosen (length targets) (length targets + 1) (targets ++ (default ∷ rest)) rest s target
      (omega arith) deep (omega arith) (behind_table targets default rest)
      (rw same (rw below is_target))

-- A `br_table` of `n` targets and a default one, each a single byte and `n` below 255:
-- with an index of `n` or more, below 256, the jump does not go to the default target: its label
-- is the byte `next` that stands behind the table, the opcode of the following instruction, and
-- the target in the table plays no part.
pub exec_br_table-default :
    (targets : List ℕ) (default next : ℕ) (rest : Ptr) (s : State)
    → length targets < 255
    → 4 ≤ s.sp
    → length targets ≤ read_mem 4 s.stack (s.sp - 4)
    → read_mem 4 s.stack (s.sp - 4) < 256
    → exec_br_table
        (record s { ip = bb_put_leb_u32 (length targets) ++ (targets ++ (default ∷ next ∷ rest)) })
      ≡ ok (
        tt,
        record s { ip = next ∷ rest; sp = s.sp - 4; jump_depth = signed 32 (u32 (next + 1)) },
      )
exec_br_table-default targets default next rest s small deep beyond byte =
    let i = read_mem 4 s.stack (s.sp - 4) in
    let same : u8 i ≡ i = omega arith in
    let above : ltb (i + 1) (length targets + 1) ≡ false = ground arith in
    chosen (length targets) (length targets + 1) (targets ++ (default ∷ next ∷ rest)) (next ∷ rest)
      s next (omega arith) deep (omega arith) (behind_table targets default (next ∷ rest))
      (rw same (rw above (get_elem?-behind targets (default ∷ next ∷ rest) 1)))

-- The number of targets is cut to eight bits before one is added. Where it is 255 modulo 256, the
-- table counts as empty: whatever the index is, the jump goes to the first target, and the code
-- goes on at the bytes of the table.
pub exec_br_table-wraps :
    (first : ℕ) (targets : List ℕ) (rest : Ptr) (s : State)
    → length (first ∷ targets) < 2 ^ 32
    → length (first ∷ targets) % 256 ≡ 255
    → 4 ≤ s.sp
    → exec_br_table
        (record s { ip = bb_put_leb_u32 (length (first ∷ targets)) ++ (first ∷ (targets ++ rest)) })
      ≡ ok (
        tt,
        record s {
          ip = first ∷ (targets ++ rest);
          sp = s.sp - 4;
          jump_depth = signed 32 (u32 (first + 1));
        },
      )
exec_br_table-wraps first targets rest s fits wraps deep =
    let i = read_mem 4 s.stack (s.sp - 4) in
    let above : ltb (u8 i + 1) 0 ≡ false = ground arith in
    chosen (length (first ∷ targets)) 0 (first ∷ (targets ++ rest)) (first ∷ (targets ++ rest)) s
      first fits deep (omega (arith, wraps)) refl (rw above refl)
