-- ===== src/Interp/Behaviour/Branching.antt =====
-- `op_if` over branches of well nested code: which bytes stay on the operand stack.
use deepvm.Base.{
  ℕ, suc, ◌+◌, ◌-◌, ◌≤◌, ◌<◌, ◌≡◌, refl, ap, ◌∙◌, Bool, true, false, [], ◌∷◌, ◌++◌, append_assoc,
  length, length-append, drop, drop-append, ◌==◌, if◌then◌else◌, arith, ok,
}
use deepvm.Leb.{Ptr}
use deepvm.Bytes.{read_mem}
use deepvm.Vm.State.{State, Module, Func, read_byte, pop32}
use deepvm.Vm.Floats.{Floats}
use deepvm.Vm.Steps.{>>=-ok, pop-ok}
use deepvm.Interp.Instructions.{lift}
use deepvm.Interp.ReadBlock.{read_block}
use deepvm.Interp.ReadBlock.Code.{Code, encode, IsWellFormed, IsNestedIn}
use deepvm.Interp.ReadBlock.Structure.{read_block_finds_end}
use deepvm.Interp.Exec.{
  Frame, Run, function_frame, block_frame, block_at, exec_block, exec_if, enter_frame,
}
use deepvm.Interp.Behaviour.Entries.{enter_frame-once, lift-ok}

-- The pointer behind well nested code and the opcode that follows it.
drop-behind : (c : Code) (b : ℕ) (p : Ptr) → drop (length (encode c) + 1) (encode c ++ (b ∷ p)) ≡ p
drop-behind c b p =
    let e : length (encode c) + 1 ≡ length (encode c ++ (b ∷ [])) =
      omega (arith, length-append (encode c) (b ∷ [])) in
    rw (e, ← append_assoc (encode c) (b ∷ []) p) (drop-append (encode c ++ (b ∷ [])) p)

-- Whichever branch is entered, it is run once.
either_branch :
    (run : Run) (fuel : ℕ) (b : Bool) (f g : Func) (s : State) (exited : Bool) (s' : State)
    → s.current_frame_index < 99
    → run
        (record { sp = s.env_sp; function = if b then f else g })
        (record s { current_frame_index = s.current_frame_index + 1 })
      ≡ ok (exited, s')
    → (p : Ptr) × ((if b
            then enter_frame run (suc fuel) f function_frame
            else enter_frame run (suc fuel) g function_frame)
          s
        ≡ ok (p, record s' { current_frame_index = s'.current_frame_index - 1 }))
either_branch run fuel true f g s exited s' room ran = (
  drop f.code_size f.code_begin,
  enter_frame-once run fuel f function_frame s exited s' refl room ran,
)
either_branch run fuel false f g s exited s' room ran = (
  drop g.code_size g.code_begin,
  enter_frame-once run fuel g function_frame s exited s' refl room ran,
)

-- The bytes behind an `if`: a block type, the two branches, and what follows its `end`.
abbrev pub if_bytes : ℕ → Code → Code → Ptr → Ptr
if_bytes type c1 c2 rest = type ∷ (encode c1 ++ (0x05 ∷ (encode c2 ++ (0x0b ∷ rest))))

-- The block that an `if` enters: the bytes up to and with the `else` or the `end`.
abbrev pub branch_taken : Func → ℕ → Code → Code → Ptr → Func
branch_taken f cond c1 c2 rest =
    if cond == 0
    then block_at f (encode c2 ++ (0x0b ∷ rest)) (length (encode c2) + 1)
    else block_at f (encode c1 ++ (0x05 ∷ (encode c2 ++ (0x0b ∷ rest)))) (length (encode c1) + 1)

-- An `if` with an `else`, over branches of well nested code, runs the first branch where its
-- condition is not 0 and the second one where it is, goes on behind the `end`, and leaves the stack
-- that the branch leaves. The branch starts above the four bytes of the condition: these are
-- popped, but the saved `sp` from which it starts is the one from before that. The run of the
-- branch comes to an end, fewer than 99 frames are open, and each branch is code that `read_block`
-- reads right: its blocks are nested at most 253 deep, it holds no opcode that `read_block` does
-- not list (`f64_add` … `f64_copysign`), and each immediate, those of constants included, is a
-- LEB128 number of at most five bytes (so neither the raw bytes of `f32_const` and `f64_const` nor
-- a longer one of `i64_const`), and the targets of a `br_table` are single bytes behind their
-- number in its shortest form.
pub exec_if-takes_branch :
    (fl : Floats) (m : Module) (run : Run) (fuel : ℕ) (frame : Frame) (s : State) (type : ℕ)
    (c1 c2 : Code) (rest : Ptr) (exited : Bool) (s' : State)
    → IsWellFormed c1
    → IsNestedIn 253 c1
    → IsWellFormed c2
    → IsNestedIn 253 c2
    → 4 ≤ s.sp
    → s.current_frame_index < 99
    → run
        (record {
          sp = s.sp;
          function = branch_taken frame.function (read_mem 4 s.stack (s.sp - 4)) c1 c2 rest;
        })
        (record s {
          ip = encode c1 ++ (0x05 ∷ (encode c2 ++ (0x0b ∷ rest)));
          env_sp = s.sp;
          sp = s.sp - 4;
          current_frame_index = s.current_frame_index + 1;
        })
      ≡ ok (exited, s')
    → exec_if fl m run (suc fuel) frame (record s { ip = if_bytes type c1 c2 rest })
      ≡ ok (
        tt,
        record s' { ip = rest; sp = s'.env_sp; current_frame_index = s'.current_frame_index - 1 },
      )
unfolding exec_if read_byte
exec_if-takes_branch fl m run fuel frame s type c1 c2 rest exited s' wf1 n1 wf2 n2 deep room ran =
    let p2 : Ptr = encode c2 ++ (0x0b ∷ rest) in
    let p1 : Ptr = encode c1 ++ (0x05 ∷ p2) in
    let size1 : ℕ = length (encode c1) + 1 in
    let size2 : ℕ = length (encode c2) + 1 in
    let r1 : read_block p1 ≡ ok size1 = (read_block_finds_end c1 p2 wf1 n1).1 in
    let d1 : drop size1 p1 ≡ p2 = drop-behind c1 0x05 p2 in
    let r2 : read_block (drop size1 p1) ≡ ok size2 =
      rw d1 (read_block_finds_end c2 rest wf2 n2).0 in
    let s1 : State = record s { ip = p1 } in
    let s2 : State = record s { ip = p1; env_sp = s.sp } in
    let s3 : State = record s { ip = p1; env_sp = s.sp; sp = s.sp - 4 } in
    let cond : ℕ = read_mem 4 s.stack (s.sp - 4) in
    let s4 : State = record s' { current_frame_index = s'.current_frame_index - 1 } in
    let entered =
      either_branch run fuel (cond == 0) (block_at frame.function (drop size1 p1) size2)
        (block_at frame.function p1 size1) s3 exited s' room (rw d1 ran) in
    >>=-ok (lift (read_block p1)) _ s1 (lift-ok (read_block p1) s1 r1)
    ∙ (>>=-ok (lift (read_block (drop size1 p1))) _ s1 (lift-ok (read_block (drop size1 p1)) s1 r2)
        ∙ (>>=-ok pop32 _ s2 (pop-ok 4 s2 deep)
            ∙ (>>=-ok
                  (if cond == 0
                    then enter_frame run (suc fuel) (block_at frame.function (drop size1 p1) size2)
                        function_frame
                    else enter_frame run (suc fuel) (block_at frame.function p1 size1)
                        function_frame)
                  _ s3 entered.1
                ∙ ap (λ (p : Ptr). ok (tt, record s4 { ip = p; sp = s4.env_sp }))
                    (rw d1 (drop-behind c2 0x0b rest)))))

-- A `block` over well nested code runs that code once, from the present `sp`, whether it comes to
-- its end or jumps out of it, and goes on behind the `end` with the stack that the code leaves. The
-- run of the code comes to an end, fewer than 99 frames are open, and it is code that `read_block`
-- reads right: its blocks are nested at most 253 deep, it holds no opcode that `read_block` does
-- not list (`f64_add` … `f64_copysign`), and each immediate, those of constants included, is a
-- LEB128 number of at most five bytes (so neither the raw bytes of `f32_const` and `f64_const` nor
-- a longer one of `i64_const`), and the targets of a `br_table` are single bytes behind their
-- number in its shortest form.
pub exec_block-runs_once :
    (fl : Floats) (m : Module) (run : Run) (fuel : ℕ) (frame : Frame) (s : State) (type : ℕ)
    (c : Code) (rest : Ptr) (exited : Bool) (s' : State)
    → IsWellFormed c
    → IsNestedIn 253 c
    → s.current_frame_index < 99
    → run
        (record {
          sp = s.sp;
          function = block_at frame.function (encode c ++ (0x0b ∷ rest)) (length (encode c) + 1);
        })
        (record s {
          ip = encode c ++ (0x0b ∷ rest);
          env_sp = s.sp;
          current_frame_index = s.current_frame_index + 1;
        })
      ≡ ok (exited, s')
    → exec_block fl m run
        (suc fuel)
        frame
        block_frame
        (record s { ip = type ∷ (encode c ++ (0x0b ∷ rest)) })
      ≡ ok (
        tt,
        record s' { ip = rest; sp = s'.env_sp; current_frame_index = s'.current_frame_index - 1 },
      )
unfolding exec_block read_byte
exec_block-runs_once fl m run fuel frame s type c rest exited s' wf nest room ran =
    let p : Ptr = encode c ++ (0x0b ∷ rest) in
    let size : ℕ = length (encode c) + 1 in
    let s1 : State = record s { ip = p } in
    let s2 : State = record s { ip = p; env_sp = s.sp } in
    let s3 : State = record s' { current_frame_index = s'.current_frame_index - 1 } in
    >>=-ok (lift (read_block p)) _ s1
      (lift-ok (read_block p) s1 (read_block_finds_end c rest wf nest).0)
    ∙ (>>=-ok (enter_frame run (suc fuel) (block_at frame.function p size) block_frame) _ s2 (
          enter_frame-once run fuel (block_at frame.function p size) block_frame s2 exited s' refl
            room ran)
        ∙ ap (λ (q : Ptr). ok (tt, record s3 { ip = q; sp = s3.env_sp })) (drop-behind c 0x0b rest))
