-- ===== src/Interp/Behaviour/Entries.antt =====
-- The entry of a block and the call of a function, where the code that is entered comes to its end.
use deepvm.Base.{
  ℕ, suc, ◌+◌, ◌-◌, ◌≤◌, ◌<◌, ◌≡◌, refl, ◌∙◌, Bool, true, false, ◌&&◌, drop, ltb, lt→ltb, leb,
  le→leb, arith, Result, ok, get_elem?, some, List, length, if◌then◌else◌,
}
use deepvm.Bytes.{memcpy, zeroed}
use deepvm.Vm.Int.{pos, is_negative, is_zero}
use deepvm.Vm.State.{State, M, ◌>>=◌, return, Func, Module}
use deepvm.Vm.Floats.{Floats}
use deepvm.Vm.Steps.{>>=-ok}
use deepvm.Interp.Instructions.{element, lift}
use deepvm.Interp.Exec.{
  Frame, Run, FrameType, is_loop, push_frame, pop_frame, run_again, enter_frame, call_function,
  params_size, pass_arguments, finish_return, run_body,
}

push_frame-ok :
    (s : State)
    → s.current_frame_index < 99
    → push_frame s ≡ ok (tt, record s { current_frame_index = s.current_frame_index + 1 })
unfolding push_frame
push_frame-ok s room =
    let free : ltb (s.current_frame_index + 1) 100 ≡ true = lt→ltb _ _ (omega arith) in rw free

-- A block that is not a loop's is not run again.
run_again-once :
    (run : Run) (frame : Frame) (type : FrameType) (fuel : ℕ) (exited : Bool) (s : State)
    → is_loop type ≡ false
    → run_again run frame type (suc fuel) exited s ≡ ok (tt, s)
unfolding run_again
run_again-once run frame type fuel true s once = refl
run_again-once run frame type fuel false s once =
    let ends : (is_zero s.jump_depth && is_loop type) ≡ false = rw once (and_false _) in
    rw (ends, run_again)
  where
    and_false : (b : Bool) → (b && false) ≡ false
    and_false true = refl
    and_false false = refl

-- A block that is not a loop's is run once, from the saved `sp` and one frame deeper, whether it
-- comes to its end or jumps; the result is the pointer behind its code.
pub enter_frame-once :
    (run : Run) (fuel : ℕ) (block : Func) (type : FrameType) (s : State) (exited : Bool)
    (s' : State)
    → is_loop type ≡ false
    → s.current_frame_index < 99
    → run
        (record { sp = s.env_sp; function = block })
        (record s { current_frame_index = s.current_frame_index + 1 })
      ≡ ok (exited, s')
    → enter_frame run (suc fuel) block type s
      ≡ ok (
        drop block.code_size block.code_begin,
        record s' { current_frame_index = s'.current_frame_index - 1 },
      )
unfolding enter_frame pop_frame
enter_frame-once run fuel block type s exited s' once room ran =
    let frame : Frame = record { sp = s.env_sp; function = block } in
    >>=-ok push_frame _ s (push_frame-ok s room)
    ∙ (>>=-ok (run frame) _ (record s { current_frame_index = s.current_frame_index + 1 }) ran
        ∙ >>=-ok (run_again run frame type (suc fuel) exited) _ s'
            (run_again-once run frame type fuel exited s' once))

pass_arguments-ok :
    (size total : ℕ) (s : State)
    → total ≤ s.env_sp
    → pass_arguments size total s
      ≡ ok (
        tt,
        record s {
          local_vars = memcpy zeroed 0 s.stack (s.env_sp - total) total;
          local_size = size;
        },
      )
unfolding pass_arguments
pass_arguments-ok size total s deep = let e : leb total s.env_sp ≡ true = le→leb _ _ deep in rw e

element-ok :
    {A : Type 0} (xs : List A) (i : ℕ) (s : State) {x : A}
    → get_elem? xs i ≡ some x
    → element xs i s ≡ ok (x, s)
unfolding element
element-ok xs i s h = rw (h, element)

pub lift-ok : {A : Type 0} (r : Result A) (s : State) {a : A} → r ≡ ok a → lift r s ≡ ok (a, s)
lift-ok r s h = rw (h, lift)

skips : {A : Type 0} (b : Bool) (x y : M A) (s : State) → b ≡ false → (if b then x else y) s ≡ y s
skips b x y s h = rw h

run_body-own :
    (fl : Floats) (m : Module) (run : Run) (i : ℕ) (frame : Frame) (s : State) {b : Bool}
    {s' : State}
    → frame.function.is_import ≡ false
    → run frame s ≡ ok (b, s')
    → run_body fl m run i frame s ≡ ok (tt, s')
unfolding run_body
run_body-own fl m run i frame s own ends =
    skips frame.function.is_import _ (run frame >>= λ _. return tt) s own
    ∙ >>=-ok (run frame) (λ _. return tt) s ends

-- The state in which a called function's code starts: a frame deeper, with its arguments copied
-- into its own local variables.
abbrev pub callee_state : ℕ → ℕ → State → State
callee_state size total s = record s {
  local_vars = memcpy zeroed 0 s.stack (s.env_sp - total) total;
  local_size = size;
  current_frame_index = s.current_frame_index + 1;
}

-- A call of one of the module's own functions starts its code above the arguments, and ends with
-- the operand stack that this code leaves: nothing takes the arguments off it. The caller has its
-- local variables back and is one frame less deep, and a jump out of the function, a return,
-- ends with the call.
pub call_function-returns :
    (fl : Floats) (m : Module) (run : Run) (i size total : ℕ) (f : Func) (s : State) (exited : Bool)
    (s' : State)
    → get_elem? m.func_section i ≡ some f
    → get_elem? f.local_var_offsets (length f.local_var_offsets - 1) ≡ some size
    → params_size f.func_type.params ≡ ok total
    → f.is_import ≡ false
    → total ≤ s.env_sp
    → s.current_frame_index < 99
    → run (record { sp = s.env_sp; function = f }) (callee_state size total s) ≡ ok (exited, s')
    → call_function fl m run i s
      ≡ ok (
        tt,
        record s' {
          jump_depth = if is_negative s'.jump_depth then pos 0 else s'.jump_depth;
          current_frame_index = s'.current_frame_index - 1;
          local_vars = s.local_vars;
          local_size = s.local_size;
        },
      )
unfolding call_function finish_return pop_frame
call_function-returns fl m run i size total f s exited s' is_f is_size is_total own deep room ran =
    let s1 : State = record s {
      local_vars = memcpy zeroed 0 s.stack (s.env_sp - total) total;
      local_size = size;
    } in
    let frame : Frame = record { sp = s.env_sp; function = f } in
    >>=-ok (element m.func_section i) _ s (element-ok _ i s is_f)
    ∙ (>>=-ok (element f.local_var_offsets (length f.local_var_offsets - 1)) _ s
          (element-ok _ _ s is_size)
        ∙ (>>=-ok (lift (params_size f.func_type.params)) _ s (lift-ok _ s is_total)
            ∙ (>>=-ok (pass_arguments size total) _ s (pass_arguments-ok size total s deep)
                ∙ (>>=-ok push_frame _ s1 (push_frame-ok s1 room)
                    ∙ >>=-ok (run_body fl m run i frame) _ (callee_state size total s)
                        (run_body-own fl m run i frame (callee_state size total s) own ran)))))
