-- ===== src/Interp/Bounds/Loop.antt =====
-- The loop of `exec_instructions` keeps the limits.
use deepvm.Base.{ℕ, zero, suc, ◌≤◌, ◌≡◌, Bool, length, arith, ltb, ok}
use deepvm.Leb.{Ptr}
use deepvm.Vm.Int.{is_zero}
use deepvm.Vm.State.{State, Module}
use deepvm.Vm.Floats.{Floats}
use deepvm.Vm.Keeps.{Limits, IsWithin, stops, ends, Ends-bind, Ends-elim, Keeps, Ends-ok}
use deepvm.Interp.Exec.{Frame, start_frame, exec_loop, exec_instructions}
use deepvm.Interp.Bounds.Calls.{deeper}
use deepvm.Interp.Bounds.Control.{exec_instruction-Keeps}

-- A frame that starts inside the stack starts within the limits.
start_frame-IsWithin :
    (fl : Floats) (m : Module) (c : Limits) (frame : Frame) {s : State}
    → frame.sp ≤ c.sp_end
    → IsWithin c s
    → IsWithin c (start_frame fl m frame s)
unfolding start_frame
start_frame-IsWithin fl m c frame fits w = ground arith

exec_loop-Keeps :
    (fl : Floats) (m : Module) (fuel : ℕ) (c : Limits) (frame : Frame) (ip_end : Ptr)
    → Keeps c (exec_loop fl m fuel frame ip_end)
unfolding exec_loop
exec_loop-Keeps fl m zero c frame ip_end s w = stops
exec_loop-Keeps fl m (suc fuel) c frame ip_end s w =
    Ends-elim c (is_zero s.jump_depth) (λ _. ends (ground arith))
      λ _.
        Ends-elim c (ltb (length ip_end) (length s.ip)) (λ _. ends (ground arith))
          λ _.
            Ends-bind _
              (exec_instruction-Keeps c fl m _
                (λ i fits s1 w1.
                  exec_loop-Keeps fl m fuel (deeper c) i _ _
                    (start_frame-IsWithin fl m (deeper c) i fits w1))
                fuel frame s w)
              λ _ s' w'.
                Ends-elim c (ltb s'.sp_end s'.sp)
                  (λ _. exec_loop-Keeps fl m fuel c frame ip_end s' w') (λ _. ends w')

pub exec_instructions-Keeps :
    (fl : Floats) (m : Module) (c : Limits) (fuel : ℕ) (frame : Frame)
    → frame.sp ≤ c.sp_end
    → Keeps c (exec_instructions fl m fuel frame)
unfolding exec_instructions
exec_instructions-Keeps fl m c fuel frame fits s w =
    exec_loop-Keeps fl m fuel c frame _ _ (start_frame-IsWithin fl m c frame fits w)

-- Whatever code runs, from a frame that starts inside the operand stack: if it comes to an end then
-- both stack pointers are inside the stack, the control stack is as high as before, and the
-- stack's end, the sizes of the memory, the number of globals and the table are as they were.
pub exec_instructions-IsWithin :
    (fl : Floats) (m : Module) (c : Limits) (fuel : ℕ) (frame : Frame) (s : State) {b : Bool}
    {s' : State}
    → frame.sp ≤ c.sp_end
    → IsWithin c s
    → exec_instructions fl m fuel frame s ≡ ok (b, s')
    → IsWithin c s'
exec_instructions-IsWithin fl m c fuel frame s fits w ran =
    Ends-ok (rw ran at (exec_instructions-Keeps fl m c fuel frame fits s w))
