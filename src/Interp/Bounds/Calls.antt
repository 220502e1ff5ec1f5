-- ===== src/Interp/Bounds/Calls.antt =====
-- The entry of a block and the call of a function keep the limits, if the `exec_instructions` that
-- they call does.
use deepvm.Base.{
  ℕ, zero, suc, ◌+◌, ◌≤◌, ◌&&◌, not, Bool, Option, none, some, List, arith, leb, ltb, ok,
  no_builtin,
}
use deepvm.Bytes.{Bytes}
use deepvm.Vm.Int.{is_zero}
use deepvm.Vm.State.{State, ◌>>◌, return, trap, Module, Func, DataSegment, Output, push32}
use deepvm.Vm.Floats.{Floats}
use deepvm.Vm.Keeps.{
  Limits, IsWithin, Ends, stops, ends, Ends-bind, Ends-elim, Keeps, Keeps-bind, Keeps-if, Ends-if,
  Keeps-pop, Keeps-push,
}
use deepvm.Interp.Native.{
  Builtin, puts, puti, putf, putl, putd, isinff, isnanf, isinfd, isnand, find_builtin, native_map,
  call_builtin, puts_segment, print, deep_native_call, import_name,
}
use deepvm.Interp.Exec.{
  Frame, Run, FrameType, is_loop, push_frame, pop_frame, run_again, enter_frame, pass_arguments,
  finish_return, run_body, call_function, params_size, save_sp,
}
use deepvm.Interp.Bounds.Numeric.{Keeps-return, Keeps-lift}
use deepvm.Interp.Bounds.Variables.{Keeps-element}

-- One frame more on the control stack.
abbrev pub deeper : Limits → Limits
deeper c = record c { frames = c.frames + 1 }

-- `exec_instructions`, on a frame that starts inside the stack.
abbrev pub KeepsFrames : Limits → Run → Type 0
KeepsFrames c run = (frame : Frame) → frame.sp ≤ c.sp_end → Keeps (deeper c) (run frame)

module _ (c : Limits) where
  Ends-push_frame : (s : State) → IsWithin c s → Ends (IsWithin (deeper c)) (push_frame s)
  unfolding push_frame
  Ends-push_frame s w =
      Ends-if c (ltb (s.current_frame_index + 1) 100) (λ _. ends (ground arith)) (λ _. stops)

  Ends-pop_frame : (s : State) → IsWithin (deeper c) s → Ends (IsWithin c) (pop_frame s)
  unfolding pop_frame
  Ends-pop_frame s w = ends (ground arith)

  Keeps-finish_return : Keeps c finish_return
  unfolding finish_return
  Keeps-finish_return s w = ends (ground arith)

  Keeps-pass_arguments : (size total : ℕ) → Keeps c (pass_arguments size total)
  unfolding pass_arguments
  Keeps-pass_arguments size total s w =
      Ends-if c (leb total s.env_sp) (λ _. ends (ground arith)) (λ _. stops)

  module _ (run : Run) (frame : Frame) (keeps : Keeps c (run frame)) (type : FrameType) where
    Keeps-run_again : (fuel : ℕ) (exited : Bool) → Keeps c (run_again run frame type fuel exited)
    unfolding run_again
    Keeps-run_again zero exited s w = stops
    Keeps-run_again (suc fuel) exited s w =
        Ends-elim c (not exited && (is_zero s.jump_depth && is_loop type)) (λ _. ends w)
          λ _.
            Ends-bind (λ e s'. run_again run frame type fuel e s') (keeps s w)
              λ e s' w'. Keeps-run_again fuel e s' w'

  Keeps-print : (o : Output) → Keeps c (print o)
  Keeps-print o s w = ends (ground arith)

  Keeps-set_sp : (at : ℕ) → at ≤ c.sp_end → Keeps c (λ s. ok (tt, record s { sp = at }))
  Keeps-set_sp at fits s w = ends (ground arith)

  Keeps-restore :
      (vars : Bytes) (size : ℕ)
      → Keeps c (λ s. ok (tt, record s { local_vars = vars; local_size = size }))
  Keeps-restore vars size s w = ends (ground arith)

  pub Keeps-save_sp : Keeps c save_sp
  Keeps-save_sp s w = ends (ground arith)

  print_push : (o : Output) (x : ℕ) → Keeps c (do print o; push32 x)
  print_push o x = Keeps-bind c _ _ (Keeps-print o) (λ _. Keeps-push c 4 x)

  Keeps-puts_segment : (d : Option DataSegment) → Keeps c (puts_segment d)
  unfolding puts_segment
  Keeps-puts_segment none = Keeps-push c 4 _
  Keeps-puts_segment (some d) = print_push _ 0

  module _ (fl : Floats) (m : Module) where
    Keeps-call_builtin : (f : Builtin) → Keeps c (call_builtin fl m f)
    unfolding call_builtin
    Keeps-call_builtin puts = Keeps-bind c _ _ (Keeps-pop c 4) (λ at. Keeps-puts_segment _)
    Keeps-call_builtin puti = Keeps-bind c _ _ (Keeps-pop c 4) (λ x. print_push _ 0)
    Keeps-call_builtin putf = Keeps-bind c _ _ (Keeps-pop c 4) (λ x. print_push _ 0)
    Keeps-call_builtin putl = Keeps-bind c _ _ (Keeps-pop c 8) (λ x. print_push _ 0)
    Keeps-call_builtin putd = Keeps-bind c _ _ (Keeps-pop c 8) (λ x. print_push _ 0)
    Keeps-call_builtin isinff = Keeps-bind c _ _ (Keeps-pop c 4) (λ x. Keeps-push c 4 _)
    Keeps-call_builtin isnanf = Keeps-bind c _ _ (Keeps-pop c 4) (λ x. Keeps-push c 4 _)
    Keeps-call_builtin isinfd = Keeps-bind c _ _ (Keeps-pop c 8) (λ x. Keeps-push c 4 _)
    Keeps-call_builtin isnand = Keeps-bind c _ _ (Keeps-pop c 8) (λ x. Keeps-push c 4 _)

    Keeps-deep_native_call :
        (name : List ℕ) (frame_sp : ℕ)
        → frame_sp ≤ c.sp_end
        → Keeps c (deep_native_call fl m name frame_sp)
    unfolding deep_native_call
    Keeps-deep_native_call name frame_sp fits = go (find_builtin native_map name)
      where
        go :
            (o : Option Builtin)
            → Keeps c (elim o [
              | none ↦ return tt
              | some f ↦ do
                λ s. ok (tt, record s { sp = frame_sp })
                call_builtin fl m f
                λ s. ok (tt, record s { env_sp = s.sp })
            ])
        go none = Keeps-return c tt
        go (some f) =
            Keeps-bind c _ _ (Keeps-set_sp frame_sp fits)
              λ _. Keeps-bind c _ _ (Keeps-call_builtin f) (λ _. Keeps-save_sp)

module _ (c : Limits) (run : Run) (keeps : KeepsFrames c run) where
  pub enter_frame-Keeps :
      (fuel : ℕ) (block : Func) (type : FrameType) → Keeps c (enter_frame run fuel block type)
  unfolding enter_frame
  enter_frame-Keeps fuel block type s w =
      let frame : Frame = record { sp = s.env_sp; function = block } in
      Ends-bind _ (Ends-push_frame c s w) λ _ s1 w1.
        Ends-bind _ (keeps frame w.env_sp_le s1 w1) λ e s2 w2.
          Ends-bind _
            (Keeps-run_again (deeper c) run frame (keeps frame w.env_sp_le) type fuel e s2 w2)
            λ _ s3 w3. Ends-bind _ (Ends-pop_frame c s3 w3) (λ _ s4 w4. ends w4)

  module _ (fl : Floats) (m : Module) where
    Keeps-run_body :
        (i : ℕ) (frame : Frame) → frame.sp ≤ c.sp_end → Keeps (deeper c) (run_body fl m run i frame)
    unfolding run_body
    Keeps-run_body i frame fits =
        Keeps-if (deeper c) frame.function.is_import _ _ (go (import_name m.import_section 0 i))
          (Keeps-bind (deeper c) _ _ (keeps frame fits) (λ _. Keeps-return (deeper c) tt))
      where
        go :
            (o : Option (List ℕ))
            → Keeps (deeper c) {A = Unit {0}} (elim o [
              | none ↦ trap no_builtin
              | some name ↦ deep_native_call fl m name frame.sp
            ])
        go none s w = stops
        go (some name) s w = Keeps-deep_native_call (deeper c) fl m name frame.sp fits s w

    pub call_function-Keeps : (i : ℕ) → Keeps c (call_function fl m run i)
    unfolding call_function
    call_function-Keeps i s w = Ends-bind _ (Keeps-element c m.func_section i s w) λ func s1 w1.
        Ends-bind _ (Keeps-element c func.local_var_offsets _ s1 w1) λ size s2 w2.
          Ends-bind _ (Keeps-lift c (params_size func.func_type.params) s2 w2) λ total s3 w3.
            Ends-bind _ (Keeps-pass_arguments c size total s3 w3) λ _ s4 w4.
              Ends-bind _ (Ends-push_frame c s4 w4) λ _ s5 w5.
                Ends-bind _ (Keeps-run_body i _ w.env_sp_le s5 w5) λ _ s6 w6.
                  Ends-bind _ (Keeps-finish_return (deeper c) s6 w6) λ _ s7 w7.
                    Ends-bind _ (Ends-pop_frame c s7 w7)
                      λ _ s8 w8. Keeps-restore c s.local_vars s.local_size s8 w8
