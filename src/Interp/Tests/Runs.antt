-- ===== src/Interp/Tests/Runs.antt =====
-- Concrete runs of the interpreter, from the state of `before`.
use deepvm.Base.{
  ◌-◌, ◌^◌, ◌≡◌, refl, true, false, [], ◌∷◌, ◌++◌, some, if◌then◌else◌, arith, Result, ok, err,
}
use deepvm.Leb.{Ptr, read_leb_i32, leb_s_loop}
use deepvm.Leb.Write.{bb_put_leb_u32, put_leb_u}
use deepvm.Bytes.{zeroed, read_mem, write_mem}
use deepvm.Opcode.Table.{opcode_of}
use deepvm.Vm.Int.{pos, is_negative}
use deepvm.Vm.State.{State, pop, push, read_byte, Func, Module}
use deepvm.Vm.Words.{int_binary_op}
use deepvm.Vm.Keeps.{Limits, IsWithin}
use deepvm.Interp.ReadBlock.Code.{Code, stop, leb, encode, IsWellFormed}
use deepvm.Interp.ReadBlock.{shape_at}
use deepvm.Interp.Instructions.{exec_const, exec_int_binary}
use deepvm.Interp.Exec.{
  Frame, Run, block_frame, exec_instructions, exec_loop, start_frame, exec_instruction, exec_opcode,
  exec_control, exec_block, exec_if, call_function, block_at, params_size,
}
use deepvm.Interp.Bounds.Loop.{exec_instructions-IsWithin}
use deepvm.Interp.Behaviour.Entries.{callee_state, call_function-returns}
use deepvm.Interp.Behaviour.Branching.{if_bytes, exec_if-takes_branch, exec_block-runs_once}
use deepvm.Interp.Main.{
  run_module, call_main, find_main, main_result, top_word, first_result, initial_state,
  initial_pages, initial_table,
}
use deepvm.Interp.Native.{same_string, same_bytes, c_string}
use deepvm.Interp.Bounds.Start.{start_limits, run_module-IsWithin}
use deepvm.Interp.Instructions.{element}
use deepvm.Interp.Tests.{no_floats, program}
use deepvm.Interp.Tests.Steps.{before}

state_of : {A : Type 0} → Result (A × State) → State
state_of (ok (a, s)) = s
state_of (err e) = before 0

-- i32.const 5; i32.const 7; i32.add; end
abbrev addition : Ptr
addition = 0x41 ∷ 5 ∷ 0x41 ∷ 7 ∷ 0x6a ∷ 0x0b ∷ []

abbrev adder : Func
adder = record {
  func_type = record { params = 0x7f ∷ []; results = 0x7f ∷ [] };
  code_size = 6;
  code_begin = addition;
  local_var_offsets = 0 ∷ 4 ∷ [];
  is_import = false;
}

abbrev whole : Module
whole = record (program [] []) { func_section = adder ∷ [] }

abbrev limits : Limits
limits = record {
  sp_end = 800;
  memory_size = 65536;
  memory_pages = 1;
  globals = 0;
  table = some (0 ∷ (2 ^ 32 - 1) ∷ []);
  frames = 0;
}

before-IsWithin : (p : Ptr) → IsWithin limits (record (before 9) { ip = p })
before-IsWithin p = record {
  sp_le = omega arith;
  env_sp_le = omega arith;
  same_end = refl;
  same_size = refl;
  same_pages = refl;
  same_globals = refl;
  same_table = refl;
  same_frames = refl;
}

abbrev running : Run
running = exec_instructions no_floats whole 20

exec_instructions-IsWithin_example :
    IsWithin limits (state_of (running (record { sp = 8; function = adder }) (before 9)))
unfolding exec_instructions exec_loop start_frame exec_instruction opcode_of read_byte exec_opcode
    exec_control exec_const exec_int_binary read_leb_i32 leb_s_loop push pop int_binary_op read_mem
    write_mem state_of
exec_instructions-IsWithin_example =
    exec_instructions-IsWithin no_floats whole limits 20 (record { sp = 8; function = adder })
      (before 9) (omega arith) (before-IsWithin []) refl

abbrev argument : State
argument = record (before 9) { env_sp = 8 }

called : State
unfolding state_of
called = state_of (running (record { sp = 8; function = adder }) (callee_state 4 4 argument))

call_function-returns_example :
    call_function no_floats whole running 0 argument
    ≡ ok (
      tt,
      record called {
        jump_depth = if is_negative called.jump_depth then pos 0 else called.jump_depth;
        current_frame_index = called.current_frame_index - 1;
        local_vars = zeroed;
        local_size = 0;
      },
    )
unfolding called state_of exec_instructions exec_loop start_frame exec_instruction opcode_of
    read_byte exec_opcode exec_control exec_const exec_int_binary read_leb_i32 leb_s_loop push pop
    int_binary_op read_mem write_mem params_size
call_function-returns_example =
    call_function-returns no_floats whole running 0 4 4 adder argument true called refl refl refl
      refl (omega arith) (omega arith) refl

-- i32.const 5 before the end of a block
abbrev five : Code
five = leb 0x41 (5 ∷ []) stop

five-IsWellFormed : IsWellFormed five
unfolding shape_at opcode_of
five-IsWellFormed = (refl, refl, tt)

abbrev outer : Frame
outer = record { sp = 0; function = adder }

abbrev inner : Func
inner = block_at adder (0x41 ∷ 5 ∷ 0x0b ∷ 0x01 ∷ []) 3

in_block : State
unfolding state_of
in_block = state_of (
    running (record { sp = 8; function = inner })
      (record (before 9) { ip = 0x41 ∷ 5 ∷ 0x0b ∷ 0x01 ∷ []; env_sp = 8; current_frame_index = 1 }))

exec_block-runs_once_example :
    exec_block no_floats whole running 2 outer block_frame
      (record (before 9) { ip = 0x40 ∷ (encode five ++ (0x0b ∷ 0x01 ∷ [])) })
    ≡ ok (
      tt,
      record in_block {
        ip = 0x01 ∷ [];
        sp = in_block.env_sp;
        current_frame_index = in_block.current_frame_index - 1;
      },
    )
unfolding in_block state_of exec_instructions exec_loop start_frame exec_instruction opcode_of
    read_byte exec_opcode exec_control exec_const read_leb_i32 leb_s_loop push write_mem encode
    bb_put_leb_u32 put_leb_u
exec_block-runs_once_example =
    exec_block-runs_once no_floats whole running 1 outer (before 9) 0x40 five (0x01 ∷ []) true
      in_block five-IsWellFormed tt (omega arith) refl

in_branch : State
unfolding state_of
in_branch = state_of (
    running
      (record {
        sp = 8;
        function = block_at adder (0x41 ∷ 5 ∷ 0x05 ∷ 0x41 ∷ 5 ∷ 0x0b ∷ 0x01 ∷ []) 3;
      })
      (record (before 9) {
        ip = 0x41 ∷ 5 ∷ 0x05 ∷ 0x41 ∷ 5 ∷ 0x0b ∷ 0x01 ∷ [];
        env_sp = 8;
        sp = 4;
        current_frame_index = 1;
      }))

exec_if-takes_branch_example :
    exec_if no_floats whole running 2 outer
      (record (before 9) { ip = if_bytes 0x40 five five (0x01 ∷ []) })
    ≡ ok (
      tt,
      record in_branch {
        ip = 0x01 ∷ [];
        sp = in_branch.env_sp;
        current_frame_index = in_branch.current_frame_index - 1;
      },
    )
unfolding in_branch state_of exec_instructions exec_loop start_frame exec_instruction opcode_of
    read_byte exec_opcode exec_control exec_const read_leb_i32 leb_s_loop push write_mem encode
    bb_put_leb_u32 put_leb_u read_mem
exec_if-takes_branch_example =
    exec_if-takes_branch no_floats whole running 1 outer (before 9) 0x40 five five (0x01 ∷ []) true
      in_branch five-IsWellFormed tt five-IsWellFormed tt (omega arith) (omega arith) refl

-- A module whose `main` is the addition, run from the start.
abbrev adding : Module
adding = record (program addition (0 ∷ 4 ∷ [])) { func_section = adder ∷ [] }

run_module-IsWithin_example :
    IsWithin (start_limits adding) (state_of (run_module no_floats adding 20))
unfolding run_module call_main find_main same_string same_bytes c_string main_result top_word
    first_result initial_state initial_pages initial_table element exec_instructions exec_loop
    start_frame exec_instruction opcode_of read_byte exec_opcode exec_control exec_const
    exec_int_binary read_leb_i32 leb_s_loop push pop int_binary_op read_mem write_mem state_of
run_module-IsWithin_example = run_module-IsWithin no_floats adding 20 refl
