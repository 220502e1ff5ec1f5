-- ===== src/Interp/Tests.antt =====
-- Small programs, run from their bytes.
mod Blocks
mod Runs
mod Steps
use deepvm.Base.{
  ℕ, ◌≡◌, refl, Bool, true, false, Option, none, some, List, [], ◌∷◌, Result, ok, err, Trap, ◌>>=◌,
  unknown_opcode, length,
}
use deepvm.Leb.{read_leb_u32, leb_u_loop, read_leb_i32, read_leb_i64, leb_s_loop}
use deepvm.Opcode.Table.{opcode_of}
use deepvm.Bytes.{read_mem, write_mem, memcpy}
use deepvm.Vm.State.{Module, Func, FuncType, Export, read_byte, read_value, pop, push}
use deepvm.Vm.Words.{int_binary_op, int_compare_op}
use deepvm.Vm.Floats.{Floats, FloatArith}
use deepvm.Interp.ReadBlock.{read_block, shape_of}
use deepvm.Interp.Exec.{
  exec_instructions, exec_loop, start_frame, exec_instruction, exec_opcode, exec_control,
  exec_block, exec_if, exec_call, call_function, enter_frame, exec_br, exec_br_if, exec_return,
}
use deepvm.Interp.Instructions.{
  exec_const, exec_int_binary, exec_int_compare, exec_local_get, exec_local_set, local_slot,
  copy_to_stack, copy_from_stack, element,
}
use deepvm.Interp.Main.{run_module, call_main, initial_state}

-- Floating point that the programs here do not use.
abbrev pub no_arith : FloatArith
no_arith = record {
  fadd = λ a b. 0;
  fsub = λ a b. 0;
  fmul = λ a b. 0;
  fdiv = λ a b. 0;
  feq = λ a b. false;
  flt = λ a b. false;
  fle = λ a b. false;
  fneg = λ a. 0;
  fabs = λ a. 0;
  fceil = λ a. 0;
  ffloor = λ a. 0;
  ftrunc = λ a. 0;
  fround = λ a. 0;
  fsqrt = λ a. 0;
  fcopysign = λ a b. 0;
  fisinf = λ a. 0;
  fisnan = λ a. 0;
  to_i32 = λ a. none;
  to_u32 = λ a. none;
  to_i64 = λ a. none;
  to_u64 = λ a. none;
  of_i32 = λ a. 0;
  of_u32 = λ a. 0;
  of_i64 = λ a. 0;
  of_u64 = λ a. 0;
}

abbrev pub no_floats : Floats
no_floats = record { single = no_arith; double = no_arith; demote = λ a. 0; promote = λ a. 0 }

abbrev pub program : List ℕ → List ℕ → Module
program code offsets = record {
  type_section = [];
  import_function_count = 0;
  import_table_count = 0;
  import_memory_count = 0;
  import_global_count = 0;
  func_section =
      record {
        func_type = record { params = []; results = 0x7f ∷ [] };
        code_size = length code;
        code_begin = code;
        local_var_offsets = offsets;
        is_import = false;
      }
      ∷ [];
  export_section = record { name = b'm' ∷ b'a' ∷ b'i' ∷ b'n' ∷ []; index = 0; tag = 0 } ∷ [];
  import_section = [];
  data_section = [];
  global_section = [];
  memory = none;
  table = none;
  elem_section = [];
  start_index = 0;
  has_start = false;
}

result_of : List ℕ → List ℕ → Result (Option ℕ)
result_of code offsets = elim (run_module no_floats (program code offsets) 200) [
  | err e ↦ err e
  | ok (r, s) ↦ ok r
]

-- i = 5; do { sum += i; i -= 1 } while (i); sum
abbrev sum_loop : List ℕ
sum_loop =
    0x41 ∷ 5 ∷ 0x21 ∷ 0 ∷ 0x03 ∷ 0x40 ∷ 0x20 ∷ 1 ∷ 0x20 ∷ 0 ∷ 0x6a ∷ 0x21 ∷ 1 ∷ 0x20 ∷ 0 ∷ 0x41 ∷ 1
    ∷ 0x6b ∷ 0x22 ∷ 0 ∷ 0x0d ∷ 0 ∷ 0x0b ∷ 0x20 ∷ 1 ∷ 0x0b ∷ []

sum_loop_result : Result (Option ℕ)
sum_loop_result = result_of sum_loop (0 ∷ 4 ∷ 8 ∷ [])
