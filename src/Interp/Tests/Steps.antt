-- ===== src/Interp/Tests/Steps.antt =====
-- Concrete single instructions, on a stack of two words of which the upper one is given.
use deepvm.Base.{
  ℕ, zero, suc, List, ◌+◌, ◌-◌, ◌*◌, ◌%◌, ◌^◌, ◌≡◌, refl, inr, true, false, [], ◌∷◌, ◌++◌, some,
  ◌==◌, if◌then◌else◌, arith, ok, err, undefined_element, uninitialized_element, u32,
}
use deepvm.Leb.Write.{bb_put_leb_u32}
use deepvm.Bytes.{Bytes, zeroed, read_mem, write_mem}
use deepvm.Vm.Int.{pos, signed}
use deepvm.Vm.State.{State, ◌>>◌, pop, push}
use deepvm.Interp.Instructions.{exec_memory_grow, load_bytes, store_bytes}
use deepvm.Interp.Exec.{Frame, Run, exec_br_table, exec_call_indirect}
use deepvm.Interp.Tests.{no_floats, program}
use deepvm.Interp.Behaviour.Operands.{pop-push, load_bytes-store_bytes}
use deepvm.Interp.Behaviour.Growth.{exec_memory_grow-fails}
use deepvm.Interp.Behaviour.Indirect.{exec_call_indirect-undefined}
use deepvm.Interp.Behaviour.Unset.{exec_call_indirect-unset}
use deepvm.Interp.Main.{initial_table}
use deepvm.Vm.State.{Module}
use deepvm.Interp.Behaviour.Branches.{
  exec_br_table-target, exec_br_table-default, exec_br_table-wraps,
}

abbrev pub upper_word : ℕ → Bytes
upper_word x i = if i == 4 then x else 0

abbrev pub before : ℕ → State
before x = record {
  ip = [];
  sp = 8;
  env_sp = 0;
  stack = upper_word x;
  sp_end = 800;
  local_vars = zeroed;
  local_size = 0;
  global_vars = [];
  memory = zeroed;
  memory_size = 65536;
  memory_pages = 1;
  table = some (0 ∷ (2 ^ 32 - 1) ∷ []);
  current_frame_index = 0;
  jump_depth = pos 0;
  output = [];
}

abbrev frame : Frame
frame = record {
  sp = 0;
  function = record {
    func_type = record { params = []; results = [] };
    code_size = 1;
    code_begin = 0x0b ∷ [];
    local_var_offsets = 0 ∷ [];
    is_import = false;
  };
}

abbrev no_run : Run
no_run f s = ok (true, s)

pop-push_example :
    (push 4 70000 >> pop 4) (before 0)
    ≡ ok (70000 % 2 ^ (8 * 4), record (before 0) { stack = write_mem 4 (upper_word 0) 70000 8 })
pop-push_example = pop-push 4 70000 (before 0) (omega arith)

load_bytes-store_bytes_example :
    ((store_bytes 2 10 70000 >> load_bytes 2 10) (before 0)
      ≡ ok (70000 % 2 ^ (8 * 2), record (before 0) { memory = write_mem 2 zeroed 70000 10 }))
    × ((store_bytes 2 10 70000 >> load_bytes 4 12) (before 0)
        ≡ ok (read_mem 4 zeroed 12, record (before 0) { memory = write_mem 2 zeroed 70000 10 }))
load_bytes-store_bytes_example =
    load_bytes-store_bytes 2 10 70000 4 12 (before 0) (omega arith) (omega arith)
      (inr (omega arith))

exec_memory_grow-fails_example :
    exec_memory_grow (record (before 3) { ip = bb_put_leb_u32 0 ++ (0x0b ∷ []) })
    ≡ ok (
      tt,
      record (before 3) {
        ip = 0x0b ∷ [];
        stack =
            write_mem 4
              (upper_word 3)
              (if read_mem 4 (upper_word 3) (8 - 4) == 0 then 1 else 2 ^ 32 - 1)
              (8 - 4);
        sp = 8 - 4 + 4;
      },
    )
exec_memory_grow-fails_example =
    exec_memory_grow-fails 0 (0x0b ∷ []) (before 3) (omega arith) (omega arith) (omega arith)

exec_call_indirect-undefined_example :
    exec_call_indirect no_floats
      (program [] [])
      no_run
      5
      frame
      (record (before 2) { ip = bb_put_leb_u32 0 ++ (0 ∷ 0x0b ∷ []) })
    ≡ err undefined_element
unfolding read_mem
exec_call_indirect-undefined_example =
    exec_call_indirect-undefined no_floats (program [] []) no_run 5 frame 0 0 (0x0b ∷ []) (before 2)
      (0 ∷ (2 ^ 32 - 1) ∷ []) (omega arith) (omega arith) (inr (refl, refl))

-- A table of two entries, of which a segment sets the first one.
abbrev half_set : Module
half_set = record (program [] []) {
  table = some (record { element_type = 0x70; min = 2; max = 0; has_max = false });
  elem_section = record { table_index = 0; offset = 0; func_indices = 7 ∷ [] } ∷ [];
}

exec_call_indirect-unset_example :
    exec_call_indirect no_floats half_set no_run 5 frame (record (before 1) {
      ip = bb_put_leb_u32 0 ++ (0 ∷ 0x0b ∷ []);
      table = initial_table half_set;
    })
    ≡ err uninitialized_element
unfolding read_mem
exec_call_indirect-unset_example =
    exec_call_indirect-unset no_floats half_set no_run 5 frame 0 0 (0x0b ∷ [])
      (record (before 1) { table = initial_table half_set })
      (record { element_type = 0x70; min = 2; max = 0; has_max = false }) (omega arith)
      (omega arith) refl refl (omega arith) ((omega arith, inr (omega arith)), tt)

exec_br_table-target_example :
    exec_br_table (record (before 1) { ip = bb_put_leb_u32 2 ++ ((3 ∷ 5 ∷ []) ++ (9 ∷ 0x0b ∷ [])) })
    ≡ ok
        (tt, record (before 1) { ip = 0x0b ∷ []; sp = 8 - 4; jump_depth = signed 32 (u32 (5 + 1)) })
unfolding read_mem
exec_br_table-target_example =
    exec_br_table-target (3 ∷ 5 ∷ []) 9 5 (0x0b ∷ []) (before 1) (omega arith) (omega arith)
      (omega arith) refl

exec_br_table-default_example :
    exec_br_table (record (before 2) { ip = bb_put_leb_u32 2 ++ ((3 ∷ 5 ∷ []) ++ (9 ∷ 0x0b ∷ [])) })
    ≡ ok (
      tt,
      record (before 2) { ip = 0x0b ∷ []; sp = 8 - 4; jump_depth = signed 32 (u32 (0x0b + 1)) },
    )
unfolding read_mem
exec_br_table-default_example =
    exec_br_table-default (3 ∷ 5 ∷ []) 9 0x0b [] (before 2) (omega arith) (omega arith)
      (omega arith) (omega arith)

abbrev zeros : ℕ → List ℕ
zeros zero = []
zeros (suc n) = 0 ∷ zeros n

-- As many as make a table of 255 targets with the first one.
abbrev many_targets : List ℕ
many_targets = zeros 254

exec_br_table-wraps_example :
    exec_br_table
      (record (before 1) { ip = bb_put_leb_u32 255 ++ (6 ∷ (many_targets ++ (0 ∷ 0x0b ∷ []))) })
    ≡ ok (
      tt,
      record (before 1) {
        ip = 6 ∷ (many_targets ++ (0 ∷ 0x0b ∷ []));
        sp = 8 - 4;
        jump_depth = signed 32 (u32 (6 + 1));
      },
    )
exec_br_table-wraps_example =
    exec_br_table-wraps 6 many_targets (0 ∷ 0x0b ∷ []) (before 1) (omega arith) refl (omega arith)
