-- ===== src/Lib.antt =====
-- DeepVM, a WebAssembly 1.0 interpreter in C: a model of its interpreter, its loader and a part
-- of its assembler, and what holds of them.
--
-- The program loads a module (src/deep_loader.c), sets an environment up (src/deep_main.c) and
-- interprets the function `main` (src/deep_interp.c). An assembler (src/deep_wat.c) makes modules
-- out of text. The interpreter works on the bytes of the code: it has no decoded form, and finds
-- the end of a block by a scan (`read_block`). A block, a branch of an `if`, a loop and a called
-- function are each run by a recursive `exec_instructions`; jumps are a number of levels to leave
-- (`jump_depth`), negative for a return.
--
-- The files, and the code that they model:
--   Base: tests, lists, results, bits and words that the others share.
--   Leb: `read_leb_u32`, `read_leb_i32` and `read_leb_i64` of src/deep_loader.c.
--     Leb/Write: `bb_put_leb_u32`, `bb_put_leb_s32` and `bb_put_leb_s64` of src/deep_wat.c.
--     Leb/Unsigned, Leb/Signed: the readers behind the writers; the signed ones by Leb/Rounds,
--     Leb/Positive and Leb/Negative.
--   Opcode: the enumeration of include/deep_opcode.h, as data (Kinds) and by its bytes (Table).
--   Bytes: memory and its words (`read_mem8` … `write_mem64`, `memcpy`).
--   Vm/State: the records of include/deep_loader.h and include/deep_interp.h, the operand stack.
--   Vm/Int, Vm/Words, Vm/Floats: what the instructions compute on words. Vm/Order and Vm/Zeros are
--     about the comparisons and the counts of zeros, Vm/Keeps and Vm/Steps are rules for proofs.
--   Wat: the assembler of src/deep_wat.c, from the text to the bytes.
--     Wat/Tokens: `tokenize`. Wat/Trees: `parse_one`. Wat/Source: both, as in
--     `deep_wat_compile_file`. Wat/Numbers: `parse_int_lit`. Wat/Types: `find_or_add_type`.
--     Wat/Forms: `parse_type_form` and `register_func_type`. Wat/Strings: `strcmp`.
--     Wat/Scopes: `resolve_name` and `resolve_label_depth`. Wat/Mnemonics: `MNEMONICS`,
--     `lookup_opcode` and `valtype_from_str`; Mnemonics/Words has the names that the text format gives
--     to the instructions, to compare the table with (Known, Complete).
--     Wat/Sections, Wat/Bodies, Wat/Modules: the sections, the code section and the whole module that
--     `assemble_module` writes.
--   Loader: `deep_load` of src/deep_loader.c.
--     Loader/Reader: reading from a pointer that moves on. Loader/Sections, Loader/Locals and
--     Loader/Functions: the decoders. Loader/List: `create_section_list`. Loader/Load:
--     `decode_each_sections` and `deep_load`.
--     Loader/Linked, Loader/Assembled: the list of sections, and the walks over it. Loader/Reads and
--     Loader/RoundTrip: the decoders on the sections that the assembler writes, one by one, and a
--     whole module (RoundTrip/Loaded).
--   Interp/ReadBlock: `read_block`. ReadBlock/Code is well nested code and its bytes, as far
--   as `read_block` reads them: without `f64_add` … `f64_copysign`, and with immediates that are
--   LEB128 numbers of at most five bytes, those of constants included.
--   Interp/Instructions: the cases of the `switch` for memory, variables and numbers.
--   Interp/Native: the built-in functions and `deep_native_call`.
--   Interp/Exec: `enter_frame` and `call_function` (Calls), the control instructions (Control), and
--     the loop of `exec_instructions` (Loop).
--   Interp/Main: `call_main`, and the part of `main` that sets the environment up.
--   Interp/Bounds: what every instruction keeps.
--   Interp/Behaviour: what single instructions, blocks and calls do.
--
-- How it is modelled. A pointer into the code is the list of the bytes from it on. A stack pointer
-- is an offset from the stack's start, a memory is a function from addresses to bytes, a word of w
-- bits is a number below 2 ^ w, and words are little-endian. A computation takes the state and
-- gives a new one or a trap: an error with which the source stops the program, or `undefined`
-- where the source would leave what C defines (an access outside an array, a signed division
-- that overflows). The source makes few checks, so `undefined` says where one is missing.
--
-- Fuel. `read_block` has a round for each byte and one more, which is enough, since each round
-- passes over a byte. A writer of LEB128 has five or ten bytes, as many as its word needs.
-- Running code need not end: `exec_instructions` takes fuel for the depth and the length of the
-- run, and is `out_of_fuel` without it. What is said of a run holds for every fuel.
-- The walks over the list of sections have fuel too, since the list may have no end; as many rounds
-- as there are sections are enough where it has one. `tokenize` has a round for each token and each
-- space, a string a round for each of its bytes, and `parse_one` fuel for twice its tokens.
--
-- Parameters. `Floats` stands for the arithmetic of `float` and `double` in C, and `Number` for what
-- `strtol` reads.
--
-- What is not modelled: the allocator of src/deep_mem.c (allocation is taken to succeed, and only
-- `deep_realloc` is modelled), `module_free`, which only releases memory, a second import section, the
-- gathering of the forms and the emission of instructions by the assembler, `read_leb_u64`, which
-- nothing calls, logging, and the command line.

pub mod Base
pub mod Leb
pub mod Opcode
pub mod Bytes
pub mod Vm
pub mod Wat
pub mod Loader
pub mod Interp
