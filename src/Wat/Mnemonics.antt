-- ===== src/Wat/Mnemonics.antt =====
-- The instructions that src/deep_wat.c knows by name (`MNEMONICS`, `lookup_opcode`), and the value
-- types (`valtype_from_str`).
mod Names
pub mod Words
pub mod Known
pub mod Complete
use deepvm.Base.{ℕ, Option, none, some, List, [], ◌∷◌, ◌++◌, if◌then◌else◌}
use deepvm.Interp.Native.{same_string}
use Names.{
  control_mnemonics, memory_mnemonics, const_mnemonics, compare_mnemonics, int_mnemonics,
  float_mnemonics, convert_mnemonics,
}

abbrev pub mnemonics : List (List ℕ × ℕ)
mnemonics =
    control_mnemonics
    ++ (memory_mnemonics
        ++ (const_mnemonics
            ++ (compare_mnemonics ++ (int_mnemonics ++ (float_mnemonics ++ convert_mnemonics)))))

unfoldable pub find_mnemonic : List (List ℕ × ℕ) → List ℕ → Option ℕ
find_mnemonic [] name = none
find_mnemonic (m ∷ table) name =
    let rest = find_mnemonic table name in if same_string m.0 name then some m.1 else rest

-- -1 is `none`.
unfoldable pub lookup_opcode : List ℕ → Option ℕ
lookup_opcode name = find_mnemonic mnemonics name

unfoldable pub valtype_from_str : List ℕ → Option ℕ
valtype_from_str s =
    if same_string s (b'i' ∷ b'3' ∷ b'2' ∷ [])
    then some 0x7f
    else if same_string s (b'i' ∷ b'6' ∷ b'4' ∷ [])
    then some 0x7e
    else if same_string s (b'f' ∷ b'3' ∷ b'2' ∷ [])
    then some 0x7d
    else if same_string s (b'f' ∷ b'6' ∷ b'4' ∷ [])
    then some 0x7c
    else none
