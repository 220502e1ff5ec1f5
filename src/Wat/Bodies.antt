-- ===== src/Wat/Bodies.antt =====
-- The code section that `assemble_module` of src/deep_wat.c writes: the local variables in runs of
-- one type, and the bytes of the instructions.
use deepvm.Base.{ℕ, zero, suc, List, [], ◌∷◌, ◌++◌, length, ◌==◌, if◌then◌else◌}
use deepvm.Vm.State.{FuncType}
use deepvm.Leb.Write.{bb_put_leb_u32}
use deepvm.Wat.Sections.{put_each}

-- What is gathered of a function: the types of its variables that are no parameters, one for each,
-- and the bytes of its instructions.
pub record Body : Type 0 where
  pub local_types : List ℕ
  pub code : List ℕ

-- `while (li < nlocal_types && local_types[li] == t) { cnt++; li++; }`: how many there are, and
-- what is left.
unfoldable pub split_run : ℕ → List ℕ → ℕ × List ℕ
split_run t [] = (0, [])
split_run t (x ∷ xs) =
    let rest = split_run t xs in if x == t then (suc rest.0, rest.1) else (0, x ∷ xs)

-- `while (li < nlocal_types)`, with fuel for so many runs: their lengths and types.
unfoldable pub run_lengths : ℕ → List ℕ → List (ℕ × ℕ)
run_lengths zero types = []
run_lengths (suc fuel) [] = []
run_lengths (suc fuel) (t ∷ types) =
    let run = split_run t (t ∷ types) in (run.0, t) ∷ run_lengths fuel run.1

unfoldable pub put_run : ℕ × ℕ → List ℕ
put_run run = bb_put_leb_u32 run.0 ++ (run.1 ∷ [])

-- There are no more runs than variables.
unfoldable pub clusters : Body → List (ℕ × ℕ)
clusters f = run_lengths (length f.local_types) f.local_types

unfoldable pub body_bytes : Body → List ℕ
body_bytes f =
    bb_put_leb_u32 (length (clusters f))
    ++ (put_each put_run (clusters f) ++ (f.code ++ (0x0b ∷ [])))

unfoldable pub put_body : Body → List ℕ
put_body f = bb_put_leb_u32 (length (body_bytes f)) ++ body_bytes f

-- A function that the module defines: the number of its type, that type, and its body.
pub record FuncForm : Type 0 where
  pub type_index : ℕ
  pub type : FuncType
  pub body : Body

-- Its entries in the function section and in the code section.
abbrev pub put_index : FuncForm → List ℕ
put_index f = bb_put_leb_u32 f.type_index

abbrev pub put_code : FuncForm → List ℕ
put_code f = put_body f.body
