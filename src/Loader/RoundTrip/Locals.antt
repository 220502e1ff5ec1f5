-- ===== src/Loader/RoundTrip/Locals.antt =====
-- The local variables of a function: the runs that the assembler writes, and the offsets.
use deepvm.Base.{
  ℕ, zero, suc, ◌+◌, ◌-◌, ◌%◌, ◌^◌, ◌<◌, ◌≤◌, ◌≡◌, refl, sym, ap, ◌∙◌, true, false, Option, none,
  some, List, [], ◌∷◌, ◌++◌, map, append_assoc, ok, length, length-append, All, arith, ◌==◌,
  if◌then◌else◌, ==→eq, Bool-cases, ltb, u32, inl, inr,
}
use deepvm.Leb.{Ptr}
use deepvm.Leb.Write.{bb_put_leb_u32}
use deepvm.Vm.State.{FuncType, read_byte}
use deepvm.Loader.Reader.{repeat}
use deepvm.Loader.Locals.{
  LocalVarCluster, replicate, variable_types, read_cluster, read_clusters, all_variables,
  local_var_count,
}
use deepvm.Loader.Reads.{>>=-ok, then_leb, repeat-put_each}
use deepvm.Wat.Sections.{put_each}
use deepvm.Wat.Bodies.{split_run, run_lengths, put_run}

unfoldable pub as_cluster : ℕ × ℕ → LocalVarCluster
as_cluster run = record { count = run.0; local_type = run.1 }

-- A run and what is left of it make up the whole, and what is left is shorter.
split_run_whole :
    (t : ℕ) (types : List ℕ) → replicate (split_run t types).0 t ++ (split_run t types).1 ≡ types
unfolding split_run replicate
split_run_whole t [] = refl
split_run_whole t (x ∷ types) = elim (Bool-cases (x == t)) [
  | inl is ↦
      rw is (ap (◌∷◌ t) (split_run_whole t types) ∙ ap (λ (i : ℕ). i ∷ types) (sym (==→eq x t is)))
  | inr is ↦ rw is refl
]

length-split_run :
    (t : ℕ) (types : List ℕ) → (split_run t types).0 + length (split_run t types).1 ≡ length types
unfolding split_run
length-split_run t [] = refl
length-split_run t (x ∷ types) = elim (Bool-cases (x == t)) [
  | inl is ↦ rw is (omega (arith, length-split_run t types))
  | inr is ↦ rw is (omega arith)
]

split_run_first :
    (t : ℕ) (types : List ℕ)
    → split_run t (t ∷ types) ≡ (suc (split_run t types).0, (split_run t types).1)
unfolding split_run
split_run_first t types = ground arith

-- The runs stand for the variables they were made of.
pub variable_types-run_lengths :
    (fuel : ℕ) (types : List ℕ)
    → length types ≤ fuel
    → variable_types (map as_cluster (run_lengths fuel types)) ≡ types
unfolding run_lengths variable_types as_cluster replicate
variable_types-run_lengths zero [] h = refl
variable_types-run_lengths zero (t ∷ types) h = absurd (omega arith)
variable_types-run_lengths (suc fuel) [] h = refl
variable_types-run_lengths (suc fuel) (t ∷ types) h =
    rw
      (
        split_run_first t types,
        variable_types-run_lengths fuel (split_run t types).1
            (omega (arith, length-split_run t types)),
      )
      (ap (λ (xs : List ℕ). t ∷ xs) (split_run_whole t types))

pub length-run_lengths :
    (fuel : ℕ) (types : List ℕ) → length (run_lengths fuel types) ≤ length types
unfolding run_lengths
length-run_lengths zero types = omega arith
length-run_lengths (suc fuel) [] = omega arith
length-run_lengths (suc fuel) (t ∷ types) =
    rw (split_run_first t types)
      (omega (arith, length-run_lengths fuel (split_run t types).1, length-split_run t types))

pub small_runs :
    (bound fuel : ℕ) (types : List ℕ)
    → length types ≤ bound
    → All (λ run. run.0 ≤ bound) (run_lengths fuel types)
unfolding run_lengths
small_runs bound zero types h = tt
small_runs bound (suc fuel) [] h = tt
small_runs bound (suc fuel) (t ∷ types) h = rw (split_run_first t types) (
  omega (arith, length-split_run t types),
  small_runs bound fuel (split_run t types).1 (omega (arith, length-split_run t types)),
)

-- The declarations of the variables, with their number in front, are read back.
read_cluster-put_run :
    (run : ℕ × ℕ) (rest : Ptr)
    → run.0 ≤ 255
    → read_cluster (put_run run ++ rest) ≡ ok (as_cluster run, rest)
unfolding read_cluster put_run as_cluster read_byte
read_cluster-put_run run rest small =
    rw (append_assoc (bb_put_leb_u32 run.0) (run.1 ∷ []) rest)
      (then_leb run.0 (run.1 ∷ rest) _ (omega arith))

-- What `read_clusters` gives: nothing where there are neither parameters nor runs.
unfoldable pub clusters_read : ℕ → List (ℕ × ℕ) → Option (List LocalVarCluster)
clusters_read params runs = if params + length runs == 0 then none else some (map as_cluster runs)

no_runs :
    (params : ℕ) (runs : List (ℕ × ℕ))
    → (params + length runs == 0) ≡ true
    → put_each put_run runs ≡ []
unfolding put_each
no_runs params [] is = refl
no_runs params (run ∷ runs) is = absurd (ground arith)

pub read_clusters-put_each :
    (params : ℕ) (runs : List (ℕ × ℕ)) (rest : Ptr)
    → params < 256
    → length runs < 2 ^ 31
    → All (λ run. run.0 ≤ 255) runs
    → read_clusters params (bb_put_leb_u32 (length runs) ++ (put_each put_run runs ++ rest))
      ≡ ok (clusters_read params runs, rest)
unfolding read_clusters clusters_read
read_clusters-put_each params runs rest few_params few small =
    let count : u32 (params % 2 ^ 8 + length runs) ≡ params + length runs = omega arith in
    then_leb (length runs) (put_each put_run runs ++ rest) _ (omega arith)
    ∙ elim (Bool-cases (params + length runs == 0)) [
      | inl is ↦ rw (count, is) (ap (λ (xs : Ptr). ok (none, xs ++ rest)) (no_runs params runs is))
      | inr is ↦
          let not_fewer : ltb (params + length runs) params ≡ false = ground arith in
          let left : params + length runs - params ≡ length runs = omega arith in
          rw (count, is, not_fewer, left)
            (>>=-ok (repeat (length runs) read_cluster) _ (put_each put_run runs ++ rest) (
              repeat-put_each read_cluster put_run as_cluster (λ run. run.0 ≤ 255)
                read_cluster-put_run runs rest small))
    ]

no_variables :
    (params : List ℕ) (runs : List (ℕ × ℕ)) (types : List ℕ)
    → (length params + length runs == 0) ≡ true
    → variable_types (map as_cluster runs) ≡ types
    → params ++ types ≡ []
unfolding variable_types
no_variables [] [] types empty is = sym is
no_variables [] (run ∷ runs) types empty is = absurd (ground arith)
no_variables (t ∷ params) runs types empty is = absurd (ground arith)

-- With them, the variables of a function are its parameters and the ones declared.
pub all_variables-clusters_read :
    (type : FuncType) (runs : List (ℕ × ℕ)) (types : List ℕ)
    → variable_types (map as_cluster runs) ≡ types
    → all_variables type (clusters_read (length type.params) runs) ≡ type.params ++ types
unfolding all_variables clusters_read
all_variables-clusters_read type runs types is =
    elim (Bool-cases (length type.params + length runs == 0)) [
      | inl empty ↦ rw empty (sym (no_variables type.params runs types empty is))
      | inr other ↦ rw (other, is) refl
    ]

pub local_var_count-clusters_read :
    (type : FuncType) (runs : List (ℕ × ℕ)) (types : List ℕ)
    → variable_types (map as_cluster runs) ≡ types
    → length type.params + length types < 256
    → local_var_count type (clusters_read (length type.params) runs)
      ≡ length type.params + length types
unfolding local_var_count clusters_read
local_var_count-clusters_read type runs types is few =
    elim (Bool-cases (length type.params + length runs == 0)) [
      | inl empty ↦
          let none_left = ap length (no_variables type.params runs types empty is) in
          rw empty (omega (arith, none_left, length-append type.params types))
      | inr other ↦ rw (other, is) (omega arith)
    ]
