-- ===== src/Interp/Behaviour/Unset.antt =====
-- `op_call_indirect` at an entry of the function table that no element segment has set.
use deepvm.Base.{
  ℕ, zero, suc, ◌+◌, ◌-◌, ◌^◌, ◌≤◌, ◌<◌, ◌≡◌, ◌≢◌, refl, ap, ◌∙◌, ◌++◌, ◌⊎◌, inl, inr, List, [],
  ◌∷◌, some, length, set, get_elem?, All, err, u32, uninitialized_element, arith,
}
use deepvm.Bytes.{read_mem}
use deepvm.Leb.{Ptr}
use deepvm.Leb.Write.{bb_put_leb_u32}
use deepvm.Vm.State.{State, Module, Elem, TableType}
use deepvm.Vm.Floats.{Floats}
use deepvm.Interp.Exec.{Frame, Run, table_entry, exec_call_indirect}
use deepvm.Interp.Main.{apply_elem, apply_elems, empty_table, initial_table}
use deepvm.Interp.Behaviour.Indirect.{exec_call_indirect-entry}

get_elem?-set : (xs : List ℕ) (at i f : ℕ) → at ≢ i → get_elem? (set xs at f) i ≡ get_elem? xs i
get_elem?-set [] at i f other = refl
get_elem?-set (x ∷ xs) zero zero f other = absurd (other refl)
get_elem?-set (x ∷ xs) zero (suc i) f other = refl
get_elem?-set (x ∷ xs) (suc at) zero f other = refl
get_elem?-set (x ∷ xs) (suc at) (suc i) f other =
    get_elem?-set xs at i f (λ same. other (ap suc same))

get_elem?-empty_table : (n i : ℕ) → i < n → get_elem? (empty_table n) i ≡ some (2 ^ 32 - 1)
unfolding empty_table
get_elem?-empty_table zero i less = absurd (omega (arith, less))
get_elem?-empty_table (suc n) zero less = refl
get_elem?-empty_table (suc n) (suc i) less = get_elem?-empty_table n i (omega (arith, less))

-- The `n` entries from `at` on end within 32 bits, and are not the `i`-th one.
abbrev pub IsBeside : ℕ → ℕ → ℕ → Type 0
IsBeside i at n = (at + n ≤ 2 ^ 32) × ((i < at) ⊎ (at + n ≤ i))

IsBeside-first : (i at n : ℕ) → IsBeside i at (suc n) → at ≢ i
IsBeside-first i at n (ends, inl before) same = omega (arith, before, same)
IsBeside-first i at n (ends, inr behind) same = omega (arith, behind, same)

IsBeside-next : (i at n : ℕ) → IsBeside i at (suc (suc n)) → IsBeside i (u32 (at + 1)) (suc n)
IsBeside-next i at n (ends, side) =
    let next : u32 (at + 1) ≡ at + 1 = omega (arith, ends) in
    rw next (
      omega (arith, ends),
      elim side [
        | inl before ↦ inl (omega (arith, before))
        | inr behind ↦ inr (omega (arith, behind))
      ],
    )

-- What a segment does not set stays as it was.
apply_elem-beside :
    (i at : ℕ) (fs table : List ℕ)
    → IsBeside i at (length fs)
    → get_elem? (apply_elem at fs table) i ≡ get_elem? table i
unfolding apply_elem
apply_elem-beside i at [] table beside = refl
apply_elem-beside i at (f ∷ []) table beside =
    get_elem?-set table at i f (IsBeside-first i at 0 beside)
apply_elem-beside i at (f ∷ g ∷ fs) table beside =
    apply_elem-beside i (u32 (at + 1)) (g ∷ fs) (set table at f)
      (IsBeside-next i at (length fs) beside)
    ∙ get_elem?-set table at i f (IsBeside-first i at (suc (length fs)) beside)

apply_elems-beside :
    (i : ℕ) (elems : List Elem) (table : List ℕ)
    → All (λ e. IsBeside i e.offset (length e.func_indices)) elems
    → get_elem? (apply_elems elems table) i ≡ get_elem? table i
unfolding apply_elems
apply_elems-beside i [] table all = refl
apply_elems-beside i (e ∷ elems) table all =
    apply_elems-beside i elems (apply_elem e.offset e.func_indices table) all.1
    ∙ apply_elem-beside i e.offset e.func_indices table all.0

initial_table-unset :
    (m : Module) (t : TableType) (i : ℕ)
    → m.table ≡ some t
    → i < t.min
    → All (λ e. IsBeside i e.offset (length e.func_indices)) m.elem_section
    → (entries : List ℕ) × (initial_table m ≡ some entries)
      × (get_elem? entries i ≡ some (2 ^ 32 - 1))
unfolding initial_table
initial_table-unset m t i declared inside unset = (
  apply_elems m.elem_section (empty_table t.min),
  rw declared refl,
  apply_elems-beside i m.elem_section (empty_table t.min) unset
      ∙ get_elem?-empty_table t.min i inside,
)

-- With the function table of a module's start, in which the entries of a table of `t.min` are set by
-- the element segments, an indirect call through an entry inside the table that lies beside every
-- segment stops the program with an uninitialised element, before any function is called. Every
-- segment ends within 32 bits.
pub exec_call_indirect-unset :
    (fl : Floats) (m : Module) (run : Run) (fuel : ℕ) (frame : Frame) (v b : ℕ) (rest : Ptr)
    (s : State) (t : TableType)
    → v < 2 ^ 32
    → 4 ≤ s.sp
    → m.table ≡ some t
    → s.table ≡ initial_table m
    → read_mem 4 s.stack (s.sp - 4) < t.min
    → All
        (λ e. IsBeside (read_mem 4 s.stack (s.sp - 4)) e.offset (length e.func_indices))
        m.elem_section
    → exec_call_indirect fl m run fuel frame (record s { ip = bb_put_leb_u32 v ++ (b ∷ rest) })
      ≡ err uninitialized_element
exec_call_indirect-unset fl m run fuel frame v b rest s t fits deep declared start inside unset =
    let initial = initial_table-unset m t (read_mem 4 s.stack (s.sp - 4)) declared inside unset in
    exec_call_indirect-entry fl m run fuel frame v b rest s fits deep
      (unfold table_entry in rw (start ∙ initial.1) (rw initial.2))
