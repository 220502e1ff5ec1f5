-- ===== src/Interp/Behaviour/Indirect.antt =====
-- `op_call_indirect` at an entry of the function table that is not there.
use deepvm.Base.{
  ℕ, ◌-◌, ◌^◌, ◌≤◌, ◌<◌, ◌≡◌, ◌∷◌, ◌∙◌, ◌++◌, ◌⊎◌, inl, inr, List, none, some, get_elem?, err,
  undefined_element, Trap,
}
use deepvm.Bytes.{read_mem}
use deepvm.Leb.{Ptr, read_leb_u32}
use deepvm.Leb.Write.{bb_put_leb_u32}
use deepvm.Vm.State.{State, Module, pop32, read_ip, read_byte}
use deepvm.Vm.Floats.{Floats}
use deepvm.Vm.Steps.{>>=-ok, >>=-err, pop-ok, read_ip-leb}
use deepvm.Interp.Exec.{Frame, Run, table_entry, exec_call_indirect}

-- Up to the table, an indirect call reads its two immediates and pops the index of the entry.
pub exec_call_indirect-entry :
    (fl : Floats) (m : Module) (run : Run) (fuel : ℕ) (frame : Frame) (v b : ℕ) (rest : Ptr)
    (s : State) {e : Trap}
    → v < 2 ^ 32
    → 4 ≤ s.sp
    → table_entry (read_mem 4 s.stack (s.sp - 4)) (record s { ip = rest; sp = s.sp - 4 }) ≡ err e
    → exec_call_indirect fl m run fuel frame (record s { ip = bb_put_leb_u32 v ++ (b ∷ rest) })
      ≡ err e
unfolding exec_call_indirect read_byte
exec_call_indirect-entry fl m run fuel frame v b rest s fits deep fails =
    >>=-ok (read_ip read_leb_u32) _ _ (read_ip-leb v (b ∷ rest) s fits)
    ∙ (>>=-ok pop32 _ (record s { ip = rest }) (pop-ok 4 (record s { ip = rest }) deep)
        ∙ >>=-err (table_entry (read_mem 4 s.stack (s.sp - 4))) _ _ fails)

-- An indirect call stops the program with an undefined element, before any function is called,
-- where there is no table or the index is outside the table.
pub exec_call_indirect-undefined :
    (fl : Floats) (m : Module) (run : Run) (fuel : ℕ) (frame : Frame) (v b : ℕ) (rest : Ptr)
    (s : State) (entries : List ℕ)
    → v < 2 ^ 32
    → 4 ≤ s.sp
    → (s.table ≡ none)
      ⊎ ((s.table ≡ some entries) × (get_elem? entries (read_mem 4 s.stack (s.sp - 4)) ≡ none))
    → exec_call_indirect fl m run fuel frame (record s { ip = bb_put_leb_u32 v ++ (b ∷ rest) })
      ≡ err undefined_element
exec_call_indirect-undefined fl m run fuel frame v b rest s entries fits deep (inl t) =
    exec_call_indirect-entry fl m run fuel frame v b rest s fits deep (unfold table_entry in rw t)
exec_call_indirect-undefined fl m run fuel frame v b rest s entries fits deep (inr (t, i)) =
    exec_call_indirect-entry fl m run fuel frame v b rest s fits deep
      (unfold table_entry in rw t (rw i))
