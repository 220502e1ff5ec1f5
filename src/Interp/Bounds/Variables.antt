-- ===== src/Interp/Bounds/Variables.antt =====
-- `op_drop`, `op_select` and the instructions on variables keep the limits.
use deepvm.Base.{
  ℕ, ◌+◌, Option, none, some, List, get_elem?, length-set, arith, leb, ok, err, undefined,
}
use deepvm.Vm.State.{Module}
use deepvm.Vm.Keeps.{
  Limits, IsWithin, Ends, stops, ends, Keeps, Keeps-bind, Keeps-if, Ends-if, Keeps-pop, Keeps-push,
  Keeps-read_ip,
}
use deepvm.Interp.Instructions.{
  element, exec_drop, exec_select, local_slot, copy_to_stack, copy_from_stack, exec_local_get,
  exec_local_set, exec_local_tee, exec_global_get, exec_global_set, is_wide,
}
use deepvm.Interp.Bounds.Numeric.{Keeps-return}

module _ (c : Limits) where
  pub Keeps-element : {A : Type 0} (xs : List A) (i : ℕ) → Keeps c (element xs i)
  unfolding element
  Keeps-element {A} xs i s w = go (get_elem? xs i)
    where
      go : (o : Option A) → Ends (IsWithin c) (elim o [ none ↦ err undefined | some x ↦ ok (x, s) ])
      go none = stops
      go (some x) = ends w

  pub exec_drop-Keeps : Keeps c exec_drop
  unfolding exec_drop
  exec_drop-Keeps = Keeps-bind c _ _ (Keeps-pop c 4) (λ _. Keeps-return c tt)

  pub exec_select-Keeps : Keeps c exec_select
  unfolding exec_select
  exec_select-Keeps = Keeps-bind c _ _ (Keeps-pop c 4) λ x.
      Keeps-bind c _ _ (Keeps-pop c 4) λ y. Keeps-bind c _ _ (Keeps-pop c 4) (λ z. Keeps-push c 4 _)

  Keeps-local_slot : (offsets : List ℕ) → Keeps c (local_slot offsets)
  unfolding local_slot
  Keeps-local_slot offsets = Keeps-bind c _ _ (Keeps-read_ip c _) λ i.
      Keeps-bind c _ _ (Keeps-element offsets i)
        λ start. Keeps-bind c _ _ (Keeps-element offsets (i + 1)) (λ end. Keeps-return c _)

  Keeps-copy_to_stack : (start size : ℕ) → Keeps c (copy_to_stack start size)
  unfolding copy_to_stack
  Keeps-copy_to_stack start size s w =
      Ends-if c (leb (s.sp + size) s.sp_end) (λ h. ends (ground arith)) (λ _. stops)

  Keeps-copy_from_stack : (start size : ℕ) → Keeps c (copy_from_stack start size)
  unfolding copy_from_stack
  Keeps-copy_from_stack start size s w =
      Ends-if c (leb size s.sp) (λ h. ends (ground arith)) (λ _. stops)

  pub exec_local_get-Keeps : (offsets : List ℕ) → Keeps c (exec_local_get offsets)
  unfolding exec_local_get
  exec_local_get-Keeps offsets =
      Keeps-bind c _ _ (Keeps-local_slot offsets) (λ p. Keeps-copy_to_stack p.0 p.1)

  pub exec_local_set-Keeps : (offsets : List ℕ) → Keeps c (exec_local_set offsets)
  unfolding exec_local_set
  exec_local_set-Keeps offsets =
      Keeps-bind c _ _ (Keeps-local_slot offsets)
        λ p. Keeps-bind c _ _ (Keeps-copy_from_stack p.0 p.1) (λ _ s w. ends (ground arith))

  pub exec_local_tee-Keeps : (offsets : List ℕ) → Keeps c (exec_local_tee offsets)
  unfolding exec_local_tee
  exec_local_tee-Keeps offsets =
      Keeps-bind c _ _ (Keeps-local_slot offsets) (λ p. Keeps-copy_from_stack p.0 p.1)

  pub exec_global_get-Keeps : (m : Module) → Keeps c (exec_global_get m)
  unfolding exec_global_get
  exec_global_get-Keeps m = Keeps-bind c _ _ (Keeps-read_ip c _) λ i.
      Keeps-bind c _ _ (Keeps-element m.global_section i) λ g.
        Keeps-bind c _ _ (λ s w. Keeps-element s.global_vars i s w)
          λ v. Keeps-if c (is_wide g) _ _ (Keeps-push c 8 v) (Keeps-push c 4 _)

  pub exec_global_set-Keeps : (m : Module) → Keeps c (exec_global_set m)
  unfolding exec_global_set
  exec_global_set-Keeps m = Keeps-bind c _ _ (Keeps-read_ip c _) λ i.
      Keeps-bind c _ _ (Keeps-element m.global_section i) λ g.
        Keeps-bind c _ _ (Keeps-if c (is_wide g) _ _ (Keeps-pop c 8) (Keeps-pop c 4)) λ v.
          Keeps-bind c _ _ (λ s w. Keeps-element s.global_vars i s w)
            λ _ s w. ends (ground (arith, length-set s.global_vars i v))
