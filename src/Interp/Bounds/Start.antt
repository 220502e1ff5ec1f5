-- ===== src/Interp/Bounds/Start.antt =====
-- The environment that `main` of src/deep_main.c sets up, and the whole run from it.
use deepvm.Base.{
  ℕ, ◌*◌, ◌-◌, ◌≤◌, ◌≡◌, refl, List, [], ◌∷◌, map, Option, none, some, if◌then◌else◌, length, ltb,
  ◌==◌, arith, ok, u32,
}
use deepvm.Vm.State.{State, ◌>>=◌, ◌>>◌, Module, return, Func}
use deepvm.Bytes.{zeroed}
use deepvm.Vm.Floats.{Floats}
use deepvm.Vm.Keeps.{
  Limits, IsWithin, Ends, stops, ends, Ends-ok, Ends-if, Keeps, Keeps-bind, Keeps-if,
}
use deepvm.Interp.Instructions.{element, defined}
use deepvm.Interp.Exec.{call_function, exec_instructions}
use deepvm.Interp.Main.{
  find_main, call_main, main_result, top_word, first_result, initial_state, initial_pages,
  initial_table, run_module,
}
use deepvm.Interp.Bounds.Numeric.{Keeps-return}
use deepvm.Interp.Bounds.Variables.{Keeps-element}
use deepvm.Interp.Bounds.Calls.{deeper, call_function-Keeps}
use deepvm.Interp.Bounds.Loop.{exec_instructions-Keeps}

-- What the environment of a module keeps: a stack of 800 bytes, and the rest as the module's
-- declarations say.
abbrev pub start_limits : Module → Limits
start_limits m = record {
  sp_end = 800;
  memory_size = u32 (initial_pages m * 65536);
  memory_pages = initial_pages m;
  globals = length m.global_section;
  table = initial_table m;
  frames = 0;
}

length-map : {A B : Type 0} (f : A → B) (xs : List A) → length (map f xs) ≡ length xs
length-map f [] = refl
length-map f (x ∷ xs) = omega (arith, length-map f xs)

initial_state-IsWithin : (m : Module) → IsWithin (start_limits m) (initial_state m)
unfolding initial_state
initial_state-IsWithin m = record {
  sp_le = omega arith;
  env_sp_le = omega arith;
  same_end = refl;
  same_size = refl;
  same_pages = refl;
  same_globals = length-map _ m.global_section;
  same_table = refl;
  same_frames = refl;
}

module _ (c : Limits) where
  Keeps-top : (n : ℕ) → Keeps c (top_word n)
  unfolding top_word
  Keeps-top n s w = Ends-if c (ltb s.env_sp n) (λ _. stops) (λ _. ends w)

  Keeps-defined : (o : Option ℕ) → Keeps c (defined o)
  Keeps-defined none s w = stops
  Keeps-defined (some x) s w = ends w

  main_result-Keeps : (fl : Floats) (type : ℕ) → Keeps c (main_result fl type)
  unfolding main_result
  main_result-Keeps fl type s w =
      Ends-if c (type == 0x7f) (λ _. Keeps-top 4 s w)
        λ _.
          Ends-if c (type == 0x7e) (λ _. Keeps-top 8 s w)
            λ _.
              Ends-if c (type == 0x7d)
                (λ _. Keeps-bind c (top_word 4) _ (Keeps-top 4) (λ x. Keeps-defined _) s w)
                λ _.
                  Ends-if c (type == 0x7c)
                    (λ _. Keeps-bind c (top_word 8) _ (Keeps-top 8) (λ x. Keeps-defined _) s w)
                    (λ _. stops)

  Keeps-set_locals :
      (size : ℕ) → Keeps c (λ s. ok (tt, record s { local_vars = zeroed; local_size = size }))
  Keeps-set_locals size s w = ends (ground arith)

module _ (fl : Floats) (m : Module) (fuel : ℕ) (c : Limits) where
  -- The start function and then `main`, of which the code, `f`, is known.
  main_body-Keeps :
      (f : Func) (size at : ℕ)
      → at ≤ c.sp_end
      → Keeps c {A = Option ℕ} (do
        λ s. ok (tt, record s { local_vars = zeroed; local_size = size })
        if m.has_start
            then call_function fl m (exec_instructions fl m fuel) m.start_index
            else return tt
        _ ← exec_instructions fl m fuel (record { sp = at; function = f })
        x ← main_result fl (first_result f.func_type)
        return (some x))
  main_body-Keeps f size at fits = Keeps-bind c _ _ (Keeps-set_locals c size) λ _.
      Keeps-bind c _ _
        (Keeps-if c m.has_start (call_function fl m (exec_instructions fl m fuel) m.start_index)
          (return tt)
          (call_function-Keeps c (exec_instructions fl m fuel)
            (λ frame inside. exec_instructions-Keeps fl m (deeper c) fuel frame inside) fl m
            m.start_index)
          (Keeps-return c tt))
        λ _.
          Keeps-bind c _ _
            (exec_instructions-Keeps fl m c fuel (record { sp = at; function = f }) fits)
            λ _.
              Keeps-bind c _ _ (main_result-Keeps c fl (first_result f.func_type))
                (λ x. Keeps-return c (some x))

  call_main-Keeps : Keeps c (call_main fl m fuel)
  unfolding call_main
  call_main-Keeps s w = go (find_main m.export_section)
    where
      go :
          (o : Option ℕ)
          → Ends (IsWithin c) (elim o [
            | none ↦ ok (none, s)
            | some main_index ↦
                (do
                  main_func ← element m.func_section main_index
                  size ←
                      element main_func.local_var_offsets (length main_func.local_var_offsets - 1)
                  λ s. ok (tt, record s { local_vars = zeroed; local_size = size })
                  if m.has_start
                      then call_function fl m (exec_instructions fl m fuel) m.start_index
                      else return tt
                  _ ← exec_instructions fl m fuel (record { sp = s.env_sp; function = main_func })
                  x ← main_result fl (first_result main_func.func_type)
                  return (some x))
                  s
          ])
      go none = ends w
      go (some i) =
          Keeps-bind c _ _ (Keeps-element c m.func_section i)
            (λ f.
              Keeps-bind c _ _
                (Keeps-element c f.local_var_offsets (length f.local_var_offsets - 1))
                (λ size. main_body-Keeps f size s.env_sp w.env_sp_le))
            s w

-- A module that is run from the environment that `main` sets up, whatever its code: if the run
-- comes to an end, both stack pointers are inside the 800 bytes of the operand stack, the control
-- stack is back at its bottom frame, the linear memory has the pages that the module declares, or
-- one, and the function table is the one that the element segments gave.
pub run_module-IsWithin :
    (fl : Floats) (m : Module) (fuel : ℕ) {r : Option ℕ} {s : State}
    → run_module fl m fuel ≡ ok (r, s)
    → IsWithin (start_limits m) s
unfolding run_module
run_module-IsWithin fl m fuel ran = Ends-ok (
    rw ran at
      (call_main-Keeps fl m fuel (start_limits m) (initial_state m) (initial_state-IsWithin m)))
