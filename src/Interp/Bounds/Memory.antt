-- ===== src/Interp/Bounds/Memory.antt =====
-- The loads and stores, `memory_size` and `memory_grow` keep the limits.
use deepvm.Base.{ℕ, ◌+◌, leb, ◌==◌, arith, u32}
use deepvm.Leb.{read_leb_u32}
use deepvm.Opcode.Kinds.{Load, f64_load, Store, i32_store}
use deepvm.Vm.State.{M, ◌>>=◌, pop, push, pop32, read_ip}
use deepvm.Vm.Keeps.{
  Limits, stops, ends, Keeps, Keeps-bind, Ends-if, Keeps-pop, Keeps-push, Keeps-read_ip,
}
use deepvm.Interp.Instructions.{
  load_bytes, store_bytes, load_from, store_popped, exec_load, exec_store, exec_memory_size,
  exec_memory_grow,
}

module _ (c : Limits) where
  Keeps-load_bytes : (n at : ℕ) → Keeps c (load_bytes n at)
  unfolding load_bytes
  Keeps-load_bytes n at s w = Ends-if c (leb (at + n) s.memory_size) (λ _. ends w) (λ _. stops)

  Keeps-store_bytes : (n at val : ℕ) → Keeps c (store_bytes n at val)
  unfolding store_bytes
  Keeps-store_bytes n at val s w =
      Ends-if c (leb (at + n) s.memory_size) (λ _. ends (ground arith)) (λ _. stops)

  -- The address is read in the same way by loads and stores.
  Keeps-at_address :
      {A : Type 0} (k : ℕ → M A)
      → ((at : ℕ) → Keeps c (k at))
      → Keeps c (do
        base ← pop32
        _ ← read_ip read_leb_u32
        offset ← read_ip read_leb_u32
        k (base + offset))
  Keeps-at_address k keeps = Keeps-bind c _ _ (Keeps-pop c 4) λ base.
      Keeps-bind c _ _ (Keeps-read_ip c read_leb_u32)
        λ _. Keeps-bind c _ _ (Keeps-read_ip c read_leb_u32) (λ offset. keeps (base + offset))

  Keeps-load_from : (n : ℕ) → Keeps c (load_from n)
  unfolding load_from
  Keeps-load_from n = Keeps-at_address (load_bytes n) (Keeps-load_bytes n)

  Keeps-store_popped : (n x : ℕ) → Keeps c (store_popped n x)
  unfolding store_popped
  Keeps-store_popped n x =
      Keeps-at_address (λ at. store_bytes n at x) (λ at. Keeps-store_bytes n at x)

  load_push : (n k : ℕ) (f : ℕ → ℕ) → Keeps c (do x ← load_from n; push k (f x))
  load_push n k f = Keeps-bind c _ _ (Keeps-load_from n) (λ x. Keeps-push c k (f x))

  pop_store : (n k : ℕ) (f : ℕ → ℕ) → Keeps c (do x ← pop k; store_popped n (f x))
  pop_store n k f = Keeps-bind c _ _ (Keeps-pop c k) (λ x. Keeps-store_popped n (f x))

  pub exec_load-Keeps : (o : Load) → Keeps c (exec_load o)
  unfolding exec_load
  exec_load-Keeps f64_load = Keeps-bind c _ _ (Keeps-load_from 8) (λ _ s w. stops)
  exec_load-Keeps _ = load_push _ _ _

  pub exec_store-Keeps : (o : Store) → Keeps c (exec_store o)
  unfolding exec_store
  exec_store-Keeps i32_store = pop_store 4 4 (λ x. x)
  exec_store-Keeps _ = pop_store _ _ _

  pub exec_memory_size-Keeps : Keeps c exec_memory_size
  unfolding exec_memory_size
  exec_memory_size-Keeps =
      Keeps-bind c _ _ (Keeps-read_ip c _) (λ _ s w. Keeps-push c 4 s.memory_pages s w)

  pub exec_memory_grow-Keeps : Keeps c exec_memory_grow
  unfolding exec_memory_grow
  exec_memory_grow-Keeps = Keeps-bind c _ _ (Keeps-read_ip c _) λ _.
      Keeps-bind c _ _ (Keeps-pop c 4) λ delta s w.
        Ends-if c (delta == 0) (λ _. Keeps-push c 4 _ s w)
          λ _.
            Ends-if c (leb (u32 (s.memory_pages + delta)) s.memory_pages)
              (λ _. Keeps-push c 4 _ s w) (λ _. Keeps-push c 4 _ s w)
