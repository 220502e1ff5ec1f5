-- ===== src/Interp/Behaviour/Operands.antt =====
-- The operand stack and the linear memory: what was put there is found again.
use deepvm.Base.{
  ℕ, ◌+◌, ◌-◌, ◌*◌, ◌%◌, ◌^◌, ◌≤◌, ◌≡◌, ◌⊎◌, ap, ◌∙◌, true, leb, le→leb, arith, ok, ℕ,
}
use deepvm.Bytes.{write_mem, read_mem}
use deepvm.Bytes.Access.{read_mem-write_mem, read_mem-write_mem_ne}
use deepvm.Vm.State.{State, M, ◌>>◌, pop, push}
use deepvm.Vm.Steps.{>>=-ok, push-ok, pop-ok}
use deepvm.Interp.Instructions.{load_bytes, store_bytes}

-- Where a word of `n` bytes has room on the stack, a push and then a pop gives the word, cut to
-- its bytes, brings `sp` back to where it was, and changes nothing else but the bytes above `sp`.
pub pop-push :
    (n x : ℕ) (s : State)
    → s.sp + n ≤ s.sp_end
    → (push n x >> pop n) s ≡ ok (x % 2 ^ (8 * n), record s { stack = write_mem n s.stack x s.sp })
pop-push n x s room =
    let s1 = record s { stack = write_mem n s.stack x s.sp; sp = s.sp + n } in
    let back : s.sp + n - n ≡ s.sp = omega arith in
    let word : read_mem n (write_mem n s.stack x s.sp) (s.sp + n - n) ≡ x % 2 ^ (8 * n) =
      rw back (read_mem-write_mem n s.stack x s.sp) in
    >>=-ok (push n x) (λ _. pop n) s (push-ok n x s room)
    ∙ (pop-ok n s1 (omega arith)
        ∙ ap (λ (r : ℕ × ℕ). ok (r.0, record s { stack = write_mem n s.stack x s.sp; sp = r.1 }))
            (rw (word, back)))

load_bytes-ok :
    (n at : ℕ) (s : State)
    → at + n ≤ s.memory_size
    → load_bytes n at s ≡ ok (read_mem n s.memory at, s)
unfolding load_bytes
load_bytes-ok n at s h = let e : leb (at + n) s.memory_size ≡ true = le→leb _ _ h in rw e

store_bytes-ok :
    (n at val : ℕ) (s : State)
    → at + n ≤ s.memory_size
    → store_bytes n at val s ≡ ok (tt, record s { memory = write_mem n s.memory val at })
unfolding store_bytes
store_bytes-ok n at val s h = let e : leb (at + n) s.memory_size ≡ true = le→leb _ _ h in rw e

-- After a store of `n` bytes inside the linear memory, a load of them gives the stored word, cut
-- to its bytes, and a load of `k` bytes that lie beside them gives what it gave before.
pub load_bytes-store_bytes :
    (n at val k at' : ℕ) (s : State)
    → at + n ≤ s.memory_size
    → at' + k ≤ s.memory_size
    → (at' + k ≤ at) ⊎ (at + n ≤ at')
    → ((store_bytes n at val >> load_bytes n at) s
        ≡ ok (val % 2 ^ (8 * n), record s { memory = write_mem n s.memory val at }))
      × ((store_bytes n at val >> load_bytes k at') s
          ≡ ok (read_mem k s.memory at', record s { memory = write_mem n s.memory val at }))
load_bytes-store_bytes n at val k at' s inside inside' apart = (
  stored (load_bytes n at)
      ∙ (load_bytes-ok n at s1 inside
          ∙ ap (λ (x : ℕ). ok (x, s1)) (read_mem-write_mem n s.memory val at)),
  stored (load_bytes k at')
      ∙ (load_bytes-ok k at' s1 inside'
          ∙ ap (λ (x : ℕ). ok (x, s1)) (read_mem-write_mem_ne k n s.memory val at at' apart)),
)
  where
    s1 : State
    s1 = record s { memory = write_mem n s.memory val at }

    stored : (then : M ℕ) → (store_bytes n at val >> then) s ≡ then s1
    stored then = >>=-ok (store_bytes n at val) (λ _. then) s (store_bytes-ok n at val s inside)
