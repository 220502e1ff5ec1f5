-- ===== src/Interp/Behaviour/Growth.antt =====
-- `memory_grow` over the `deep_realloc` of src/deep_mem.c.
use deepvm.Base.{
  ℕ, ◌+◌, ◌-◌, ◌^◌, ◌≤◌, ◌<◌, ◌≡◌, ◌∙◌, ◌++◌, true, false, leb, ◌==◌, Bool, if◌then◌else◌, arith,
  ok, u32,
}
use deepvm.Bytes.{write_mem, read_mem}
use deepvm.Leb.{Ptr, read_leb_u32}
use deepvm.Leb.Write.{bb_put_leb_u32}
use deepvm.Vm.State.{State, push32, pop32, read_ip}
use deepvm.Vm.Steps.{>>=-ok, push-ok, pop-ok, read_ip-leb}
use deepvm.Interp.Instructions.{exec_memory_grow, grow_to, deep_realloc}

-- `memory_grow` with the number of pages on the stack leaves the linear memory, its size and its
-- number of pages as they are, whatever that number is. In place of it stands the number of
-- pages there are where it was 0, and `(uint32_t)-1`, for a failure, everywhere else.
pub exec_memory_grow-fails :
    (v : ℕ) (rest : Ptr) (s : State)
    → v < 2 ^ 32
    → 4 ≤ s.sp
    → s.sp ≤ s.sp_end
    → exec_memory_grow (record s { ip = bb_put_leb_u32 v ++ rest })
      ≡ ok (
        tt,
        record s {
          ip = rest;
          stack =
              write_mem 4 s.stack
                (if read_mem 4 s.stack (s.sp - 4) == 0 then s.memory_pages else 2 ^ 32 - 1)
                (s.sp - 4);
          sp = s.sp - 4 + 4;
        },
      )
unfolding exec_memory_grow grow_to deep_realloc
exec_memory_grow-fails v rest s fits deep room =
    let delta = read_mem 4 s.stack (s.sp - 4) in
    >>=-ok (read_ip read_leb_u32) _ _ (read_ip-leb v rest s fits)
    ∙ (>>=-ok pop32 _ (record s { ip = rest }) (pop-ok 4 (record s { ip = rest }) deep)
        ∙ answer (delta == 0) (leb (u32 (s.memory_pages + delta)) s.memory_pages))
  where
    s2 : State
    s2 = record s { ip = rest; sp = s.sp - 4 }

    pushed :
        (x : ℕ)
        → push32 x s2
          ≡ ok (
            tt,
            record s { ip = rest; stack = write_mem 4 s.stack x (s.sp - 4); sp = s.sp - 4 + 4 },
          )
    pushed x = push-ok 4 x s2 (omega arith)

    answer :
        (none_asked wrapped : Bool)
        → (if none_asked
            then push32 s.memory_pages s2
            else if wrapped
            then push32 (2 ^ 32 - 1) s2
            else push32 (2 ^ 32 - 1) s2)
          ≡ ok (
            tt,
            record s {
              ip = rest;
              stack =
                  write_mem 4 s.stack
                    (if none_asked then s.memory_pages else 2 ^ 32 - 1)
                    (s.sp - 4);
              sp = s.sp - 4 + 4;
            },
          )
    answer true wrapped = pushed s.memory_pages
    answer false true = pushed (2 ^ 32 - 1)
    answer false false = pushed (2 ^ 32 - 1)
