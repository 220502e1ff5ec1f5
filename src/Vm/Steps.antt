-- ===== src/Vm/Steps.antt =====
-- How a computation that is put together from others runs, step by step.
use deepvm.Base.{ℕ, ◌+◌, ◌-◌, ◌≤◌, ◌≡◌, true, leb, le→leb, ◌++◌, ◌<◌, ◌^◌, Result, ok, err, Trap}
use deepvm.Bytes.{read_mem, write_mem}
use deepvm.Leb.{Ptr, read_leb_u32}
use deepvm.Leb.Write.{bb_put_leb_u32}
use deepvm.Leb.Unsigned.{read_leb_u32-bb_put_leb_u32}
use deepvm.Vm.State.{State, M, ◌>>=◌, pop, push, read_ip}

-- A first step that succeeds, and one that traps.
pub >>=-ok :
    {A B : Type 0} (m : M A) (f : A → M B) (s : State) {a : A} {s' : State}
    → m s ≡ ok (a, s')
    → (m >>= f) s ≡ f a s'
>>=-ok m f s h = rw (h, ◌>>=◌)

pub >>=-err :
    {A B : Type 0} (m : M A) (f : A → M B) (s : State) {e : Trap}
    → m s ≡ err e
    → (m >>= f) s ≡ err e
>>=-err m f s h = rw (h, ◌>>=◌)

pub pop-ok :
    (n : ℕ) (s : State)
    → n ≤ s.sp
    → pop n s ≡ ok (read_mem n s.stack (s.sp - n), record s { sp = s.sp - n })
unfolding pop
pop-ok n s h = let e : leb n s.sp ≡ true = le→leb _ _ h in rw e

pub push-ok :
    (n x : ℕ) (s : State)
    → s.sp + n ≤ s.sp_end
    → push n x s ≡ ok (tt, record s { stack = write_mem n s.stack x s.sp; sp = s.sp + n })
unfolding push
push-ok n x s h = let e : leb (s.sp + n) s.sp_end ≡ true = le→leb _ _ h in rw e

pub read_ip-ok :
    {A : Type 0} (read : Ptr → Result (A × Ptr)) (s : State) {a : A} {p : Ptr}
    → read s.ip ≡ ok (a, p)
    → read_ip read s ≡ ok (a, record s { ip = p })
read_ip-ok read s h = rw (h, read_ip)

-- An immediate that the assembler wrote.
pub read_ip-leb :
    (v : ℕ) (rest : Ptr) (s : State)
    → v < 2 ^ 32
    → read_ip read_leb_u32 (record s { ip = bb_put_leb_u32 v ++ rest })
      ≡ ok (v, record s { ip = rest })
read_ip-leb v rest s h =
    read_ip-ok read_leb_u32 (record s { ip = bb_put_leb_u32 v ++ rest })
      (read_leb_u32-bb_put_leb_u32 v rest h)
