-- ===== src/Vm/Keeps.antt =====
-- What every instruction keeps, and the rules by which a computation that is put together from
-- others keeps it too.
use deepvm.Base.{
  ℕ, ◌+◌, ◌≤◌, ◌≡◌, refl, Bool, true, false, Option, List, length, arith, leb, if◌then◌else◌, Trap,
  Result, ok, err,
}
use deepvm.Leb.{Ptr}
use deepvm.Vm.State.{State, M, ◌>>=◌, pop, push, read_ip}

-- What stays fixed while the program runs.
pub record Limits : Type 0 where
  pub sp_end : ℕ
  pub memory_size : ℕ
  pub memory_pages : ℕ
  pub globals : ℕ
  pub table : Option (List ℕ)
  pub frames : ℕ

-- The stack pointers are inside the stack, and the rest is as at the start.
pub record IsWithin (c : Limits) (s : State) : Type 0 where
  pub sp_le : s.sp ≤ c.sp_end
  pub env_sp_le : s.env_sp ≤ c.sp_end
  pub same_end : s.sp_end ≡ c.sp_end
  pub same_size : s.memory_size ≡ c.memory_size
  pub same_pages : s.memory_pages ≡ c.memory_pages
  pub same_globals : length s.global_vars ≡ c.globals
  pub same_table : s.table ≡ c.table
  pub same_frames : s.current_frame_index ≡ c.frames

-- `Q` holds of the state of a computation that does not trap.
pub data Ends {A : Type 0} (Q : State → Type 0) : Result (A × State) → Type 0 where
  stops : {e : Trap} → Ends Q (err e)
  ends : {a : A} {s : State} → Q s → Ends Q (ok (a, s))

pub Ends-ok : {A : Type 0} {Q : State → Type 0} {a : A} {s : State} → Ends Q (ok (a, s)) → Q s
Ends-ok (ends q) = q

pub Ends-bind :
    {A B : Type 0} {P Q : State → Type 0} {r : Result (A × State)} (f : A → M B)
    → Ends P r
    → ((a : A) (s : State) → P s → Ends Q (f a s))
    → Ends Q (elim r [ err e ↦ err e | ok (a, s') ↦ f a s' ])
Ends-bind f stops k = stops
Ends-bind f (ends {a} {s} p) k = k a s p

abbrev pub Keeps : Limits → {A : Type 0} → M A → Type 0
Keeps c m = (s : State) → IsWithin c s → Ends (IsWithin c) (m s)

module _ (c : Limits) where
  pub Keeps-bind :
      {A B : Type 0} (m : M A) (f : A → M B)
      → Keeps c m
      → ((a : A) → Keeps c (f a))
      → Keeps c (m >>= f)
  Keeps-bind m f km kf s w = Ends-bind f (km s w) (λ a s' w'. kf a s' w')

  pub Keeps-if :
      {A : Type 0} (b : Bool) (m n : M A) → Keeps c m → Keeps c n → Keeps c (if b then m else n)
  Keeps-if true m n km kn = km
  Keeps-if false m n km kn = kn

  pub Ends-if :
      {A : Type 0} {Q : State → Type 0} (b : Bool) {x y : Result (A × State)}
      → (b ≡ true → Ends Q x)
      → (b ≡ false → Ends Q y)
      → Ends Q (if b then x else y)
  Ends-if true hx hy = hx refl
  Ends-if false hx hy = hy refl

  pub Ends-elim :
      {A : Type 0} {Q : State → Type 0} (b : Bool) {x y : Result (A × State)}
      → (b ≡ false → Ends Q x)
      → (b ≡ true → Ends Q y)
      → Ends Q (elim b [ false ↦ x | true ↦ y ])
  Ends-elim false hx hy = hx refl
  Ends-elim true hx hy = hy refl

  pub Keeps-pop : (n : ℕ) → Keeps c (pop n)
  unfolding pop
  Keeps-pop n s w = Ends-if (leb n s.sp) (λ h. ends (ground arith)) (λ _. stops)

  pub Keeps-push : (n x : ℕ) → Keeps c (push n x)
  unfolding push
  Keeps-push n x s w = Ends-if (leb (s.sp + n) s.sp_end) (λ h. ends (ground arith)) (λ _. stops)

  pub Keeps-read_ip : {A : Type 0} (read : Ptr → Result (A × Ptr)) → Keeps c (read_ip read)
  Keeps-read_ip {A} read s w = go (read s.ip)
    where
      go :
          (r : Result (A × Ptr))
          → Ends (IsWithin c) (elim r [ err e ↦ err e | ok (a, p) ↦ ok (a, record s { ip = p }) ])
      go (err e) = stops
      go (ok (a, p)) = ends (ground arith)
