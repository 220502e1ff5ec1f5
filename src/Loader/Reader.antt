-- ===== src/Loader/Reader.antt =====
-- Reading from a pointer into the module that moves on (src/deep_loader.c).
use deepvm.Base.{
  ℕ, zero, suc, List, [], ◌∷◌, Result, ok, err, undefined, length, take, drop, leb, if◌then◌else◌,
}
use deepvm.Leb.{Ptr}

abbrev pub Reader {ℓ} : Type ℓ → Type ℓ
Reader A = Ptr → Result (A × Ptr)

abbrev pub return {ℓ} : {A : Type ℓ} → A → Reader A
return a p = ok (a, p)

infixl 5 ◌>>=◌ ◌>>◌
abbrev pub ◌>>=◌ {ℓ κ} : {A : Type ℓ} {B : Type κ} → Reader A → (A → Reader B) → Reader B
◌>>=◌ r f p = elim (r p) [ err e ↦ err e | ok (a, q) ↦ f a q ]

abbrev pub ◌>>◌ {ℓ κ} : {A : Type ℓ} {B : Type κ} → Reader A → Reader B → Reader B
r >> k = r >>= λ _. k

-- The pointer itself, kept in a variable.
abbrev pub position : Reader Ptr
position p = ok (p, p)

-- `for (i = 0; i < n; i++)` around a read.
unfoldable pub repeat : {A : Type 0} → ℕ → Reader A → Reader (List A)
repeat zero r = return []
repeat (suc n) r = do a ← r; rest ← repeat n r; return (a ∷ rest)

-- `memcpy (…, p, n); p += n`
unfoldable pub read_bytes : ℕ → Reader (List ℕ)
read_bytes n p = if leb n (length p) then ok (take n p, drop n p) else err undefined

-- `p += n`
unfoldable pub skip : ℕ → Reader (Unit {0})
skip n p = if leb n (length p) then ok (tt, drop n p) else err undefined
