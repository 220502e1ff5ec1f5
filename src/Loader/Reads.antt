-- ===== src/Loader/Reads.antt =====
-- What the reads of src/deep_loader.c make of bytes that the assembler wrote.
use deepvm.Base.{
  ℕ, zero, suc, ◌*◌, ◌/◌, ◌^◌, ◌<◌, ◌≡◌, refl, ap, ◌∙◌, true, List, [], ◌∷◌, ◌++◌, map,
  append_assoc, ok, arith, length, All, leb, le→leb, length-append, take-append, drop-append,
}
use native.Mathlib.Nat.{pow-suc}
use deepvm.Leb.{Ptr, read_leb_u32}
use deepvm.Leb.Write.{bb_put_leb_u32}
use deepvm.Leb.Unsigned.{read_leb_u32-bb_put_leb_u32}
use deepvm.Vm.State.{read_byte, read_value}
use deepvm.Loader.Reader.{Reader, ◌>>=◌, ◌>>◌, repeat, read_bytes, skip}
use deepvm.Loader.Sections.{read_vector}
use deepvm.Wat.Sections.{put_each, put_vector, bb_put_le}

pub >>=-ok :
    {A B : Type 0} (r : Reader A) (f : A → Reader B) (p : Ptr) {a : A} {q : Ptr}
    → r p ≡ ok (a, q)
    → (r >>= f) p ≡ f a q
>>=-ok r f p h = rw (h, ◌>>=◌)

pub read_bytes-ok : (xs rest : Ptr) → read_bytes (length xs) (xs ++ rest) ≡ ok (xs, rest)
unfolding read_bytes
read_bytes-ok xs rest =
    let e : leb (length xs) (length (xs ++ rest)) ≡ true =
      le→leb _ _ (omega (arith, length-append xs rest)) in
    rw (e, take-append xs rest, drop-append xs rest)

pub skip-ok : (xs rest : Ptr) → skip (length xs) (xs ++ rest) ≡ ok (tt, rest)
unfolding skip
skip-ok xs rest =
    let e : leb (length xs) (length (xs ++ rest)) ≡ true =
      le→leb _ _ (omega (arith, length-append xs rest)) in
    rw (e, drop-append xs rest)

pub read_value-bb_put_le :
    (n v : ℕ) (rest : Ptr) → v < 256 ^ n → read_value n (bb_put_le n v ++ rest) ≡ ok (v, rest)
unfolding read_value bb_put_le
read_value-bb_put_le zero v rest h = ap (λ (i : ℕ). ok (i, rest)) (omega arith)
read_value-bb_put_le (suc n) v rest h =
    let e : 256 ^ suc n ≡ 256 ^ n * 256 = pow-suc 256 n in
    rw (read_value-bb_put_le n (v / 256) rest (omega (arith, e)))
      (ap (λ (i : ℕ). ok (i, rest)) (omega arith))

pub map_same : {A : Type 0} (xs : List A) → map (λ (x : A). x) xs ≡ xs
map_same [] = refl
map_same (x ∷ xs) = ap (◌∷◌ x) (map_same xs)

-- The bytes of a list one by one.
pub repeat-read_byte : (xs rest : Ptr) → repeat (length xs) read_byte (xs ++ rest) ≡ ok (xs, rest)
unfolding repeat read_byte
repeat-read_byte [] rest = refl
repeat-read_byte (x ∷ xs) rest =
    >>=-ok (repeat (length xs) read_byte) _ (xs ++ rest) (repeat-read_byte xs rest)

-- A read of one entry that gives `f` of what was put is a read of all of them.
module _ {A B : Type 0} (r : Reader B) (put : A → Ptr) (f : A → B) (IsFit : A → Type 0) where
  pub repeat-put_each :
      ((a : A) (rest : Ptr) → IsFit a → r (put a ++ rest) ≡ ok (f a, rest))
      → (xs : List A) (rest : Ptr) → All IsFit xs
      → repeat (length xs) r (put_each put xs ++ rest) ≡ ok (map f xs, rest)
  unfolding repeat put_each
  repeat-put_each one [] rest fit = refl
  repeat-put_each one (a ∷ xs) rest fit = rw (append_assoc (put a) (put_each put xs) rest) (
      >>=-ok r _ (put a ++ (put_each put xs ++ rest)) (one a (put_each put xs ++ rest) fit.0)
      ∙ >>=-ok (repeat (length xs) r) _ (put_each put xs ++ rest)
          (repeat-put_each one xs rest fit.1))

  pub read_vector-put_vector :
      ((a : A) (rest : Ptr) → IsFit a → r (put a ++ rest) ≡ ok (f a, rest))
      → (xs : List A) (rest : Ptr) → length xs < 2 ^ 32
      → All IsFit xs
      → read_vector r (put_vector put xs ++ rest) ≡ ok (map f xs, rest)
  unfolding read_vector put_vector
  read_vector-put_vector one xs rest few fit =
      rw (append_assoc (bb_put_leb_u32 (length xs)) (put_each put xs) rest) (
        >>=-ok read_leb_u32 _ (bb_put_leb_u32 (length xs) ++ (put_each put xs ++ rest))
          (read_leb_u32-bb_put_leb_u32 (length xs) (put_each put xs ++ rest) few)
        ∙ repeat-put_each one xs rest fit)

-- A number, and a name, at the head of what follows.
pub then_leb :
    {B : Type 0} (v : ℕ) (rest : Ptr) (f : ℕ → Reader B)
    → v < 2 ^ 32
    → (read_leb_u32 >>= f) (bb_put_leb_u32 v ++ rest) ≡ f v rest
then_leb v rest f h =
    >>=-ok read_leb_u32 f (bb_put_leb_u32 v ++ rest) (read_leb_u32-bb_put_leb_u32 v rest h)

pub then_bytes :
    {B : Type 0} (xs rest : Ptr) (f : List ℕ → Reader B)
    → (read_bytes (length xs) >>= f) (xs ++ rest) ≡ f xs rest
then_bytes xs rest f = >>=-ok (read_bytes (length xs)) f (xs ++ rest) (read_bytes-ok xs rest)

pub then_skip :
    {B : Type 0} (xs rest : Ptr) (k : Reader B) → (skip (length xs) >> k) (xs ++ rest) ≡ k rest
then_skip xs rest k = >>=-ok (skip (length xs)) (λ _. k) (xs ++ rest) (skip-ok xs rest)

pub then_each :
    {B : Type 0} (xs rest : Ptr) (f : List ℕ → Reader B)
    → (repeat (length xs) read_byte >>= f) (xs ++ rest) ≡ f xs rest
then_each xs rest f =
    >>=-ok (repeat (length xs) read_byte) f (xs ++ rest) (repeat-read_byte xs rest)
