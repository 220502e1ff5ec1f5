-- ===== src/Wat/Strings.antt =====
-- `strcmp` as src/deep_wat.c uses it: it compares the bytes of two strings up to their zero bytes.
use deepvm.Base.{
  ℕ, ◌≡◌, refl, sym, ap, ◌∙◌, Bool, true, false, ◌&&◌, List, [], ◌∷◌, arith, ◌==◌, ==→eq, ==-refl,
}
use deepvm.Interp.Native.{same_string, same_bytes, c_string}

pub and_split : (a b : Bool) → (a && b) ≡ true → (a ≡ true) × (b ≡ true)
and_split true true h = (refl, refl)
and_split true false h = (refl, h)
and_split false b h = absurd (ground (arith, h))

pub same_bytes-eq : (xs ys : List ℕ) → same_bytes xs ys ≡ true → xs ≡ ys
unfolding same_bytes
same_bytes-eq [] [] h = refl
same_bytes-eq [] (y ∷ ys) h = absurd (ground (arith, h))
same_bytes-eq (x ∷ xs) [] h = absurd (ground (arith, h))
same_bytes-eq (x ∷ xs) (y ∷ ys) h =
    let both = and_split (x == y) (same_bytes xs ys) h in
    ap (λ (i : ℕ). i ∷ xs) (==→eq x y both.0) ∙ ap (◌∷◌ y) (same_bytes-eq xs ys both.1)

same_bytes_refl : (xs : List ℕ) → same_bytes xs xs ≡ true
unfolding same_bytes
same_bytes_refl [] = refl
same_bytes_refl (x ∷ xs) = rw (==-refl x, same_bytes_refl xs)

pub same_string-eq : (a b : List ℕ) → same_string a b ≡ true → c_string a ≡ c_string b
unfolding same_string
same_string-eq a b h = same_bytes-eq (c_string a) (c_string b) h

pub eq-same_string : (a b : List ℕ) → c_string a ≡ c_string b → same_string a b ≡ true
unfolding same_string
eq-same_string a b h =
    ap (λ (y : List ℕ). same_bytes (c_string a) y) (sym h) ∙ same_bytes_refl (c_string a)
