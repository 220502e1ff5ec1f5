-- ===== src/Bytes/Access.antt =====
-- What a read of memory finds after a write.
use native.Mathlib.Nat.{add-zero, add_assoc, add_comm, div-div-eq-div-mul, mod-mod, div-one}
use native.Mathlib.Numerals.{towards_suc}
use deepvm.Base.{ℕ, zero, suc, ◌+◌, ◌*◌, ◌/◌, ◌%◌, ◌^◌, ◌≤◌, ◌<◌, ◌≡◌, refl, ◌⊎◌, arith, pow-pos}
use deepvm.Bytes.{Bytes, read_mem, write_mem}

-- Two memories that agree on the bytes read give the same word.
pub read_mem-congr :
    (n : ℕ) (m m' : Bytes) (off off' : ℕ)
    → ((i : ℕ) → i < n → m (off + i) ≡ m' (off' + i))
    → read_mem n m off ≡ read_mem n m' off'
unfolding read_mem
read_mem-congr zero m m' off off' same = refl
read_mem-congr (suc n) m m' off off' same =
    let first : m off ≡ m' off' = rw (add-zero, add-zero) at (same 0 (omega arith)) in
    let rest : read_mem n m (off + 1) ≡ read_mem n m' (off' + 1) =
      read_mem-congr n m m' (off + 1) (off' + 1)
        (λ i h. rw (add_assoc, add_assoc) (rw (add_comm 1 i) (same (i + 1) (omega arith)))) in
    rw (first, rest)

-- Byte by byte: `k` bytes from the `j`-th of a word of `n`.
byte_split : (x p : ℕ) → 0 < p → x % 256 + 256 * (x / 256 % p) ≡ x % (p * 256)
byte_split x p h = grind arith

pow-add8 : (s : ℕ) → 2 ^ (s + 8) ≡ 2 ^ s * 256
pow-add8 s = simp towards_suc (omega arith)

pow-byte : (k : ℕ) → 2 ^ (8 * suc k) ≡ 2 ^ (8 * k) * 256
pow-byte k = let e : 8 * suc k ≡ 8 * k + 8 = omega arith in rw e (pow-add8 (8 * k))

pub read_mem-write_mem_part :
    (k n j : ℕ) (m : Bytes) (val off : ℕ)
    → j + k ≤ n
    → read_mem k (write_mem n m val off) (off + j) ≡ val / 2 ^ (8 * j) % 2 ^ (8 * k)
unfolding read_mem
read_mem-write_mem_part zero n j m val off h = omega arith
read_mem-write_mem_part (suc k) n j m val off h =
    let here : write_mem n m val off (off + j) ≡ val / 2 ^ (8 * j) % 256 =
      unfold write_mem in ground arith in
    let there : read_mem k (write_mem n m val off) (off + j + 1)
        ≡ val / 2 ^ (8 * j) / 256 % 2 ^ (8 * k) =
      let e : 8 * (j + 1) ≡ 8 * j + 8 = omega arith in
      rw (add_assoc off j 1, div-div-eq-div-mul, ← pow-add8 (8 * j), ← e)
        (read_mem-write_mem_part k n (j + 1) m val off (omega arith)) in
    rw (here, there, pow-byte k)
      (rw mod-mod (byte_split (val / 2 ^ (8 * j)) (2 ^ (8 * k)) (pow-pos (8 * k))))

-- A word written is read back, cut to its width.
pub read_mem-write_mem :
    (n : ℕ) (m : Bytes) (val off : ℕ) → read_mem n (write_mem n m val off) off ≡ val % 2 ^ (8 * n)
read_mem-write_mem n m val off =
    let whole = read_mem-write_mem_part n n 0 m val off (omega arith) in
    rw (add-zero, div-one) at whole

-- A word that lies beside the one written is left as it was.
pub read_mem-write_mem_ne :
    (k n : ℕ) (m : Bytes) (val off at : ℕ)
    → (at + k ≤ off) ⊎ (off + n ≤ at)
    → read_mem k (write_mem n m val off) at ≡ read_mem k m at
unfolding read_mem write_mem
read_mem-write_mem_ne zero n m val off at apart = refl
read_mem-write_mem_ne (suc k) n m val off at apart =
    ground (arith, read_mem-write_mem_ne k n m val off (at + 1))
