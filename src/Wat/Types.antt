-- ===== src/Wat/Types.antt =====
-- The table of types of src/deep_wat.c (`sig_eq`, `find_or_add_type`): types are numbered in the order
-- in which they come up, each once.
use deepvm.Base.{
  ℕ, suc, ◌+◌, ◌≡◌, ◌≢◌, refl, sym, ap, ◌∙◌, Bool, true, false, ◌&&◌, Bool-cases, some, List, [],
  ◌∷◌, ◌++◌, append-nil, get_elem?, All, arith, ◌==◌, ==→eq, ==-refl, if◌then◌else◌, inl, inr,
}
use deepvm.Vm.State.{FuncType}
use deepvm.Wat.Strings.{and_split}

-- The loops of `sig_eq`, on lists of one length.
unfoldable pub same_types : List ℕ → List ℕ → Bool
same_types [] [] = true
same_types [] (t ∷ ts) = false
same_types (s ∷ ss) [] = false
same_types (s ∷ ss) (t ∷ ts) = (s == t) && same_types ss ts

unfoldable pub sig_eq : FuncType → FuncType → Bool
sig_eq a b = same_types a.params b.params && same_types a.results b.results

-- The loop of `find_or_add_type`, with `i` types before this part of the table. The new type goes
-- to the end.
unfoldable pub find_from : ℕ → List FuncType → FuncType → ℕ × List FuncType
find_from i [] sig = (i, sig ∷ [])
find_from i (t ∷ types_sig) sig =
    let rest = find_from (suc i) types_sig sig in
    if sig_eq t sig then (i, t ∷ types_sig) else (rest.0, t ∷ rest.1)

-- The number of the type, and the table.
unfoldable pub find_or_add_type : List FuncType → FuncType → ℕ × List FuncType
find_or_add_type types_sig sig = find_from 0 types_sig sig

same_types-eq : (ss ts : List ℕ) → same_types ss ts ≡ true → ss ≡ ts
unfolding same_types
same_types-eq [] [] h = refl
same_types-eq [] (t ∷ ts) h = absurd (ground (arith, h))
same_types-eq (s ∷ ss) [] h = absurd (ground (arith, h))
same_types-eq (s ∷ ss) (t ∷ ts) h =
    let both = and_split (s == t) (same_types ss ts) h in
    ap (λ (i : ℕ). i ∷ ss) (==→eq s t both.0) ∙ ap (◌∷◌ t) (same_types-eq ss ts both.1)

same_types_refl : (ss : List ℕ) → same_types ss ss ≡ true
unfolding same_types
same_types_refl [] = refl
same_types_refl (s ∷ ss) = rw (==-refl s, same_types_refl ss)

sig_eq-eq : (a b : FuncType) → sig_eq a b ≡ true → a ≡ b
unfolding sig_eq
sig_eq-eq a b h =
    let both = and_split (same_types a.params b.params) (same_types a.results b.results) h in
    ap (λ (ts : List ℕ). record { params = ts; results = a.results }) (same_types-eq _ _ both.0)
    ∙ ap (λ (ts : List ℕ). record { params = b.params; results = ts }) (same_types-eq _ _ both.1)

sig_eq_refl : (a : FuncType) → sig_eq a a ≡ true
unfolding sig_eq
sig_eq_refl a = rw (same_types_refl a.params, same_types_refl a.results)

sig_eq-other : (a b : FuncType) → sig_eq a b ≡ false → a ≢ b
sig_eq-other a b other same =
    absurd (ground (arith, sym (sig_eq_refl a) ∙ ap (sig_eq a) same ∙ other))

-- What `find_from` leaves: the type under its number, and all others under theirs.
find_from-finds :
    (i : ℕ) (types_sig : List FuncType) (sig : FuncType)
    → (k : ℕ) × ((find_from i types_sig sig).0 ≡ i + k)
      × (get_elem? (find_from i types_sig sig).1 k ≡ some sig)
unfolding find_from
find_from-finds i [] sig = (0, omega arith, refl)
find_from-finds i (t ∷ types_sig) sig = elim (Bool-cases (sig_eq t sig)) [
  | inl is ↦ rw is (0, omega arith, ap (λ (s : FuncType). some s) (sig_eq-eq t sig is))
  | inr other ↦
      let rest = find_from-finds (suc i) types_sig sig in
      rw other (suc rest.0, omega (arith, rest.1), rest.2)
]

find_from-keeps :
    (i : ℕ) (types_sig : List FuncType) (sig : FuncType)
    → (added : List FuncType) × ((find_from i types_sig sig).1 ≡ types_sig ++ added)
unfolding find_from
find_from-keeps i [] sig = (sig ∷ [], refl)
find_from-keeps i (t ∷ types_sig) sig = elim (Bool-cases (sig_eq t sig)) [
  | inl is ↦ rw is ([], sym (append-nil (t ∷ types_sig)))
  | inr other ↦
      let rest = find_from-keeps (suc i) types_sig sig in rw other (rest.0, ap (◌∷◌ t) rest.1)
]

-- No type is in the table twice.
unfoldable pub IsDistinct : List FuncType → Type 0
IsDistinct [] = Unit
IsDistinct (t ∷ ts) = All (λ u. t ≢ u) ts × IsDistinct ts

find_from-All :
    (P : FuncType → Type 0) (i : ℕ) (types_sig : List FuncType) (sig : FuncType)
    → All P types_sig
    → P sig
    → All P (find_from i types_sig sig).1
unfolding find_from
find_from-All P i [] sig all one = (one, tt)
find_from-All P i (t ∷ types_sig) sig all one = elim (Bool-cases (sig_eq t sig)) [
  | inl is ↦ rw is all
  | inr other ↦ rw other (all.0, find_from-All P (suc i) types_sig sig all.1 one)
]

find_from-IsDistinct :
    (i : ℕ) (types_sig : List FuncType) (sig : FuncType)
    → IsDistinct types_sig
    → IsDistinct (find_from i types_sig sig).1
unfolding find_from IsDistinct
find_from-IsDistinct i [] sig distinct = (tt, tt)
find_from-IsDistinct i (t ∷ types_sig) sig distinct = elim (Bool-cases (sig_eq t sig)) [
  | inl is ↦ rw is distinct
  | inr other ↦ rw other (
    find_from-All (λ u. t ≢ u) (suc i) types_sig sig distinct.0 (sig_eq-other t sig other),
    find_from-IsDistinct (suc i) types_sig sig distinct.1,
  )
]

-- `find_or_add_type` gives the number under which the table then has the type, keeps the types under
-- their numbers, and has each type once where it had so before.
pub find_or_add_type-finds :
    (types_sig : List FuncType) (sig : FuncType)
    → IsDistinct types_sig
    → (get_elem? (find_or_add_type types_sig sig).1 (find_or_add_type types_sig sig).0 ≡ some sig)
      × ((added : List FuncType) × ((find_or_add_type types_sig sig).1 ≡ types_sig ++ added))
      × IsDistinct (find_or_add_type types_sig sig).1
unfolding find_or_add_type
find_or_add_type-finds types_sig sig distinct =
    let found = find_from-finds 0 types_sig sig in
    (
      ap (get_elem? (find_from 0 types_sig sig).1) (found.1 ∙ omega arith) ∙ found.2,
      find_from-keeps 0 types_sig sig,
      find_from-IsDistinct 0 types_sig sig distinct,
    )
