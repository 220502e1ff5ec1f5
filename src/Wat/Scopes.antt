-- ===== src/Wat/Scopes.antt =====
-- Names and labels of src/deep_wat.c (`resolve_name`, `resolve_label_depth`). A name that was not
-- given is `none`, which stands for NULL.
use deepvm.Base.{
  ℕ, zero, suc, ◌^◌, ◌≡◌, ◌≢◌, refl, sym, ap, ◌∙◌, Bool, true, false, ◌&&◌, not, Bool-cases, inl,
  inr, Option, none, some, List, [], ◌∷◌, arith, get_elem?, take, All, ltb, ◌==◌, if◌then◌else◌,
  u32,
}
use mathlib.Core.Option.{some-injective, some-ne-none}
use deepvm.Interp.Native.{same_string, c_string}
use deepvm.Wat.Strings.{same_string-eq, eq-same_string}

unfoldable pub is_name : Option (List ℕ) → List ℕ → Bool
is_name none ref = false
is_name (some name) ref = same_string name ref

unfoldable pub next_index : Option ℕ → Option ℕ
next_index none = none
next_index (some i) = some (suc i)

-- The first of the names that is this one.
unfoldable pub find_name : List (Option (List ℕ)) → List ℕ → Option ℕ
find_name [] ref = none
find_name (name ∷ names) ref =
    let rest = next_index (find_name names ref) in if is_name name ref then some 0 else rest

-- What `strtol` reads in base 10: whether the number is negative, its magnitude, and whether the text
-- ends behind it.
pub record Number : Type 0 where
  pub is_negative : Bool
  pub magnitude : ℕ
  pub is_whole : Bool

-- A number of `long`, cut to `int32_t`: a negative one is no index.
unfoldable pub as_index : Number → Option ℕ
as_index n =
    if n.is_whole && not n.is_negative && ltb (u32 n.magnitude) (2 ^ 31)
    then some (u32 n.magnitude)
    else none

-- The same, cut to `uint32_t`.
unfoldable pub as_depth : Number → Option ℕ
as_depth n = if n.is_whole && not n.is_negative then some (u32 n.magnitude) else none

module _ (strtol : List ℕ → Number) where
  -- The number of a function, a variable or a type. A negative one is `none`.
  unfoldable pub resolve_name : List (Option (List ℕ)) → List ℕ → Option ℕ
  resolve_name names [] = none
  resolve_name names (c ∷ ref) =
      if c == b'$' then find_name names ref else as_index (strtol (c ∷ ref))

  -- The labels, the innermost one first: the loop runs down from the last one pushed, and the depth
  -- counts from there. An empty reference reads as no number.
  unfoldable pub resolve_label_depth : List (Option (List ℕ)) → List ℕ → Option ℕ
  resolve_label_depth labels [] = none
  resolve_label_depth labels (c ∷ ref) =
      if c == b'$' then find_name labels ref else as_depth (strtol (c ∷ ref))

next_index-some : (o : Option ℕ) (i : ℕ) → next_index o ≡ some (suc i) → o ≡ some i
unfolding next_index
next_index-some none i h = absurd (some-ne-none (suc i) (sym h))
next_index-some (some k) i h =
    ap (λ (n : ℕ). some n) (omega (arith, some-injective (suc k) (suc i) h))

next_index-not_zero : (o : Option ℕ) → next_index o ≢ some 0
unfolding next_index
next_index-not_zero none h = some-ne-none 0 (sym h)
next_index-not_zero (some k) h = omega (arith, some-injective (suc k) 0 h)

-- The first name is the one, or it is not.
find_name-here :
    (n : Option (List ℕ)) (names : List (Option (List ℕ))) (ref : List ℕ)
    → is_name n ref ≡ true
    → find_name (n ∷ names) ref ≡ some 0
unfolding find_name
find_name-here n names ref is = rw is refl

find_name-later :
    (n : Option (List ℕ)) (names : List (Option (List ℕ))) (ref : List ℕ)
    → is_name n ref ≡ false
    → find_name (n ∷ names) ref ≡ next_index (find_name names ref)
unfolding find_name
find_name-later n names ref other = rw other refl

find_name-is :
    (names : List (Option (List ℕ))) (ref : List ℕ) (i : ℕ)
    → find_name names ref ≡ some i
    → (name : Option (List ℕ)) × (get_elem? names i ≡ some name) × (is_name name ref ≡ true)
unfolding find_name
find_name-is [] ref i h = absurd (some-ne-none i (sym h))
find_name-is (name ∷ names) ref zero h = elim (Bool-cases (is_name name ref)) [
  | inl is ↦ (name, refl, is)
  | inr other ↦
      absurd
        (next_index-not_zero (find_name names ref) (sym (find_name-later name names ref other) ∙ h))
]
find_name-is (name ∷ names) ref (suc i) h = elim (Bool-cases (is_name name ref)) [
  | inl is ↦
      absurd (omega (arith, some-injective 0 (suc i) (sym (find_name-here name names ref is) ∙ h)))
  | inr other ↦
      find_name-is names ref i
        (next_index-some (find_name names ref) i (sym (find_name-later name names ref other) ∙ h))
]

-- The name is this one: `strcmp` sees no difference.
unfoldable pub IsNamed : Option (List ℕ) → List ℕ → Type 0
IsNamed none ref = ⊥
IsNamed (some name) ref = c_string name ≡ c_string ref

is_name-IsNamed :
    (name : Option (List ℕ)) (ref : List ℕ) → is_name name ref ≡ true → IsNamed name ref
unfolding is_name IsNamed
is_name-IsNamed none ref h = absurd (ground (arith, h))
is_name-IsNamed (some name) ref h = same_string-eq name ref h

is_name-not :
    (name : Option (List ℕ)) (ref : List ℕ) → is_name name ref ≡ false → ¬ IsNamed name ref
unfolding is_name IsNamed
is_name-not none ref h named = named
is_name-not (some name) ref h named =
    absurd (ground (arith, sym (eq-same_string name ref named) ∙ h))

next_index-none : (o : Option ℕ) → next_index o ≡ none → o ≡ none
unfolding next_index
next_index-none none h = refl
next_index-none (some k) h = absurd (some-ne-none (suc k) h)

find_name-none :
    (names : List (Option (List ℕ))) (ref : List ℕ)
    → find_name names ref ≡ none
    → All (λ name. ¬ IsNamed name ref) names
find_name-none [] ref h = tt
find_name-none (n ∷ names) ref h = elim (Bool-cases (is_name n ref)) [
  | inl is ↦ absurd (some-ne-none 0 (sym (find_name-here n names ref is) ∙ h))
  | inr other ↦ (
    is_name-not n ref other,
    find_name-none names ref
        (next_index-none (find_name names ref) (sym (find_name-later n names ref other) ∙ h)),
  )
]

find_name-first :
    (names : List (Option (List ℕ))) (ref : List ℕ) (i : ℕ)
    → find_name names ref ≡ some i
    → All (λ name. ¬ IsNamed name ref) (take i names)
find_name-first [] ref zero h = tt
find_name-first [] ref (suc i) h = tt
find_name-first (n ∷ names) ref zero h = tt
find_name-first (n ∷ names) ref (suc i) h = elim (Bool-cases (is_name n ref)) [
  | inl is ↦
      absurd (omega (arith, some-injective 0 (suc i) (sym (find_name-here n names ref is) ∙ h)))
  | inr other ↦ (
    is_name-not n ref other,
    find_name-first names ref i
        (next_index-some (find_name names ref) i (sym (find_name-later n names ref other) ∙ h)),
  )
]

-- What a label's depth should be: the label is there under this name, and none further in has it.
-- Without a depth no label has the name.
unfoldable pub IsInnermost : List (Option (List ℕ)) → List ℕ → Option ℕ → Type 0
IsInnermost labels ref none = All (λ label. ¬ IsNamed label ref) labels
IsInnermost labels ref (some depth) =
    ((label : Option (List ℕ)) × (get_elem? labels depth ≡ some label) × IsNamed label ref)
    × All (λ label. ¬ IsNamed label ref) (take depth labels)

find_name-IsInnermost :
    (labels : List (Option (List ℕ))) (ref : List ℕ) (o : Option ℕ)
    → find_name labels ref ≡ o
    → IsInnermost labels ref o
unfolding IsInnermost
find_name-IsInnermost labels ref none h = find_name-none labels ref h
find_name-IsInnermost labels ref (some depth) h =
    let here = find_name-is labels ref depth h in
    ((here.0, here.1, is_name-IsNamed here.0 ref here.2), find_name-first labels ref depth h)

-- A reference by name resolves to the depth of the innermost label of this name: the label at this
-- depth has the name, and no label at a smaller depth has it. It does not resolve only where no label
-- has the name.
pub resolve_label_depth-IsInnermost :
    (strtol : List ℕ → Number) (labels : List (Option (List ℕ))) (ref : List ℕ)
    → IsInnermost labels ref (resolve_label_depth strtol labels (b'$' ∷ ref))
unfolding resolve_label_depth
resolve_label_depth-IsInnermost strtol labels ref = find_name-IsInnermost labels ref _ refl
