-- ===== src/Loader/Assembled.antt =====
-- `deep_load` of src/deep_loader.c on a module that is a header and sections that `put_section` of
-- src/deep_wat.c wrote.
use deepvm.Base.{
  ℕ, zero, suc, ◌-◌, ◌^◌, ◌<◌, ◌≤◌, ◌≡◌, refl, fun_ext, sym, ap, ◌∙◌, true, false, Bool-cases,
  Option, none, some, List, [], ◌∷◌, ◌++◌, append_assoc, Result, ok, err, undefined, out_of_fuel,
  ◌>>=◌, length, length-append, get_elem?, All, arith, ◌==◌, if◌then◌else◌, inl, inr, ==→eq,
}
use deepvm.Leb.{Ptr}
use deepvm.Vm.State.{Module, read_value}
use deepvm.Loader.List.{Node, create_section_list}
use deepvm.Loader.Load.{
  check_magic_number_and_version, decode_section, find_code, decode_list, decode_each_sections,
  empty_module, deep_load,
}
use deepvm.Loader.Linked.{
  put_pair, placed, node, linked_from, get_elem?-append, create_section_list-put_each,
  create_section_list-circular,
}
use deepvm.Wat.Sections.{header, put_each, bb_put_le}

-- The content of the first code section.
unfoldable pub first_code : List (ℕ × Ptr) → Result Ptr
first_code [] = err undefined
first_code (s ∷ ss) = let rest = first_code ss in if s.0 == 10 then ok s.1 else rest

-- The sections one after the other.
unfoldable pub decode_in_order : Ptr → List (ℕ × Ptr) → Module → Result Module
decode_in_order p_code [] m = ok m
decode_in_order p_code (s ∷ ss) m = decode_section p_code s.0 s.1 m >>= decode_in_order p_code ss

next_of : ℕ → List (ℕ × Ptr) → Option ℕ
next_of i [] = none
next_of i (s ∷ ss) = some i

linked_from-first :
    (i : ℕ) (s : ℕ × Ptr) (ss : List (ℕ × Ptr))
    → linked_from i (s ∷ ss) ≡ node s (next_of (suc i) ss) ∷ linked_from (suc i) ss
unfolding linked_from next_of
linked_from-first i s [] = refl
linked_from-first i s (t ∷ ss) = refl

-- The node at the head of a part of the list, and the part behind it.
module _ (nodes : List Node) (s : ℕ × Ptr) (ss : List (ℕ × Ptr)) where
  first_node :
      get_elem? (nodes ++ linked_from (length nodes) (s ∷ ss)) (length nodes)
      ≡ some (node s (next_of (suc (length nodes)) ss))
  first_node = rw (linked_from-first (length nodes) s ss) (
      get_elem?-append nodes (node s (next_of (suc (length nodes)) ss))
        (linked_from (suc (length nodes)) ss))

  passed : List Node
  passed = nodes ++ (node s (next_of (suc (length nodes)) ss) ∷ [])

  length-passed : length passed ≡ suc (length nodes)
  unfolding passed
  length-passed = omega (arith, length-append nodes (node s (next_of (suc (length nodes)) ss) ∷ []))

  same_list :
      nodes ++ linked_from (length nodes) (s ∷ ss) ≡ passed ++ linked_from (length passed) ss
  unfolding passed
  same_list = rw length-passed (
      ap (λ (ns : List Node). nodes ++ ns) (linked_from-first (length nodes) s ss)
      ∙ sym (
          append_assoc nodes (node s (next_of (suc (length nodes)) ss) ∷ [])
            (linked_from (suc (length nodes)) ss)))

  -- What holds of the rest of the list from its first node on.
  rest_of_list :
      {A : Type 0} (walk : List Node → Option ℕ → A) {a : A}
      → walk (passed ++ linked_from (length passed) ss) (next_of (length passed) ss) ≡ a
      → walk (nodes ++ linked_from (length nodes) (s ∷ ss)) (next_of (suc (length nodes)) ss) ≡ a
  rest_of_list walk h =
      ap (λ (ns : List Node). walk ns (next_of (suc (length nodes)) ss)) same_list
      ∙ (ap (λ (i : ℕ). walk (passed ++ linked_from (length passed) ss) (next_of i ss))
            (sym length-passed)
          ∙ h)

-- One step of each walk.
find_code-node :
    (fuel : ℕ) (nodes : List Node) (i : ℕ) (n : Node)
    → get_elem? nodes i ≡ some n
    → find_code (suc fuel) nodes (some i)
      ≡ (if n.section_type == 10 then ok n.section_begin else find_code fuel nodes n.next)
unfolding find_code
find_code-node fuel nodes i n h = rw (h, find_code)

decode_list-node :
    (fuel : ℕ) (nodes : List Node) (i : ℕ) (n : Node) (p_code : Ptr) (m : Module)
    → get_elem? nodes i ≡ some n
    → decode_list (suc fuel) nodes (some i) p_code m ≡ (
        decode_section p_code n.section_type n.section_begin m
        >>= decode_list fuel nodes n.next p_code)
unfolding decode_list
decode_list-node fuel nodes i n p_code m h = rw (h, decode_list)

find_code-linked :
    (ss : List (ℕ × Ptr)) (fuel : ℕ) (nodes : List Node)
    → length ss ≤ fuel
    → find_code fuel (nodes ++ linked_from (length nodes) ss) (next_of (length nodes) ss)
      ≡ first_code ss
unfolding find_code first_code next_of
find_code-linked [] fuel nodes enough = refl
find_code-linked (s ∷ ss) zero nodes enough = absurd (omega arith)
find_code-linked (s ∷ ss) (suc fuel) nodes enough =
    find_code-node fuel (nodes ++ linked_from (length nodes) (s ∷ ss)) (length nodes) _
      (first_node nodes s ss)
    ∙ ap (λ (r : Result Ptr). if s.0 == 10 then ok s.1 else r)
        (rest_of_list nodes s ss (find_code fuel)
          (find_code-linked ss fuel (passed nodes s ss) (omega arith)))

decode_list-linked :
    (ss : List (ℕ × Ptr)) (fuel : ℕ) (nodes : List Node) (p_code : Ptr) (m : Module)
    → length ss ≤ fuel
    → decode_list fuel (nodes ++ linked_from (length nodes) ss) (next_of (length nodes) ss) p_code m
      ≡ decode_in_order p_code ss m
unfolding decode_list decode_in_order next_of
decode_list-linked [] fuel nodes p_code m enough = refl
decode_list-linked (s ∷ ss) zero nodes p_code m enough = absurd (omega arith)
decode_list-linked (s ∷ ss) (suc fuel) nodes p_code m enough =
    decode_list-node fuel (nodes ++ linked_from (length nodes) (s ∷ ss)) (length nodes) _ p_code m
      (first_node nodes s ss)
    ∙ (ap (λ (k : Module → Result Module). decode_section p_code s.0 s.1 m >>= k)
        (fun_ext λ m'.
          rest_of_list nodes s ss (λ ns i. decode_list fuel ns i p_code m')
            (decode_list-linked ss fuel (passed nodes s ss) p_code m' (omega arith))))

-- A module with these sections, whose loader gives up NULL or a module.
abbrev pub assembled : List (ℕ × List ℕ) → Ptr
assembled ss = header ++ put_each put_pair ss

abbrev pub loaded : Result Module → Result (Option Module)
loaded r = r >>= λ m. ok (some m)

checked_header : (rest : Ptr) → check_magic_number_and_version (header ++ rest) ≡ ok (true, rest)
unfolding check_magic_number_and_version header read_value bb_put_le
checked_header rest = refl

after_header : (xs : Ptr) → length (header ++ xs) - 8 ≡ length xs
unfolding header bb_put_le
after_header xs = omega arith

decode_each_sections-linked :
    (s : ℕ × Ptr) (ss : List (ℕ × Ptr)) (fuel : ℕ) (m : Module)
    → length (s ∷ ss) ≤ fuel
    → decode_each_sections fuel (linked_from 0 (s ∷ ss)) m
      ≡ (first_code (s ∷ ss) >>= λ p_code. decode_in_order p_code (s ∷ ss) m)
unfolding decode_each_sections linked_from next_of
decode_each_sections-linked s ss fuel m enough =
    ap
      (λ (r : Result Ptr).
        r >>= λ p_code. decode_list fuel (linked_from 0 (s ∷ ss)) (some 0) p_code m)
      (find_code-linked (s ∷ ss) fuel [] enough)
    ∙ ap (λ (k : Ptr → Result Module). first_code (s ∷ ss) >>= k)
        (fun_ext λ p_code. decode_list-linked (s ∷ ss) fuel [] p_code m enough)

deep_load-list :
    (ss : List (ℕ × List ℕ)) (fuel : ℕ) (rest : Ptr) (nodes : List Node)
    → create_section_list (put_each put_pair ss ++ rest) (length (put_each put_pair ss))
      ≡ ok (some nodes)
    → deep_load fuel (assembled ss ++ rest) (length (assembled ss))
      ≡ loaded (decode_each_sections fuel nodes empty_module)
unfolding deep_load
deep_load-list ss fuel rest nodes h = rw (
  append_assoc header (put_each put_pair ss) rest,
  checked_header (put_each put_pair ss ++ rest),
  after_header (put_each put_pair ss),
  h,
)

code_section :
    (type : ℕ) (p_code begin : Ptr) (m : Module)
    → type ≡ 10
    → decode_section p_code type begin m ≡ ok m
unfolding decode_section
code_section type p_code begin m code = rw code refl

length-placed : (ss : List (ℕ × List ℕ)) (rest : Ptr) → length (placed ss rest) ≡ length ss
unfolding placed
length-placed [] rest = refl
length-placed (s ∷ ss) rest = ap suc (length-placed ss rest)

-- A node that is linked to itself keeps both walks going.
module _ (s : ℕ × Ptr) where
  find_code-circular :
      (fuel : ℕ)
      → (s.0 == 10) ≡ false
      → find_code fuel (node s (some 0) ∷ []) (some 0) ≡ err out_of_fuel
  unfolding find_code
  find_code-circular zero other = refl
  find_code-circular (suc fuel) other = rw (other, find_code-circular fuel other)

  decode_list-circular :
      (fuel : ℕ) (p_code : Ptr) (m : Module)
      → s.0 ≡ 10
      → decode_list fuel (node s (some 0) ∷ []) (some 0) p_code m ≡ err out_of_fuel
  unfolding decode_list
  decode_list-circular zero p_code m code = refl
  decode_list-circular (suc fuel) p_code m code =
      rw (code_section s.0 p_code s.1 m code, decode_list-circular fuel p_code m code)

  decode_each_sections-circular :
      (fuel : ℕ) (m : Module) → decode_each_sections fuel (node s (some 0) ∷ []) m ≡ err out_of_fuel
  unfolding decode_each_sections find_code
  decode_each_sections-circular zero m = refl
  decode_each_sections-circular (suc fuel) m = elim (Bool-cases (s.0 == 10)) [
    | inl code ↦ rw code (decode_list-circular (suc fuel) s.1 m (==→eq s.0 10 code))
    | inr other ↦ rw (other, find_code-circular fuel other)
  ]

-- A module of two sections or more, and any bytes behind it, is loaded by decoding its sections
-- in their order, each with the content of the first code section at hand; the fuel is enough for
-- as many sections as there are, and without a code section the load is undefined.
pub deep_load-in_order :
    (s t : ℕ × List ℕ) (ss : List (ℕ × List ℕ)) (fuel : ℕ) (rest : Ptr)
    → length (s ∷ (t ∷ ss)) ≤ fuel
    → All (λ s. length s.1 < 2 ^ 31) (s ∷ (t ∷ ss))
    → deep_load fuel (assembled (s ∷ (t ∷ ss)) ++ rest) (length (assembled (s ∷ (t ∷ ss))))
      ≡ loaded (
          first_code (placed (s ∷ (t ∷ ss)) rest) >>= λ p_code.
          decode_in_order p_code (placed (s ∷ (t ∷ ss)) rest) empty_module)
unfolding placed
deep_load-in_order s t ss fuel rest enough small =
    deep_load-list (s ∷ (t ∷ ss)) fuel rest (linked_from 0 (placed (s ∷ (t ∷ ss)) rest))
      (create_section_list-put_each s t ss rest small)
    ∙ ap loaded
        (decode_each_sections-linked _ _ fuel empty_module (omega (arith, length-placed ss rest)))

-- A module of a single section is never loaded: its list has no end.
pub deep_load-never_ends :
    (s : ℕ × List ℕ) (fuel : ℕ) (rest : Ptr)
    → length s.1 < 2 ^ 31
    → deep_load fuel (assembled (s ∷ []) ++ rest) (length (assembled (s ∷ []))) ≡ err out_of_fuel
deep_load-never_ends s fuel rest small =
    deep_load-list (s ∷ []) fuel rest (node (s.0, s.1 ++ rest) (some 0) ∷ [])
      (create_section_list-circular s rest small)
    ∙ ap loaded (decode_each_sections-circular (s.0, s.1 ++ rest) fuel empty_module)
