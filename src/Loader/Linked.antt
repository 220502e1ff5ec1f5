-- ===== src/Loader/Linked.antt =====
-- The linked list that `create_section_list` of src/deep_loader.c makes of the sections that
-- `put_section` of src/deep_wat.c writes.
use deepvm.Base.{
  ℕ, zero, suc, ◌+◌, ◌-◌, ◌^◌, ◌<◌, ◌≤◌, ◌≡◌, refl, sym, ap, ◌∙◌, true, false, Option, none, some,
  List, [], ◌∷◌, ◌++◌, append_assoc, ok, length, length-append, drop-append, get_elem?, set, All,
  arith, ltb, leb, ◌==◌, lt→ltb, le→leb,
}
use deepvm.Leb.{Ptr}
use deepvm.Leb.Write.{bb_put_leb_u32}
use deepvm.Leb.Unsigned.{read_leb_u32-bb_put_leb_u32}
use deepvm.Vm.State.{read_byte}
use deepvm.Loader.List.{Node, set_next, append_section, section_loop, create_section_list}
use deepvm.Wat.Sections.{put_section, put_each}

-- A section as the assembler has it, its number and its content, and as the loader has it, its
-- number and the pointer to its content.
abbrev pub put_pair : ℕ × List ℕ → Ptr
put_pair s = put_section s.0 s.1

unfoldable pub placed : List (ℕ × List ℕ) → Ptr → List (ℕ × Ptr)
placed [] rest = []
placed (s ∷ ss) rest = (s.0, s.1 ++ (put_each put_pair ss ++ rest)) ∷ placed ss rest

abbrev pub node : ℕ × Ptr → Option ℕ → Node
node s next = record { section_type = s.0; section_begin = s.1; next = next }

-- Nodes from number `i` on, each linked to the one behind it.
unfoldable pub linked_from : ℕ → List (ℕ × Ptr) → List Node
linked_from i [] = []
linked_from i (s ∷ []) = node s none ∷ []
linked_from i (s ∷ (t ∷ ss)) = node s (some (suc i)) ∷ linked_from (suc i) (t ∷ ss)

pub get_elem?-append :
    {A : Type 0} (xs : List A) (x : A) (ys : List A)
    → get_elem? (xs ++ (x ∷ ys)) (length xs) ≡ some x
get_elem?-append [] x ys = refl
get_elem?-append (y ∷ xs) x ys = get_elem?-append xs x ys

set-append :
    {A : Type 0} (xs : List A) (x : A) (ys : List A) (v : A)
    → set (xs ++ (x ∷ ys)) (length xs) v ≡ xs ++ (v ∷ ys)
set-append [] x ys v = refl
set-append (y ∷ xs) x ys v = ap (◌∷◌ y) (set-append xs x ys v)

append_all : List Node → List (ℕ × Ptr) → List Node
append_all nodes [] = nodes
append_all nodes (s ∷ ss) = append_all (append_section nodes s.0 s.1) ss

set_next-append :
    (nodes : List Node) (s : ℕ × Ptr) (next : Option ℕ) (ys : List Node) (target : ℕ)
    → set_next (nodes ++ (node s next ∷ ys)) (length nodes) target
      ≡ nodes ++ (node s (some target) ∷ ys)
unfolding set_next
set_next-append nodes s next ys target = rw (
  get_elem?-append nodes (node s next) ys,
  set_next,
  set-append nodes (node s next) ys (node s (some target)),
)

-- The new node goes behind the last one, whatever that one was linked to.
append_section-last :
    (nodes : List Node) (s : ℕ × Ptr) (next : Option ℕ) (t : ℕ × Ptr)
    → append_section (nodes ++ (node s next ∷ [])) t.0 t.1
      ≡ nodes ++ (node s (some (suc (length nodes))) ∷ (node t none ∷ []))
unfolding append_section
append_section-last nodes s next t =
    let count : length (nodes ++ (node s next ∷ [])) ≡ suc (length nodes) =
      omega (arith, length-append nodes (node s next ∷ [])) in
    let some_before : (suc (length nodes) == 0) ≡ false = ground arith in
    let previous : suc (length nodes) - 1 ≡ length nodes = omega arith in
    rw (count, some_before, previous, append_assoc nodes (node s next ∷ []) (node t none ∷ []))
      (set_next-append nodes s next (node t none ∷ []) (suc (length nodes)))

-- With sections to come, what the last node was linked to so far is overwritten.
append_all-more :
    (nodes : List Node) (s : ℕ × Ptr) (next : Option ℕ) (t : ℕ × Ptr) (ss : List (ℕ × Ptr))
    → append_all (nodes ++ (node s next ∷ [])) (t ∷ ss)
      ≡ nodes ++ linked_from (length nodes) (s ∷ (t ∷ ss))
unfolding append_all linked_from
append_all-more nodes s next t [] = append_section-last nodes s next t
append_all-more nodes s next t (u ∷ ss) =
    let before : Node = node s (some (suc (length nodes))) in
    let count : length (nodes ++ (before ∷ [])) ≡ suc (length nodes) =
      omega (arith, length-append nodes (before ∷ [])) in
    ap (λ (ns : List Node). append_all ns (u ∷ ss))
      (append_section-last nodes s next t
        ∙ sym (append_assoc nodes (before ∷ []) (node t none ∷ [])))
    ∙ (append_all-more (nodes ++ (before ∷ [])) t none u ss
        ∙ rw (
          count,
          append_assoc nodes (before ∷ []) (linked_from (suc (length nodes)) (t ∷ (u ∷ ss))),
        ))

-- Two sections or more are a list with an end; a single one is linked to itself.
append_all-linked :
    (s t : ℕ × Ptr) (ss : List (ℕ × Ptr))
    → append_all [] (s ∷ (t ∷ ss)) ≡ linked_from 0 (s ∷ (t ∷ ss))
unfolding append_all append_section set_next
append_all-linked s t ss = append_all-more [] s (some 0) t ss

append_all-circular : (s : ℕ × Ptr) → append_all [] (s ∷ []) ≡ node s (some 0) ∷ []
unfolding append_all append_section set_next
append_all-circular s = refl

section_loop-section :
    (fuel left id : ℕ) (payload after : Ptr) (nodes : List Node)
    → length payload < 2 ^ 31
    → length (bb_put_leb_u32 (length payload)) + length payload ≤ left
    → section_loop
        (suc fuel)
        (suc left)
        (id ∷ bb_put_leb_u32 (length payload) ++ (payload ++ after))
        nodes
      ≡ section_loop fuel
          (left - (length (bb_put_leb_u32 (length payload)) + length payload))
          after
          (append_section nodes id (payload ++ after))
unfolding section_loop read_byte
section_loop-section fuel left id payload after nodes small fits =
    let size : Ptr = bb_put_leb_u32 (length payload) in
    let passed : suc (length (size ++ (payload ++ after)))
          - length (payload ++ after)
          + length payload
        ≡ suc (length size + length payload) =
      omega (arith, length-append size (payload ++ after)) in
    let not_negative : ltb (length payload) (2 ^ 31) ≡ true = lt→ltb _ _ small in
    let within : leb (suc (length size + length payload)) (suc left) ≡ true =
      le→leb _ _ (omega arith) in
    let there : leb (length payload) (length (payload ++ after)) ≡ true =
      le→leb _ _ (omega (arith, length-append payload after)) in
    let remaining : suc left - suc (length size + length payload)
        ≡ left - (length size + length payload) =
      omega arith in
    rw (
      read_leb_u32-bb_put_leb_u32 (length payload) (payload ++ after) (omega arith),
      passed,
      not_negative,
      within,
      there,
      remaining,
      drop-append payload after,
    )

put_pair_shape :
    (s : ℕ × List ℕ) (xs : Ptr)
    → put_pair s ++ xs ≡ s.0 ∷ bb_put_leb_u32 (length s.1) ++ (s.1 ++ xs)
unfolding put_section
put_pair_shape s xs = rw (append_assoc (bb_put_leb_u32 (length s.1)) s.1 xs) refl

length-put_pair :
    (s : ℕ × List ℕ) (xs : Ptr)
    → length (put_pair s ++ xs)
      ≡ suc (length (bb_put_leb_u32 (length s.1)) + length s.1 + length xs)
length-put_pair s xs =
    rw (put_pair_shape s xs)
      (omega (arith, length-append (bb_put_leb_u32 (length s.1)) (s.1 ++ xs), length-append s.1 xs))

-- The loop passes over the sections one by one.
section_loop-put_each :
    (ss : List (ℕ × List ℕ)) (fuel left : ℕ) (rest : Ptr) (nodes : List Node)
    → left ≡ length (put_each put_pair ss)
    → left ≤ fuel
    → All (λ s. length s.1 < 2 ^ 31) ss
    → section_loop fuel left (put_each put_pair ss ++ rest) nodes
      ≡ ok (some (append_all nodes (placed ss rest)))
unfolding section_loop put_each placed append_all
section_loop-put_each [] fuel zero rest nodes all enough small = refl
section_loop-put_each [] fuel (suc left) rest nodes all enough small = absurd (omega arith)
section_loop-put_each (s ∷ ss) fuel zero rest nodes all enough small =
    absurd (omega (arith, length-put_pair s (put_each put_pair ss)))
section_loop-put_each (s ∷ ss) zero (suc left) rest nodes all enough small = absurd (omega arith)
section_loop-put_each (s ∷ ss) (suc fuel) (suc left) rest nodes all enough small =
    let after : Ptr = put_each put_pair ss ++ rest in
    let size : ℕ = length (bb_put_leb_u32 (length s.1)) in
    let whole = length-put_pair s (put_each put_pair ss) in
    let shape : (put_pair s ++ put_each put_pair ss) ++ rest
        ≡ s.0 ∷ bb_put_leb_u32 (length s.1) ++ (s.1 ++ after) =
      append_assoc (put_pair s) (put_each put_pair ss) rest ∙ put_pair_shape s after in
    ap (λ (p : Ptr). section_loop (suc fuel) (suc left) p nodes) shape
    ∙ (section_loop-section fuel left s.0 s.1 after nodes small.0 (omega arith)
        ∙ section_loop-put_each ss fuel (left - (size + length s.1)) rest
            (append_section nodes s.0 (s.1 ++ after)) (omega arith) (omega arith) small.1)

create_section_list-nodes :
    (p : Ptr) (size : ℕ) (n : Node) (nodes : List Node)
    → section_loop size size p [] ≡ ok (some (n ∷ nodes))
    → create_section_list p size ≡ ok (some (n ∷ nodes))
unfolding create_section_list
create_section_list-nodes p size n nodes h = rw h

-- The list of two sections or more that the assembler wrote.
pub create_section_list-put_each :
    (s t : ℕ × List ℕ) (ss : List (ℕ × List ℕ)) (rest : Ptr)
    → All (λ s. length s.1 < 2 ^ 31) (s ∷ (t ∷ ss))
    → create_section_list
        (put_each put_pair (s ∷ (t ∷ ss)) ++ rest)
        (length (put_each put_pair (s ∷ (t ∷ ss))))
      ≡ ok (some (linked_from 0 (placed (s ∷ (t ∷ ss)) rest)))
unfolding placed linked_from append_all
create_section_list-put_each s t ss rest small =
    let all : List (ℕ × List ℕ) = s ∷ (t ∷ ss) in
    let size : ℕ = length (put_each put_pair all) in
    create_section_list-nodes (put_each put_pair all ++ rest) size _ _ (
      section_loop-put_each all size size rest [] refl (omega arith) small
      ∙ ap (λ (ns : List Node). ok (some ns)) (append_all-linked _ _ (placed ss rest)))

-- A single section is linked to itself.
pub create_section_list-circular :
    (s : ℕ × List ℕ) (rest : Ptr)
    → length s.1 < 2 ^ 31
    → create_section_list (put_each put_pair (s ∷ []) ++ rest) (length (put_each put_pair (s ∷ [])))
      ≡ ok (some (node (s.0, s.1 ++ rest) (some 0) ∷ []))
unfolding placed put_each
create_section_list-circular s rest small =
    let size : ℕ = length (put_pair s ++ []) in
    create_section_list-nodes ((put_pair s ++ []) ++ rest) size (node (s.0, s.1 ++ rest) (some 0))
      []
      (section_loop-put_each (s ∷ []) size size rest [] refl (omega arith) (small, tt)
        ∙ ap (λ (ns : List Node). ok (some ns)) (append_all-circular (s.0, s.1 ++ rest)))
