-- ===== src/Loader/RoundTrip/Modules.antt =====
-- `deep_load` of src/deep_loader.c on what `assemble_module` of src/deep_wat.c writes.
use deepvm.Base.{
  ℕ, ◌^◌, ◌<◌, ◌≤◌, ◌≡◌, refl, fun_ext, sym, ap, ◌∙◌, false, Option, none, some, List, [], ◌∷◌,
  ◌++◌, append_assoc, Result, ok, err, ◌>>=◌, length, All, arith, ◌==◌,
}
use deepvm.Leb.{Ptr}
use deepvm.Vm.State.{Module}
use deepvm.Loader.Load.{decode_section, deep_load, empty_module}
use deepvm.Loader.Linked.{put_pair, placed}
use deepvm.Loader.Assembled.{first_code, decode_in_order, assembled, loaded, deep_load-in_order}
use deepvm.Wat.Sections.{put_each, put_vector}
use deepvm.Wat.Modules.{section_of, section_of_option}

bind_assoc :
    {A B C : Type 0} (r : Result A) (f : A → Result B) (g : B → Result C)
    → ((r >>= f) >>= g) ≡ (r >>= λ a. f a >>= g)
bind_assoc (err e) f g = refl
bind_assoc (ok a) f g = refl

decode_in_order-append :
    (p_code : Ptr) (xs ys : List (ℕ × Ptr)) (m : Module)
    → decode_in_order p_code (xs ++ ys) m
      ≡ (decode_in_order p_code xs m >>= decode_in_order p_code ys)
unfolding decode_in_order
decode_in_order-append p_code [] ys m = refl
decode_in_order-append p_code (x ∷ xs) ys m =
    ap (λ (k : Module → Result Module). decode_section p_code x.0 x.1 m >>= k)
      (fun_ext (decode_in_order-append p_code xs ys))
    ∙ sym (
        bind_assoc (decode_section p_code x.0 x.1 m) (decode_in_order p_code xs)
          (decode_in_order p_code ys))

put_each-append :
    {A : Type 0} (put : A → Ptr) (xs ys : List A)
    → put_each put (xs ++ ys) ≡ put_each put xs ++ put_each put ys
unfolding put_each
put_each-append put [] ys = refl
put_each-append put (x ∷ xs) ys =
    rw (put_each-append put xs ys) (sym (append_assoc (put x) (put_each put xs) (put_each put ys)))

placed-append :
    (xs ys : List (ℕ × List ℕ)) (rest : Ptr)
    → placed (xs ++ ys) rest ≡ placed xs (put_each put_pair ys ++ rest) ++ placed ys rest
unfolding placed
placed-append [] ys rest = refl
placed-append (x ∷ xs) ys rest =
    rw
      (
        put_each-append put_pair xs ys,
        append_assoc (put_each put_pair xs) (put_each put_pair ys) rest,
        placed-append xs ys rest,
      )
      refl

-- The sections at the head, once they are decoded, leave the others.
pub in_turn :
    (p_code : Ptr) (xs ys : List (ℕ × List ℕ)) (rest : Ptr) (m : Module) {m' : Module}
    → decode_in_order p_code (placed xs (put_each put_pair ys ++ rest)) m ≡ ok m'
    → decode_in_order p_code (placed (xs ++ ys) rest) m ≡ decode_in_order p_code (placed ys rest) m'
in_turn p_code xs ys rest m h =
    ap (λ (ss : List (ℕ × Ptr)). decode_in_order p_code ss m) (placed-append xs ys rest)
    ∙ (decode_in_order-append p_code (placed xs (put_each put_pair ys ++ rest)) (placed ys rest) m
        ∙ ap (λ (r : Result Module). r >>= decode_in_order p_code (placed ys rest)) h)

-- A section that may be left out: the module is then the same.
pub section_of-decoded :
    {A : Type 0} (p_code : Ptr) (id : ℕ) (put : A → Ptr) (xs : List A) (rest : Ptr) (m m' : Module)
    → (xs ≡ [] → m ≡ m')
    → decode_section p_code id (put_vector put xs ++ rest) m ≡ ok m'
    → decode_in_order p_code (placed (section_of id put xs) rest) m ≡ ok m'
unfolding section_of decode_in_order placed put_each
section_of-decoded p_code id put [] rest m m' same h = ap (λ (n : Module). ok n) (same refl)
section_of-decoded p_code id put (x ∷ xs) rest m m' same h = rw h

pub section_of_option-decoded :
    {A : Type 0} (p_code : Ptr) (id : ℕ) (put : A → Ptr) (x : Option A) (rest : Ptr) (m m' : Module)
    → (x ≡ none → m ≡ m')
    → ((a : A) → x ≡ some a → decode_section p_code id (put a ++ rest) m ≡ ok m')
    → decode_in_order p_code (placed (section_of_option id put x) rest) m ≡ ok m'
unfolding section_of_option decode_in_order placed put_each
section_of_option-decoded p_code id put none rest m m' same h =
    ap (λ (n : Module). ok n) (same refl)
section_of_option-decoded p_code id put (some a) rest m m' same h = rw (h a refl)

-- A section of another number does not hide the code section.
pub first_code-section_of :
    {A : Type 0} (id : ℕ) (put : A → Ptr) (xs : List A) (ys : List (ℕ × List ℕ)) (rest : Ptr)
    → (id == 10) ≡ false
    → first_code (placed (section_of id put xs ++ ys) rest) ≡ first_code (placed ys rest)
unfolding section_of first_code placed
first_code-section_of id put [] ys rest other = refl
first_code-section_of id put (x ∷ xs) ys rest other = rw other

pub first_code-section_of_option :
    {A : Type 0} (id : ℕ) (put : A → Ptr) (x : Option A) (ys : List (ℕ × List ℕ)) (rest : Ptr)
    → (id == 10) ≡ false
    → first_code (placed (section_of_option id put x ++ ys) rest) ≡ first_code (placed ys rest)
unfolding section_of_option first_code placed
first_code-section_of_option id put none ys rest other = refl
first_code-section_of_option id put (some a) ys rest other = rw other

-- `deep_load-in_order` for a list that is not taken apart.
pub deep_load-sections :
    (ss : List (ℕ × List ℕ)) (fuel : ℕ) (rest : Ptr)
    → 2 ≤ length ss
    → length ss ≤ fuel
    → All (λ s. length s.1 < 2 ^ 31) ss
    → deep_load fuel (assembled ss ++ rest) (length (assembled ss))
      ≡ loaded (
          first_code (placed ss rest) >>= λ p_code.
          decode_in_order p_code (placed ss rest) empty_module)
deep_load-sections [] fuel rest two enough small = absurd (omega arith)
deep_load-sections (s ∷ []) fuel rest two enough small = absurd (omega arith)
deep_load-sections (s ∷ (t ∷ ss)) fuel rest two enough small =
    deep_load-in_order s t ss fuel rest enough small
