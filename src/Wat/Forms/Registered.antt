-- ===== src/Wat/Forms/Registered.antt =====
-- What src/deep_wat.c gathers from the lists `(param …)` and `(result …)`: in the `(func …)` of a
-- form of a type, and in a form of a function.
use deepvm.Base.{
  ℕ, ◌≡◌, refl, sym, ap, ◌∙◌, none, append-nil, append_assoc, some, List, [], ◌∷◌, ◌++◌, ok,
  get_elem?,
}
use deepvm.Vm.State.{FuncType}
use deepvm.Interp.Native.{same_string, same_bytes, c_string}
use deepvm.Wat.Trees.{atom, list, Kids, SExpr, nil, cons}
use deepvm.Wat.Mnemonics.{valtype_from_str}
use deepvm.Wat.Types.{IsDistinct, find_or_add_type-finds}
use deepvm.Wat.Scopes.{Number}
use deepvm.Wat.Forms.{
  valtypes_of, param_word, result_word, type_word, func_word, func_types, find_func, operands,
  head_text, add_types, parse_type_form, TypeTable, add_to_table, func_form, empty_sig,
  register_func_type,
}

pub data ValueType : Type 0 where
  i32 i64 f32 f64 : ValueType

unfoldable pub code_of : ValueType → ℕ
code_of i32 = 0x7f
code_of i64 = 0x7e
code_of f32 = 0x7d
code_of f64 = 0x7c

unfoldable pub word_of : ValueType → List ℕ
word_of i32 = b'i' ∷ b'3' ∷ b'2' ∷ []
word_of i64 = b'i' ∷ b'6' ∷ b'4' ∷ []
word_of f32 = b'f' ∷ b'3' ∷ b'2' ∷ []
word_of f64 = b'f' ∷ b'6' ∷ b'4' ∷ []

unfoldable pub codes_of : List ValueType → List ℕ
codes_of [] = []
codes_of (t ∷ ts) = code_of t ∷ codes_of ts

unfoldable pub words_of : List ValueType → Kids
words_of [] = nil
words_of (t ∷ ts) = cons (atom (word_of t)) (words_of ts)

-- A list among the kids of a form: `(param t …)`, `(param $name t)` and `(result t …)`.
pub data Entry : Type 0 where
  param : List ValueType → Entry
  named : List ℕ → ValueType → Entry
  result : List ValueType → Entry

unfoldable pub entry_of : Entry → SExpr
entry_of (param ts) = list (cons (atom param_word) (words_of ts))
entry_of (named name t) =
    list (cons (atom param_word) (cons (atom (b'$' ∷ name)) (words_of (t ∷ []))))
entry_of (result ts) = list (cons (atom result_word) (words_of ts))

unfoldable pub entries_of : List Entry → Kids
entries_of [] = nil
entries_of (e ∷ es) = cons (entry_of e) (entries_of es)

-- The parameters of all lists in their order, and the results.
unfoldable pub params_of : List Entry → List ℕ
params_of [] = []
params_of (param ts ∷ es) = codes_of ts ++ params_of es
params_of (named name t ∷ es) = code_of t ∷ params_of es
params_of (result ts ∷ es) = params_of es

unfoldable pub results_of : List Entry → List ℕ
results_of [] = []
results_of (param ts ∷ es) = results_of es
results_of (named name t ∷ es) = results_of es
results_of (result ts ∷ es) = codes_of ts ++ results_of es

unfoldable pub sig_of : List Entry → FuncType
sig_of es = record { params = params_of es; results = results_of es }

-- `(type (func …))` with these lists.
unfoldable pub type_form_of : List Entry → Kids
type_form_of es = cons (atom type_word) (cons (list (cons (atom func_word) (entries_of es))) nil)

valtypes_of-words_of : (ts : List ValueType) → valtypes_of (words_of ts) ≡ codes_of ts
unfolding valtypes_of words_of codes_of word_of code_of valtype_from_str same_string
valtypes_of-words_of [] = refl
valtypes_of-words_of (i32 ∷ ts) = ap (◌∷◌ 0x7f) (valtypes_of-words_of ts)
valtypes_of-words_of (i64 ∷ ts) = ap (◌∷◌ 0x7e) (valtypes_of-words_of ts)
valtypes_of-words_of (f32 ∷ ts) = ap (◌∷◌ 0x7d) (valtypes_of-words_of ts)
valtypes_of-words_of (f64 ∷ ts) = ap (◌∷◌ 0x7c) (valtypes_of-words_of ts)

-- A name is no value type.
valtypes_of-named :
    (name : List ℕ) (t : ValueType)
    → valtypes_of (cons (atom (b'$' ∷ name)) (words_of (t ∷ []))) ≡ code_of t ∷ []
unfolding valtypes_of codes_of valtype_from_str same_string same_bytes c_string
valtypes_of-named name t = valtypes_of-words_of (t ∷ [])

-- A type with these lists behind what it has.
add_entries : FuncType → List Entry → FuncType
add_entries sig es = record {
  params = sig.params ++ params_of es;
  results = sig.results ++ results_of es;
}

-- What one list adds to a type.
add_entry : Entry → FuncType → FuncType
add_entry (param ts) sig = record sig { params = sig.params ++ codes_of ts }
add_entry (named name t) sig = record sig { params = sig.params ++ (code_of t ∷ []) }
add_entry (result ts) sig = record sig { results = sig.results ++ codes_of ts }

add_entries-nil : (sig : FuncType) → add_entries sig [] ≡ sig
unfolding add_entries params_of results_of
add_entries-nil sig = rw (append-nil sig.params, append-nil sig.results) refl

add_entries-cons :
    (sig : FuncType) (e : Entry) (es : List Entry)
    → add_entries (add_entry e sig) es ≡ add_entries sig (e ∷ es)
unfolding add_entries add_entry params_of results_of
add_entries-cons sig (param ts) es = rw (append_assoc sig.params (codes_of ts) (params_of es)) refl
add_entries-cons sig (named name t) es =
    rw (append_assoc sig.params (code_of t ∷ []) (params_of es)) refl
add_entries-cons sig (result ts) es =
    rw (append_assoc sig.results (codes_of ts) (results_of es)) refl

func_types-cons :
    (e : Entry) (kids : Kids) (sig : FuncType)
    → func_types (cons (entry_of e) kids) sig ≡ func_types kids (add_entry e sig)
unfolding func_types entry_of head_text add_entry add_types operands same_string
func_types-cons (param ts) kids sig = rw (valtypes_of-words_of ts) refl
func_types-cons (named name t) kids sig = rw (valtypes_of-named name t) refl
func_types-cons (result ts) kids sig = rw (valtypes_of-words_of ts) refl

func_types-entries_of :
    (es : List Entry) (sig : FuncType) → func_types (entries_of es) sig ≡ ok (add_entries sig es)
unfolding func_types entries_of
func_types-entries_of [] sig = ap ok (sym (add_entries-nil sig))
func_types-entries_of (e ∷ es) sig =
    func_types-cons e (entries_of es) sig
    ∙ (func_types-entries_of es (add_entry e sig) ∙ ap ok (add_entries-cons sig e es))

parse_type_form-value :
    (es : List Entry) → parse_type_form (type_form_of es) ≡ ok (some (sig_of es))
unfolding parse_type_form type_form_of find_func operands head_text same_string sig_of add_entries
parse_type_form-value es = rw (func_types-entries_of es empty_sig) refl

module _ (strtol : List ℕ → Number) where
  func_form-cons :
      (table : TypeTable) (e : Entry) (kids : Kids) (sig : FuncType)
      → func_form strtol table (cons (entry_of e) kids) none sig
        ≡ func_form strtol table kids none (add_entry e sig)
  unfolding func_form entry_of head_text add_entry add_types operands same_string
  func_form-cons table (param ts) kids sig = rw (valtypes_of-words_of ts) refl
  func_form-cons table (named name t) kids sig = rw (valtypes_of-named name t) refl
  func_form-cons table (result ts) kids sig = rw (valtypes_of-words_of ts) refl

  func_form-entries_of :
      (table : TypeTable) (es : List Entry) (sig : FuncType)
      → func_form strtol table (entries_of es) none sig ≡ ok (none, add_entries sig es)
  unfolding func_form entries_of
  func_form-entries_of table [] sig =
      ap (λ (t : FuncType). ok (none, t)) (sym (add_entries-nil sig))
  func_form-entries_of table (e ∷ es) sig =
      func_form-cons table e (entries_of es) sig
      ∙ (func_form-entries_of table es (add_entry e sig)
          ∙ ap (λ (t : FuncType). ok (none, t)) (add_entries-cons sig e es))

  register_func_type-value :
      (table : TypeTable) (es : List Entry)
      → register_func_type strtol table (entries_of es) ≡ ok (add_to_table table (sig_of es))
  unfolding register_func_type sig_of add_entries
  register_func_type-value table es = rw (func_form-entries_of table es empty_sig) refl

  -- For any lists of parameters, named or not, and of results, `parse_type_form` reads from a form of
  -- a type with these lists the type of all their parameters and all their results in their order, and
  -- `register_func_type` registers this type for the lists in a form of a function: the number that
  -- it gives names the type in the table, the types that were there keep their numbers, and no two
  -- types in the table are equal where no two were before.
  pub register_func_type-parse_type_form :
      (table : TypeTable) (es : List Entry)
      → IsDistinct table.types_sig
      → (i : ℕ) × (after : TypeTable) × (added : List FuncType) × (parse_type_form (type_form_of es)
          ≡ ok (some (sig_of es)))
        × (register_func_type strtol table (entries_of es) ≡ ok (i, after))
        × (get_elem? after.types_sig i ≡ some (sig_of es))
        × (after.types_sig ≡ table.types_sig ++ added)
        × IsDistinct after.types_sig
  unfolding add_to_table
  register_func_type-parse_type_form table es distinct =
      let found = find_or_add_type-finds table.types_sig (sig_of es) distinct in
      let after = add_to_table table (sig_of es) in
      (
        after.0,
        after.1,
        found.1.0,
        parse_type_form-value es,
        register_func_type-value table es,
        found.0,
        found.1.1,
        found.2,
      )
