-- ===== src/Wat/Forms.antt =====
-- The types of functions in the forms of src/deep_wat.c (`parse_type_form`, `register_func_type`).
pub mod Registered
use deepvm.Base.{
  ℕ, zero, suc, ◌+◌, ◌-◌, Bool, true, false, Option, none, some, List, [], ◌∷◌, ◌++◌, Result, ok,
  err, undefined, ◌>>=◌, length, ltb, if◌then◌else◌,
}
use deepvm.Vm.State.{FuncType}
use deepvm.Interp.Native.{same_string}
use deepvm.Wat.Trees.{SExpr, atom, list, Kids, nil, cons}
use deepvm.Wat.Mnemonics.{valtype_from_str}
use deepvm.Wat.Types.{find_or_add_type}
use deepvm.Wat.Scopes.{Number, resolve_name}

-- `c->kids[0]->text`: an empty list has no first kid, and a list no text.
unfoldable pub head_text : Kids → Result (List ℕ)
head_text (cons (atom a) kids) = ok a
head_text kids = err undefined

-- The value types among these kids; other atoms, such as names, and lists are passed over.
unfoldable pub valtypes_of : Kids → List ℕ
valtypes_of nil = []
valtypes_of (cons (list k) kids) = valtypes_of kids
valtypes_of (cons (atom a) kids) =
    let rest = valtypes_of kids in elim (valtype_from_str a) [ none ↦ rest | some t ↦ t ∷ rest ]

-- The kids from the second one on.
unfoldable pub operands : Kids → Kids
operands nil = nil
operands (cons k kids) = kids

abbrev pub param_word : List ℕ
param_word = b'p' ∷ b'a' ∷ b'r' ∷ b'a' ∷ b'm' ∷ []

abbrev pub result_word : List ℕ
result_word = b'r' ∷ b'e' ∷ b's' ∷ b'u' ∷ b'l' ∷ b't' ∷ []

abbrev pub type_word : List ℕ
type_word = b't' ∷ b'y' ∷ b'p' ∷ b'e' ∷ []

abbrev pub func_word : List ℕ
func_word = b'f' ∷ b'u' ∷ b'n' ∷ b'c' ∷ []

-- A list of parameters or of results adds to the type, another list does not.
unfoldable pub add_types : List ℕ → Kids → FuncType → FuncType
add_types word kids sig =
    if same_string word param_word
    then record sig { params = sig.params ++ valtypes_of (operands kids) }
    else if same_string word result_word
    then record sig { results = sig.results ++ valtypes_of (operands kids) }
    else sig

-- The loop over the kids of `(func …)` in a type.
unfoldable pub func_types : Kids → FuncType → Result FuncType
func_types nil sig = ok sig
func_types (cons (atom a) kids) sig = func_types kids sig
func_types (cons (list k) kids) sig = head_text k >>= λ word. func_types kids (add_types word k sig)

abbrev pub empty_sig : FuncType
empty_sig = record { params = []; results = [] }

-- The first `(func …)` among the kids of `(type …)`; without one there is no type.
unfoldable pub find_func : Kids → Result (Option FuncType)
find_func nil = ok none
find_func (cons (atom a) kids) = find_func kids
find_func (cons (list k) kids) =
    let rest = find_func kids in
    let here = func_types (operands k) empty_sig >>= λ sig. ok (some sig) in
    head_text k >>= λ word. if same_string word func_word then here else rest

unfoldable pub parse_type_form : Kids → Result (Option FuncType)
parse_type_form form = find_func (operands form)

-- `types_sig` and `type_names`, which are of one length.
pub record TypeTable : Type 0 where
  pub types_sig : List FuncType
  pub type_names : List (Option (List ℕ))

-- `find_or_add_type` with the name of a new type, which is NULL.
unfoldable pub add_to_table : TypeTable → FuncType → ℕ × TypeTable
add_to_table table sig =
    let found = find_or_add_type table.types_sig sig in
    let names =
      if ltb (length table.types_sig) (length found.1)
      then table.type_names ++ (none ∷ [])
      else table.type_names in
    (found.0, record { types_sig = found.1; type_names = names })

module _ (strtol : List ℕ → Number) where
  -- `(type …)` with a name or a number; without an atom it changes nothing.
  unfoldable pub type_use_of : TypeTable → Kids → Option ℕ → Option ℕ
  type_use_of table (cons k (cons (atom ref) kids)) type_use =
      resolve_name strtol table.type_names ref
  type_use_of table kids type_use = type_use

  -- The loop of `register_func_type`: what `(type …)` says last, and the types in line.
  unfoldable pub func_form : TypeTable → Kids → Option ℕ → FuncType → Result (Option ℕ × FuncType)
  func_form table nil type_use sig = ok (type_use, sig)
  func_form table (cons (atom a) kids) type_use sig = func_form table kids type_use sig
  func_form table (cons (list k) kids) type_use sig = head_text k >>= λ word.
      if same_string word type_word
      then func_form table kids (type_use_of table k type_use) sig
      else func_form table kids type_use (add_types word k sig)

  -- The number of the type that the kids of a form, from its start on, describe. Without a type in
  -- line it is the one without parameters and results, which is what was gathered.
  unfoldable pub register_func_type : TypeTable → Kids → Result (ℕ × TypeTable)
  register_func_type table form = func_form table form none empty_sig >>= λ described.
      elim described.0 [ some i ↦ ok (i, table) | none ↦ ok (add_to_table table described.1) ]
