-- ===== src/Wat/Tests.antt =====
-- Small texts, trees and tables.
use deepvm.Base.{
  ℕ, ◌≤◌, ◌≡◌, refl, false, Option, none, some, List, [], ◌∷◌, ◌++◌, ok, err, out_of_fuel, length,
  arith, get_elem?,
}
use deepvm.Vm.State.{FuncType}
use deepvm.Opcode.Kinds.{Opcode, convert, i32_wrap_i64}
use deepvm.Opcode.Table.{opcode_of}
use deepvm.Interp.Native.{same_string, same_bytes, c_string}
use deepvm.Wat.Mnemonics.{lookup_opcode, find_mnemonic}
use deepvm.Wat.Mnemonics.Words.{word_of}
use deepvm.Wat.Mnemonics.Complete.{lookup_opcode-word_of}
use deepvm.Wat.Mnemonics.Known.{lookup_opcode-opcode_of}
use deepvm.Wat.Scopes.{
  Number, is_name, find_name, next_index, resolve_label_depth, resolve_label_depth-IsInnermost,
  IsInnermost,
}
use deepvm.Wat.Source.{read_source, read_source-text_of}
use deepvm.Wat.Tokens
use deepvm.Wat.Tokens.{Token, lparen, rparen, isspace, is_symbol, starts, tokenize}
use deepvm.Wat.Tokens.RoundTrip.{text_of, IsWord, tokenize-text_of, tokenize-never_ends}
use deepvm.Wat.Trees.{SExpr, atom, list, nil, cons, parse_one, tokens_of, size}
use deepvm.Wat.Trees.RoundTrip.{parse_one-tokens_of}
use deepvm.Wat.Trees.Ending.{parse_one-terminates}
use deepvm.Wat.Forms.{TypeTable, parse_type_form, register_func_type}
use deepvm.Wat.Forms.Registered.{
  i32, i64, f64, Entry, param, named, result, type_form_of, entries_of, sig_of,
  register_func_type-parse_type_form,
}
use deepvm.Wat.Types.{find_or_add_type, IsDistinct, find_or_add_type-finds}

-- (nop)
abbrev nop_tokens : List Token
nop_tokens = lparen ∷ (Tokens.atom (b'n' ∷ b'o' ∷ b'p' ∷ []) ∷ (rparen ∷ []))

tokenize-text_of_example : tokenize 6 (text_of nop_tokens) ≡ ok nop_tokens
unfolding IsWord is_symbol isspace
tokenize-text_of_example =
    tokenize-text_of nop_tokens 6 (tt, ((omega arith, (refl, (refl, (refl, tt)))), (tt, tt)))
      (omega arith)

tokenize-never_ends_example : tokenize 40 (b';' ∷ b'a' ∷ []) ≡ err out_of_fuel
unfolding starts
tokenize-never_ends_example = tokenize-never_ends 40 (b'a' ∷ []) refl

abbrev nop_tree : SExpr
nop_tree = list (cons (atom (b'n' ∷ b'o' ∷ b'p' ∷ [])) (cons (list nil) nil))

parse_one-tokens_of_example :
    parse_one 8 (tokens_of nop_tree ++ (rparen ∷ [])) ≡ ok (some nop_tree, rparen ∷ [])
unfolding size
parse_one-tokens_of_example = parse_one-tokens_of nop_tree 8 (rparen ∷ []) (omega arith)

-- Two lists that are not closed.
parse_one-terminates_example :
    (r : Option SExpr × List Token) × (parse_one 5 (lparen ∷ (lparen ∷ [])) ≡ ok r)
    × (length r.1 ≤ 1)
parse_one-terminates_example = parse_one-terminates 5 (lparen ∷ (lparen ∷ [])) (omega arith)

abbrev nullary : FuncType
nullary = record { params = []; results = [] }

abbrev unary : FuncType
unary = record { params = 0x7f ∷ []; results = [] }

find_or_add_type-finds_example :
    (get_elem? (find_or_add_type (nullary ∷ []) unary).1 (find_or_add_type (nullary ∷ []) unary).0
      ≡ some unary)
    × ((added : List FuncType) × ((find_or_add_type (nullary ∷ []) unary).1
          ≡ (nullary ∷ []) ++ added))
    × IsDistinct (find_or_add_type (nullary ∷ []) unary).1
unfolding IsDistinct
find_or_add_type-finds_example = find_or_add_type-finds (nullary ∷ []) unary (tt, tt)

-- The tree, and a word behind it.
read_source-text_of_example :
    read_source 60 (text_of (tokens_of nop_tree ++ (Tokens.atom (b'n' ∷ []) ∷ [])))
    ≡ ok (some nop_tree)
unfolding tokens_of IsWord is_symbol isspace size
read_source-text_of_example =
    read_source-text_of nop_tree (Tokens.atom (b'n' ∷ []) ∷ []) 60
      (
        tt,
        (
          (omega arith, (refl, (refl, (refl, tt)))),
          (tt, (tt, (tt, ((omega arith, (refl, tt)), tt)))),
        ),
      )
      (omega arith) (omega arith)

-- No text is a number.
abbrev no_numbers : List ℕ → Number
no_numbers s = record { is_negative = false; magnitude = 0; is_whole = false }

-- `$a` in a block without a label in a block `$a` in another one.
resolve_label_depth-IsInnermost_example :
    IsInnermost (none ∷ (some (b'a' ∷ []) ∷ (some (b'a' ∷ []) ∷ []))) (b'a' ∷ []) (some 1)
unfolding resolve_label_depth find_name is_name next_index same_string same_bytes c_string
resolve_label_depth-IsInnermost_example =
    resolve_label_depth-IsInnermost no_numbers (none ∷ (some (b'a' ∷ []) ∷ (some (b'a' ∷ []) ∷ [])))
      (b'a' ∷ [])

-- i32.add
lookup_opcode-opcode_of_example :
    (o : Opcode) × (opcode_of 0x6a ≡ some o)
    × (c_string (b'i' ∷ b'3' ∷ b'2' ∷ b'.' ∷ b'a' ∷ b'd' ∷ b'd' ∷ []) ≡ c_string (word_of o))
unfolding lookup_opcode find_mnemonic same_string same_bytes c_string
lookup_opcode-opcode_of_example =
    lookup_opcode-opcode_of (b'i' ∷ b'3' ∷ b'2' ∷ b'.' ∷ b'a' ∷ b'd' ∷ b'd' ∷ []) 0x6a refl

lookup_opcode-word_of_example :
    (op : ℕ) × (lookup_opcode (word_of (convert i32_wrap_i64)) ≡ some op)
    × (opcode_of op ≡ some (convert i32_wrap_i64))
lookup_opcode-word_of_example = lookup_opcode-word_of (convert i32_wrap_i64)

-- The one type, without parameters and results.
abbrev one_type : TypeTable
one_type = record { types_sig = nullary ∷ []; type_names = none ∷ [] }

-- (param i32 f64) (result i64) (param $x i32)
abbrev three_lists : List Entry
three_lists = param (i32 ∷ (f64 ∷ [])) ∷ (result (i64 ∷ []) ∷ (named (b'x' ∷ []) i32 ∷ []))

register_func_type-parse_type_form_example :
    (i : ℕ) × (after : TypeTable) × (added : List FuncType) × (parse_type_form
        (type_form_of three_lists)
      ≡ ok (some (sig_of three_lists)))
    × (register_func_type no_numbers one_type (entries_of three_lists) ≡ ok (i, after))
    × (get_elem? after.types_sig i ≡ some (sig_of three_lists))
    × (after.types_sig ≡ (nullary ∷ []) ++ added)
    × IsDistinct after.types_sig
unfolding IsDistinct
register_func_type-parse_type_form_example =
    register_func_type-parse_type_form no_numbers one_type three_lists (tt, tt)
