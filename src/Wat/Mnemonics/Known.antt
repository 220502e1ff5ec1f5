-- ===== src/Wat/Mnemonics/Known.antt =====
-- The names of src/deep_wat.c against the opcodes of include/deep_opcode.h.
use deepvm.Base.{
  ℕ, ◌≡◌, refl, sym, ap, ◌∙◌, Bool, true, false, ◌&&◌, Bool-cases, inl, inr, Option, none, some,
  List, [], ◌∷◌, arith, if◌then◌else◌,
}
use mathlib.Core.Option.{some-injective, some-ne-none}
use deepvm.Opcode.Kinds.{Opcode}
use deepvm.Opcode.Table.{opcode_of}
use deepvm.Interp.Native.{same_string, same_bytes, c_string}
use deepvm.Wat.Strings.{and_split, same_bytes-eq, same_string-eq}
use deepvm.Wat.Mnemonics.Words.{
  word_of, int_type_word, float_type_word, control_word, load_word, store_word, const_word,
  int_compare_word, int_unary_word, int_binary_word, float_compare_word, float_unary_word,
  float_binary_word, conversion_word,
}
use deepvm.Wat.Mnemonics.{mnemonics, find_mnemonic, lookup_opcode}

-- This opcode has this name.
is_word : Option Opcode → List ℕ → Bool
is_word none name = false
is_word (some o) name = same_bytes (word_of o) name

all_known : List (List ℕ × ℕ) → Bool
all_known [] = true
all_known (m ∷ table) = is_word (opcode_of m.1) m.0 && all_known table

mnemonics_known : all_known mnemonics ≡ true
unfolding all_known is_word opcode_of same_bytes word_of int_type_word float_type_word control_word
    load_word store_word const_word int_compare_word int_unary_word int_binary_word
    float_compare_word float_unary_word float_binary_word conversion_word
mnemonics_known = refl

is_word-some :
    (o : Option Opcode) (name : List ℕ)
    → is_word o name ≡ true
    → (a : Opcode) × (o ≡ some a) × (word_of a ≡ name)
unfolding is_word
is_word-some none name h = absurd (ground (arith, h))
is_word-some (some a) name h = (a, refl, same_bytes-eq (word_of a) name h)

-- Where the table finds a byte, it has a name with this byte that `strcmp` cannot tell from the one
-- sought.
find_mnemonic-known :
    (table : List (List ℕ × ℕ)) (name : List ℕ) (op : ℕ)
    → all_known table ≡ true
    → find_mnemonic table name ≡ some op
    → (word : List ℕ) × (is_word (opcode_of op) word ≡ true) × (c_string word ≡ c_string name)
unfolding all_known find_mnemonic
find_mnemonic-known [] name op known found = absurd (some-ne-none op (sym found))
find_mnemonic-known (m ∷ table) name op known found =
    let both = and_split (is_word (opcode_of m.1) m.0) (all_known table) known in
    elim (Bool-cases (same_string m.0 name)) [
      | inl is ↦
          let here : some m.1 ≡ some op = rw⁻¹ found (first m.1 (find_mnemonic table name) is) in
          (
            m.0,
            ap (λ (b : ℕ). is_word (opcode_of b) m.0) (sym (some-injective m.1 op here)) ∙ both.0,
            same_string-eq m.0 name is,
          )
      | inr other ↦
          find_mnemonic-known table name op both.1
            (later m.1 (find_mnemonic table name) other ∙ found)
    ]
  where
    first : {b : Bool} (x : ℕ) (r : Option ℕ) → b ≡ true → some x ≡ (if b then some x else r)
    first x r is = rw is refl

    later : {b : Bool} (x : ℕ) (r : Option ℕ) → b ≡ false → r ≡ (if b then some x else r)
    later x r other = rw other refl

-- Every name that the assembler knows is the name of an instruction of the interpreter, and the byte
-- that it stands for is the one that the interpreter takes for this instruction. A name is what comes
-- before a zero byte.
pub lookup_opcode-opcode_of :
    (name : List ℕ) (op : ℕ)
    → lookup_opcode name ≡ some op
    → (o : Opcode) × (opcode_of op ≡ some o) × (c_string name ≡ c_string (word_of o))
unfolding lookup_opcode
lookup_opcode-opcode_of name op found =
    let word = find_mnemonic-known mnemonics name op mnemonics_known found in
    let o = is_word-some (opcode_of op) word.0 word.1 in
    (o.0, o.1, sym word.2 ∙ ap (λ (w : List ℕ). c_string w) (sym o.2))
