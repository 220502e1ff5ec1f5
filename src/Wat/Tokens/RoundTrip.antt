-- ===== src/Wat/Tokens/RoundTrip.antt =====
-- `tokenize` of src/deep_wat.c reads a text of parentheses and symbols back, and does not get past a
-- single semicolon.
use deepvm.Base.{
  ℕ, zero, suc, ◌*◌, ◌≤◌, ◌<◌, ◌≡◌, refl, ◌∙◌, true, false, List, [], ◌∷◌, ◌++◌, ok, err,
  out_of_fuel, ◌>>=◌, length, All, arith, ◌==◌,
}
use deepvm.Wat.Tokens.{
  Token, lparen, rparen, atom, isspace, is_symbol, span_symbol, starts, put_atom, tokenize,
}

-- A text of the tokens: an atom has a space behind it.
unfoldable pub text_of : List Token → List ℕ
text_of [] = []
text_of (lparen ∷ toks) = b'(' ∷ text_of toks
text_of (rparen ∷ toks) = b')' ∷ text_of toks
text_of (atom a ∷ toks) = a ++ (b' ' ∷ text_of toks)

-- An atom that needs no quotes.
unfoldable pub IsWord : Token → Type 0
IsWord (atom a) = (0 < length a) × All (λ c. is_symbol c ≡ true) a
IsWord tok = Unit

starts-other : (a b c : ℕ) (p : List ℕ) → (c == a) ≡ false → starts a b (c ∷ p) ≡ false
unfolding starts
starts-other a b c [] h = refl
starts-other a b c (d ∷ p) h = rw h

starts-second : (a b c d : ℕ) (p : List ℕ) → (d == b) ≡ false → starts a b (c ∷ (d ∷ p)) ≡ false
unfolding starts
starts-second a b c d p h = ground arith

symbol_is :
    (c : ℕ)
    → is_symbol c ≡ true
    → (isspace c ≡ false)
      × ((c == b'(') ≡ false)
      × ((c == b')') ≡ false)
      × ((c == b';') ≡ false)
      × ((c == b'"') ≡ false)
unfolding is_symbol
symbol_is c h = (ground arith, ground arith, ground arith, ground arith, ground arith)

-- No text starts with a semicolon.
no_comment : (toks : List Token) → All IsWord toks → starts b'(' b';' (b'(' ∷ text_of toks) ≡ false
unfolding text_of IsWord starts
no_comment [] words = refl
no_comment (lparen ∷ toks) words = starts-second b'(' b';' b'(' b'(' (text_of toks) refl
no_comment (rparen ∷ toks) words = starts-second b'(' b';' b'(' b')' (text_of toks) refl
no_comment (atom [] ∷ toks) words = absurd (omega (arith, words.0.0))
no_comment (atom (c ∷ a) ∷ toks) words =
    starts-second b'(' b';' b'(' c (a ++ (b' ' ∷ text_of toks)) (symbol_is c words.0.1.0).3

space_ends : is_symbol b' ' ≡ false
unfolding is_symbol isspace
space_ends = refl

span_symbol-word :
    (a rest : List ℕ)
    → All (λ c. is_symbol c ≡ true) a
    → span_symbol (a ++ (b' ' ∷ rest)) ≡ (a, b' ' ∷ rest)
unfolding span_symbol
span_symbol-word [] rest symbols = rw space_ends refl
span_symbol-word (c ∷ a) rest symbols = rw (span_symbol-word a rest symbols.1, symbols.0)

not_space : isspace b';' ≡ false
unfolding isspace
not_space = refl

-- A round at an atom.
tokenize-symbol :
    (fuel c : ℕ) (p : List ℕ)
    → isspace c ≡ false
    → (c == b'(') ≡ false
    → (c == b')') ≡ false
    → (c == b'"') ≡ false
    → starts b';' b';' (c ∷ p) ≡ false
    → tokenize (suc fuel) (c ∷ p) ≡ (
        tokenize fuel (span_symbol (c ∷ p)).1 >>= λ toks.
        ok (put_atom (span_symbol (c ∷ p)).0 toks))
unfolding tokenize
tokenize-symbol fuel c p space opening closing quote line =
    rw (space, line, starts-other b'(' b';' c p opening, opening, closing, quote)

tokenize-nothing : (fuel : ℕ) → tokenize fuel [] ≡ ok []
unfolding tokenize
tokenize-nothing fuel = refl

tokenize-zero : (c : ℕ) (p : List ℕ) → tokenize 0 (c ∷ p) ≡ err out_of_fuel
unfolding tokenize
tokenize-zero c p = refl

span_symbol-semicolon : (p : List ℕ) → span_symbol (b';' ∷ p) ≡ ([], b';' ∷ p)
unfolding span_symbol is_symbol isspace
span_symbol-semicolon p = refl

-- A round at each token but an atom.
tokenize-space : (fuel : ℕ) (p : List ℕ) → tokenize (suc fuel) (b' ' ∷ p) ≡ tokenize fuel p
unfolding tokenize isspace
tokenize-space fuel p = refl

tokenize-lparen :
    (fuel : ℕ) (p : List ℕ)
    → starts b'(' b';' (b'(' ∷ p) ≡ false
    → tokenize (suc fuel) (b'(' ∷ p) ≡ (tokenize fuel p >>= λ toks. ok (lparen ∷ toks))
unfolding tokenize isspace
tokenize-lparen fuel p plain = rw (starts-other b';' b';' b'(' p refl, plain)

tokenize-rparen :
    (fuel : ℕ) (p : List ℕ)
    → tokenize (suc fuel) (b')' ∷ p) ≡ (tokenize fuel p >>= λ toks. ok (rparen ∷ toks))
unfolding tokenize isspace
tokenize-rparen fuel p = rw (starts-other b';' b';' b')' p refl, starts-other b'(' b';' b')' p refl)

tokenize-word :
    (fuel c : ℕ) (a p : List ℕ)
    → All (λ c. is_symbol c ≡ true) (c ∷ a)
    → tokenize (suc fuel) (c ∷ a ++ (b' ' ∷ p))
      ≡ (tokenize fuel (b' ' ∷ p) >>= λ toks. ok (atom (c ∷ a) ∷ toks))
unfolding put_atom
tokenize-word fuel c a p symbols =
    let is = symbol_is c symbols.0 in
    tokenize-symbol fuel c (a ++ (b' ' ∷ p)) is.0 is.1 is.2 is.4
      (starts-other b';' b';' c (a ++ (b' ' ∷ p)) is.3)
    ∙ rw (span_symbol-word (c ∷ a) p symbols)

-- The text of tokens whose atoms are words is read back as these tokens, with fuel for two rounds
-- at each.
pub tokenize-text_of :
    (toks : List Token) (fuel : ℕ)
    → All IsWord toks
    → 2 * length toks ≤ fuel
    → tokenize fuel (text_of toks) ≡ ok toks
unfolding text_of IsWord
tokenize-text_of [] fuel words enough = tokenize-nothing fuel
tokenize-text_of (tok ∷ toks) zero words enough = absurd (omega arith)
tokenize-text_of (lparen ∷ toks) (suc fuel) words enough = rw (
  tokenize-lparen fuel (text_of toks) (no_comment toks words.1),
  tokenize-text_of toks fuel words.1 (omega arith),
)
tokenize-text_of (rparen ∷ toks) (suc fuel) words enough =
    rw (tokenize-rparen fuel (text_of toks), tokenize-text_of toks fuel words.1 (omega arith))
tokenize-text_of (atom [] ∷ toks) (suc fuel) words enough = absurd (omega (arith, words.0.0))
tokenize-text_of (atom (c ∷ a) ∷ toks) (suc zero) words enough = absurd (omega arith)
tokenize-text_of (atom (c ∷ a) ∷ toks) (suc (suc fuel)) words enough = rw (
  tokenize-word (suc fuel) c a (text_of toks) words.0.1,
  tokenize-space fuel (text_of toks),
  tokenize-text_of toks fuel words.1 (omega arith),
)

-- With any fuel, `tokenize` does not get past a semicolon that starts no comment.
pub tokenize-never_ends :
    (fuel : ℕ) (p : List ℕ)
    → starts b';' b';' (b';' ∷ p) ≡ false
    → tokenize fuel (b';' ∷ p) ≡ err out_of_fuel
tokenize-never_ends zero p plain = tokenize-zero b';' p
tokenize-never_ends (suc fuel) p plain =
    tokenize-symbol fuel b';' p not_space refl refl refl plain
    ∙ rw (span_symbol-semicolon p, tokenize-never_ends fuel p plain)
