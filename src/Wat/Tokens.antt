-- ===== src/Wat/Tokens.antt =====
-- The tokens of src/deep_wat.c (`tokenize`). A text is the list of its bytes up to its NUL, which is
-- what `*p` reads behind the last one.
pub mod RoundTrip
use deepvm.Base.{
  ℕ, zero, suc, ◌+◌, ◌-◌, ◌*◌, ◌/◌, ◌%◌, ◌^◌, Bool, true, false, ◌&&◌, ◌||◌, not, List, [], ◌∷◌,
  ◌++◌, Result, ok, err, undefined, out_of_fuel, ◌>>=◌, length, leb, ltb, ◌==◌, if◌then◌else◌,
  bit_or,
}

pub data Token : Type 0 where
  lparen rparen : Token
  atom : List ℕ → Token

unfoldable pub isspace : ℕ → Bool
isspace c = (leb 9 c && leb c 13) || (c == 32)

unfoldable pub isdigit : ℕ → Bool
isdigit c = leb b'0' c && leb c b'9'

unfoldable pub tolower : ℕ → ℕ
tolower c = if leb b'A' c && leb c b'Z' then c + 32 else c

unfoldable pub isxdigit : ℕ → Bool
isxdigit c = isdigit c || (leb b'a' (tolower c) && leb (tolower c) b'f')

-- A digit's value as the escapes compute it, in 32 bits.
unfoldable pub hex_value : ℕ → ℕ
hex_value c = if isdigit c then c - b'0' else (tolower c + 2 ^ 32 + 10 - b'a') % 2 ^ 32

-- `;;`
unfoldable pub line_comment : List ℕ → List ℕ
line_comment [] = []
line_comment (c ∷ p) = let rest = line_comment p in if c == 10 then c ∷ p else rest

-- `(;`, with so many of them open.
unfoldable pub block_comment : ℕ → List ℕ → List ℕ
block_comment zero p = p
block_comment (suc depth) [] = []
block_comment (suc depth) (c ∷ []) = []
block_comment (suc depth) (c ∷ (d ∷ p)) =
    let opened = block_comment (suc (suc depth)) p in
    let closed = block_comment depth p in
    let inside = block_comment (suc depth) (d ∷ p) in
    if (c == b'(') && (d == b';')
    then opened
    else if (c == b';') && (d == b')')
    then closed
    else inside

-- `\x` with up to `h` more digits: the value and what follows.
unfoldable pub hex_escape : ℕ → ℕ → List ℕ → ℕ × List ℕ
hex_escape zero v p = (v, p)
hex_escape (suc h) v [] = (v, [])
hex_escape (suc h) v (c ∷ p) =
    let rest = hex_escape h (v * 16 + hex_value c) p in if isxdigit c then rest else (v, c ∷ p)

-- The digits of `\u{`, whatever they are, up to the brace and with it.
unfoldable pub code_point : ℕ → List ℕ → ℕ × List ℕ
code_point cp [] = (cp, [])
code_point cp (c ∷ p) =
    let rest = code_point ((cp * 16 + hex_value c) % 2 ^ 32) p in
    if c == b'}' then (cp, p) else rest

-- A code point in UTF-8, of three bytes at most.
unfoldable pub utf8 : ℕ → List ℕ
utf8 cp =
    if ltb cp 0x80
    then cp ∷ []
    else if ltb cp 0x800
    then bit_or 0xc0 (cp / 2 ^ 6) ∷ (bit_or 0x80 (cp % 2 ^ 6) ∷ [])
    else bit_or 0xe0 (cp / 2 ^ 12) % 2 ^ 8
      ∷ (bit_or 0x80 (cp / 2 ^ 6 % 2 ^ 6) ∷ (bit_or 0x80 (cp % 2 ^ 6) ∷ []))

-- The byte that an escape other than `\u{` stands for, and what follows it; `p` is behind the
-- backslash. A backslash at the end of the text is stepped over together with the NUL. `\u` without
-- a brace is not stepped over.
unfoldable pub escape : List ℕ → Result (ℕ × List ℕ)
escape [] = err undefined
escape (c ∷ p) =
    if c == b'n'
    then ok (10, p)
    else if c == b't'
    then ok (9, p)
    else if c == b'r'
    then ok (13, p)
    else if c == b'0'
    then ok (0, p)
    else if c == b'x'
    then (let v = hex_escape 2 0 p in ok (v.0 % 2 ^ 8, v.1))
    else if c == b'u'
    then ok (c, c ∷ p)
    else ok (c, p)

-- `if (n < sizeof (buf) - 1) buf[n++] = c`: what does not fit is dropped.
unfoldable pub put_byte : List ℕ → ℕ → List ℕ
put_byte buf c = if ltb (length buf) 4095 then buf ++ (c ∷ []) else buf

-- The bytes of `\u{`, which go into the 4096 bytes of the buffer unchecked.
unfoldable pub put_code_point : List ℕ → ℕ → Result (List ℕ)
put_code_point buf cp =
    if leb (length buf + length (utf8 cp)) 4096 then ok (buf ++ utf8 cp) else err undefined

unfoldable pub is_code_point : List ℕ → Bool
is_code_point (c ∷ (d ∷ p)) = (c == b'u') && (d == b'{')
is_code_point p = false

unfoldable pub behind_brace : List ℕ → List ℕ
behind_brace (c ∷ (d ∷ p)) = p
behind_brace p = p

-- The content of a string, with fuel for its rounds; what follows is behind the closing quote.
unfoldable pub string_loop : ℕ → List ℕ → List ℕ → Result (List ℕ × List ℕ)
string_loop fuel buf [] = ok (buf, [])
string_loop zero buf (c ∷ p) = err out_of_fuel
string_loop (suc fuel) buf (c ∷ p) =
    let plain = string_loop fuel (put_byte buf c) p in
    let cp = code_point 0 (behind_brace p) in
    let unicode = put_code_point buf cp.0 >>= λ buf'. string_loop fuel buf' cp.1 in
    let escaped = escape p >>= λ e. string_loop fuel (put_byte buf e.0) e.1 in
    if c == b'"'
    then ok (buf, p)
    else if c == b'\\'
    then (if is_code_point p then unicode else escaped)
    else plain

-- The bytes that an atom goes on with.
unfoldable pub is_symbol : ℕ → Bool
is_symbol c =
    not (isspace c)
    && (not (c == b'(') && (not (c == b')') && (not (c == b';') && not (c == b'"'))))

unfoldable pub span_symbol : List ℕ → List ℕ × List ℕ
span_symbol [] = ([], [])
span_symbol (c ∷ p) =
    let rest = span_symbol p in if is_symbol c then (c ∷ rest.0, rest.1) else ([], c ∷ p)

-- An atom with no byte is not put out; the text is then the same in the next round.
unfoldable pub put_atom : List ℕ → List Token → List Token
put_atom [] toks = toks
put_atom (c ∷ a) toks = atom (c ∷ a) ∷ toks

-- Whether the byte is the first of the two.
unfoldable pub starts : ℕ → ℕ → List ℕ → Bool
starts a b (c ∷ (d ∷ p)) = (c == a) && (d == b)
starts a b p = false

-- `while (*p)`, with fuel for its rounds.
unfoldable pub tokenize : ℕ → List ℕ → Result (List Token)
tokenize fuel [] = ok []
tokenize zero (c ∷ p) = err out_of_fuel
tokenize (suc fuel) (c ∷ p) =
    let space = tokenize fuel p in
    let line = tokenize fuel (line_comment (c ∷ p)) in
    let block = tokenize fuel (block_comment 1 (behind_brace (c ∷ p))) in
    let string = string_loop (suc (length p)) [] p >>= λ s.
    tokenize fuel s.1 >>= λ toks. ok (atom s.0 ∷ toks) in
    let symbol = span_symbol (c ∷ p) in
    let word = tokenize fuel symbol.1 >>= λ toks. ok (put_atom symbol.0 toks) in
    if isspace c
    then space
    else if starts b';' b';' (c ∷ p)
    then line
    else if starts b'(' b';' (c ∷ p)
    then block
    else if c == b'('
    then (space >>= λ toks. ok (lparen ∷ toks))
    else if c == b')'
    then (space >>= λ toks. ok (rparen ∷ toks))
    else if c == b'"'
    then string
    else word
