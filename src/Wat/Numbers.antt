-- ===== src/Wat/Numbers.antt =====
-- Integer literals of src/deep_wat.c (`parse_int_lit`).
pub mod Values
use deepvm.Base.{
  ℕ, zero, suc, ◌+◌, ◌-◌, ◌*◌, ◌%◌, ◌^◌, Bool, true, false, ◌&&◌, ◌||◌, Option, none, some, List,
  [], ◌∷◌, Result, ok, err, undefined, leb, ltb, ◌==◌, if◌then◌else◌, u64,
}

-- The value of a digit in base 16 at most.
unfoldable pub digit_value : ℕ → Option ℕ
digit_value c =
    if leb b'0' c && leb c b'9'
    then some (c - b'0')
    else if leb b'a' c && leb c b'f'
    then some (c - b'a' + 10)
    else if leb b'A' c && leb c b'F'
    then some (c - b'A' + 10)
    else none

-- `v = v * base + d`, in 64 bits; underscores are passed over.
unfoldable pub digits_loop : ℕ → ℕ → List ℕ → Option ℕ
digits_loop base v [] = some v
digits_loop base v (c ∷ s) =
    let same = digits_loop base v s in
    let more = λ (d : ℕ). digits_loop base (u64 (v * base + d)) s in
    if c == b'_'
    then same
    else elim (digit_value c) [ none ↦ none | some d ↦ if ltb d base then more d else none ]

unfoldable pub is_hex : List ℕ → Bool
is_hex (c ∷ (d ∷ s)) = (c == b'0') && ((d == b'x') || (d == b'X'))
is_hex s = false

-- Behind the sign: no digit at all is no number.
unfoldable pub digits : ℕ → List ℕ → Option ℕ
digits base [] = none
digits base (c ∷ s) = digits_loop base 0 (c ∷ s)

unfoldable pub behind_prefix : List ℕ → List ℕ
behind_prefix (c ∷ (d ∷ s)) = s
behind_prefix s = s

unfoldable pub unsigned_value : List ℕ → Option ℕ
unsigned_value s = if is_hex s then digits 16 (behind_prefix s) else digits 10 s

-- `-(int64_t)v`, as its pattern: undefined at the least value of 64 bits.
unfoldable pub negated : Option ℕ → Result (Option ℕ)
negated none = ok none
negated (some v) = if v == 2 ^ 63 then err undefined else ok (some (u64 (2 ^ 64 - v)))

-- `none` where there is no number.
unfoldable pub parse_int_lit : List ℕ → Result (Option ℕ)
parse_int_lit [] = ok none
parse_int_lit (c ∷ s) =
    if c == b'-'
    then negated (unsigned_value s)
    else if c == b'+'
    then ok (unsigned_value s)
    else ok (unsigned_value (c ∷ s))
