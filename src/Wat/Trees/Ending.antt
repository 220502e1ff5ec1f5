-- ===== src/Wat/Trees/Ending.antt =====
-- `parse_one` of src/deep_wat.c comes to an end on any tokens.
use deepvm.Base.{
  ℕ, zero, suc, ◌+◌, ◌-◌, ◌*◌, ◌≤◌, ◌≡◌, refl, ap, ◌∙◌, Option, none, some, List, [], ◌∷◌, Result,
  ok, ◌>>=◌, arith, length,
}
use deepvm.Wat.Tokens
use deepvm.Wat.Tokens.{Token, lparen, rparen}
use deepvm.Wat.Trees.{SExpr, atom, list, nil, sx_add, parse_one, parse_kids}

-- A value, with at most so many tokens left.
Ends : {A : Type 0} → ℕ → Result (A × List Token) → Type 0
Ends {A} n r = (a : A × List Token) × (r ≡ ok a) × (length a.1 ≤ n)

Ends-then :
    {A B : Type 0} (m n : ℕ) (r : Result (A × List Token))
    (f : A × List Token → Result (B × List Token))
    → Ends m r
    → ((a : A × List Token) → length a.1 ≤ m → Ends n (f a))
    → Ends n (r >>= f)
unfolding Ends
Ends-then {A = A} m n r f (a, is, few) next =
    let b = next a few in (b.0, ap (λ (r : Result (A × List Token)). r >>= f) is ∙ b.1, b.2)

-- The tokens behind the first one, if there is one.
behind_first : List Token → ℕ
behind_first [] = 0
behind_first (tok ∷ toks) = length toks

behind_first_le : (toks : List Token) → behind_first toks ≤ length toks - 1
unfolding behind_first
behind_first_le [] = omega arith
behind_first_le (tok ∷ toks) = omega arith

-- A kid, and then the others.
kids-Ends :
    (fuel n : ℕ) (r : Result (Option SExpr × List Token))
    → Ends n r
    → ((toks : List Token) → length toks ≤ n → Ends (length toks) (parse_kids fuel toks))
    → Ends
        (suc n)
        (r >>= λ child. parse_kids fuel child.1 >>= λ kids. ok (sx_add child.0 kids.0, kids.1))
unfolding Ends
kids-Ends fuel n r first others =
    Ends-then n (suc n) r
      (λ child. parse_kids fuel child.1 >>= λ kids. ok (sx_add child.0 kids.0, kids.1)) first
      (λ child few.
        Ends-then (length child.1) (suc n) (parse_kids fuel child.1)
          (λ kids. ok (sx_add child.0 kids.0, kids.1)) (others child.1 few)
          (λ kids few'. ((sx_add child.0 kids.0, kids.1), refl, omega arith)))

mutual
  unfolding parse_one parse_kids Ends behind_first

  parse_one-Ends :
      (fuel : ℕ) (toks : List Token)
      → 2 * length toks + 1 ≤ fuel
      → Ends (behind_first toks) (parse_one fuel toks)
  parse_one-Ends zero toks h = absurd (omega arith)
  parse_one-Ends (suc fuel) [] h = ((none, []), refl, omega arith)
  parse_one-Ends (suc fuel) (Tokens.atom a ∷ toks) h = ((some (atom a), toks), refl, omega arith)
  parse_one-Ends (suc fuel) (rparen ∷ toks) h = ((none, toks), refl, omega arith)
  parse_one-Ends (suc fuel) (lparen ∷ toks) h =
      Ends-then (length toks) (length toks) (parse_kids fuel toks) (λ r. ok (some (list r.0), r.1))
        (parse_kids-Ends fuel toks (omega arith))
        (λ r few. ((some (list r.0), r.1), refl, omega arith))

  parse_kids-Ends :
      (fuel : ℕ) (toks : List Token)
      → 2 * length toks + 2 ≤ fuel
      → Ends (length toks) (parse_kids fuel toks)
  parse_kids-Ends zero toks h = absurd (omega arith)
  parse_kids-Ends (suc fuel) [] h = ((nil, []), refl, omega arith)
  parse_kids-Ends (suc fuel) (rparen ∷ toks) h = ((nil, toks), refl, omega arith)
  parse_kids-Ends (suc fuel) (lparen ∷ toks) h =
      kids-Ends fuel (length toks) (parse_one fuel (lparen ∷ toks))
        (parse_one-Ends fuel (lparen ∷ toks) (omega arith))
        (λ rest few. parse_kids-Ends fuel rest (omega arith))
  parse_kids-Ends (suc fuel) (Tokens.atom a ∷ toks) h =
      kids-Ends fuel (length toks) (parse_one fuel (Tokens.atom a ∷ toks))
        (parse_one-Ends fuel (Tokens.atom a ∷ toks) (omega arith))
        (λ rest few. parse_kids-Ends fuel rest (omega arith))

-- Whatever the tokens are, well nested or not, twice their number and one is fuel enough for
-- `parse_one`, which takes a token at least where there is one.
pub parse_one-terminates :
    (fuel : ℕ) (toks : List Token)
    → 2 * length toks + 1 ≤ fuel
    → (r : Option SExpr × List Token) × (parse_one fuel toks ≡ ok r)
      × (length r.1 ≤ length toks - 1)
unfolding Ends
parse_one-terminates fuel toks h =
    let end = parse_one-Ends fuel toks h in
    (end.0, end.1, omega (arith, end.2, behind_first_le toks))
