-- ===== src/Wat/Trees.antt =====
-- The trees of src/deep_wat.c (`SExpr`, `parse_one`).
pub mod RoundTrip
pub mod Ending
use deepvm.Base.{
  ℕ, zero, suc, ◌+◌, Option, none, some, List, [], ◌∷◌, ◌++◌, Result, ok, err, out_of_fuel, ◌>>=◌,
}
use deepvm.Wat.Tokens
use deepvm.Wat.Tokens.{Token, lparen, rparen}

mutual
  pub data SExpr : Type 0 where
    atom : List ℕ → SExpr
    list : Kids → SExpr

  -- `kids`
  pub data Kids : Type 0 where
    nil : Kids
    cons : SExpr → Kids → Kids

-- `if (child) sx_add (list, child)`
unfoldable pub sx_add : Option SExpr → Kids → Kids
sx_add none kids = kids
sx_add (some child) kids = cons child kids

-- `parse_one`, and its loop over the kids of a list. NULL is `none`. Both take fuel for the depth
-- and the rounds, and give the tokens that are left.
unfoldable mutual
  pub parse_one : ℕ → List Token → Result (Option SExpr × List Token)
  parse_one zero toks = err out_of_fuel
  parse_one (suc fuel) [] = ok (none, [])
  parse_one (suc fuel) (Tokens.atom a ∷ toks) = ok (some (atom a), toks)
  parse_one (suc fuel) (lparen ∷ toks) = parse_kids fuel toks >>= λ r. ok (some (list r.0), r.1)
  parse_one (suc fuel) (rparen ∷ toks) = ok (none, toks)

  pub parse_kids : ℕ → List Token → Result (Kids × List Token)
  parse_kids zero toks = err out_of_fuel
  parse_kids (suc fuel) [] = ok (nil, [])
  parse_kids (suc fuel) (rparen ∷ toks) = ok (nil, toks)
  parse_kids (suc fuel) (tok ∷ toks) = parse_one fuel (tok ∷ toks) >>= λ child.
      parse_kids fuel child.1 >>= λ r. ok (sx_add child.0 r.0, r.1)

-- The tokens of a tree.
unfoldable mutual
  pub tokens_of : SExpr → List Token
  tokens_of (atom a) = Tokens.atom a ∷ []
  tokens_of (list kids) = lparen ∷ tokens_of_kids kids ++ (rparen ∷ [])

  pub tokens_of_kids : Kids → List Token
  tokens_of_kids nil = []
  tokens_of_kids (cons t kids) = tokens_of t ++ tokens_of_kids kids

-- Fuel for reading a tree.
unfoldable mutual
  pub size : SExpr → ℕ
  size (atom a) = 1
  size (list kids) = suc (kids_size kids)

  pub kids_size : Kids → ℕ
  kids_size nil = 1
  kids_size (cons t kids) = suc (size t + kids_size kids)
