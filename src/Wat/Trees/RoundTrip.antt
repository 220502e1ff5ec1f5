-- ===== src/Wat/Trees/RoundTrip.antt =====
-- `parse_one` of src/deep_wat.c reads the tokens of a tree back.
use deepvm.Base.{
  ℕ, zero, suc, ◌≤◌, ◌≡◌, refl, ap, ◌∙◌, some, List, [], ◌∷◌, ◌++◌, append_assoc, ok, ◌>>=◌, arith,
}
use deepvm.Wat.Tokens.{Token, rparen}
use deepvm.Wat.Trees.{
  SExpr, atom, list, Kids, nil, cons, sx_add, parse_one, parse_kids, tokens_of, tokens_of_kids,
  size, kids_size,
}

-- A step of the loop at the first token of a tree.
parse_kids-child :
    (fuel : ℕ) (t : SExpr) (toks : List Token)
    → parse_kids (suc fuel) (tokens_of t ++ toks) ≡ (
        parse_one fuel (tokens_of t ++ toks) >>= λ child.
        parse_kids fuel child.1 >>= λ r. ok (sx_add child.0 r.0, r.1))
unfolding parse_kids tokens_of
parse_kids-child fuel (atom a) toks = refl
parse_kids-child fuel (list kids) toks = refl

mutual
  unfolding parse_one parse_kids tokens_of tokens_of_kids size kids_size sx_add

  -- The tokens of a tree are read back as the tree, whatever tokens follow, with fuel for its size.
  pub parse_one-tokens_of :
      (t : SExpr) (fuel : ℕ) (rest : List Token)
      → size t ≤ fuel
      → parse_one fuel (tokens_of t ++ rest) ≡ ok (some t, rest)
  parse_one-tokens_of (atom a) zero rest h = absurd (omega arith)
  parse_one-tokens_of (atom a) (suc fuel) rest h = refl
  parse_one-tokens_of (list kids) zero rest h = absurd (omega arith)
  parse_one-tokens_of (list kids) (suc fuel) rest h = rw (
    append_assoc (tokens_of_kids kids) (rparen ∷ []) rest,
    parse_kids-tokens_of_kids kids fuel rest (omega arith),
  )

  parse_kids-tokens_of_kids :
      (kids : Kids) (fuel : ℕ) (rest : List Token)
      → kids_size kids ≤ fuel
      → parse_kids fuel (tokens_of_kids kids ++ (rparen ∷ rest)) ≡ ok (kids, rest)
  parse_kids-tokens_of_kids nil zero rest h = absurd (omega arith)
  parse_kids-tokens_of_kids nil (suc fuel) rest h = refl
  parse_kids-tokens_of_kids (cons t kids) zero rest h = absurd (omega arith)
  parse_kids-tokens_of_kids (cons t kids) (suc fuel) rest h =
      ap (parse_kids (suc fuel)) (append_assoc (tokens_of t) (tokens_of_kids kids) (rparen ∷ rest))
      ∙ (parse_kids-child fuel t (tokens_of_kids kids ++ (rparen ∷ rest))
          ∙ rw (
            parse_one-tokens_of t fuel (tokens_of_kids kids ++ (rparen ∷ rest)) (omega arith),
            parse_kids-tokens_of_kids kids fuel rest (omega arith),
          ))
