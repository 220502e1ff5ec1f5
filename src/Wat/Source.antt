-- ===== src/Wat/Source.antt =====
-- From the text to the tree, as `deep_wat_compile_file` of src/deep_wat.c goes on from the file.
use deepvm.Base.{ℕ, ◌*◌, ◌≤◌, ◌≡◌, Option, some, List, ◌++◌, Result, ok, ◌>>=◌, length, All}
use deepvm.Wat.Tokens.{Token, tokenize}
use deepvm.Wat.Tokens.RoundTrip.{text_of, IsWord, tokenize-text_of}
use deepvm.Wat.Trees.{SExpr, parse_one, tokens_of, size}
use deepvm.Wat.Trees.RoundTrip.{parse_one-tokens_of}

-- The tree of the text; tokens behind the first tree are passed over.
unfoldable pub read_source : ℕ → List ℕ → Result (Option SExpr)
read_source fuel src = do toks ← tokenize fuel src; (root, rest) ← parse_one fuel toks; ok root

-- The text of a tree whose atoms are words is read back as the tree, whatever tokens come behind it,
-- with fuel for two rounds at each token and for the size of the tree.
pub read_source-text_of :
    (t : SExpr) (rest : List Token) (fuel : ℕ)
    → All IsWord (tokens_of t ++ rest)
    → 2 * length (tokens_of t ++ rest) ≤ fuel
    → size t ≤ fuel
    → read_source fuel (text_of (tokens_of t ++ rest)) ≡ ok (some t)
unfolding read_source
read_source-text_of t rest fuel words enough large = rw (
  tokenize-text_of (tokens_of t ++ rest) fuel words enough,
  parse_one-tokens_of t fuel rest large,
)
