-- ===== src/Examples/Lines.antt =====
-- Tokens from which lines are built.
use oragono.Prelude.{◌≡◌, refl, List, [], ◌∷◌, arith, nat_eq, string_eq}
use oragono.TokenLines.{Bytes, initialize, add_tokens, lines, args_to_strings}
use oragono.TokenLines.Arguments.{AllFit, args_to_strings-lines, long_token-empty_line}
use oragono.TokenLines.Grouping.{AllSome, AreGroups, lines-AreGroups}

-- ab, c and de
abbrev three_tokens : List Bytes
three_tokens = (97 ∷ 98 ∷ []) ∷ (99 ∷ []) ∷ (100 ∷ 101 ∷ []) ∷ []

abbrev space : Bytes
space = 32 ∷ []

three_fit : AllFit 4 three_tokens
unfolding AllFit
three_fit = (ground arith, (ground arith, (ground arith, tt)))

three_some : AllSome three_tokens
unfolding AllSome
three_some = (ground arith, (ground arith, (ground arith, tt)))

-- ab c, and de on a line of its own
built :
    lines (add_tokens (initialize 4 space) three_tokens)
    ≡ (97 ∷ 98 ∷ 32 ∷ 99 ∷ []) ∷ (100 ∷ 101 ∷ []) ∷ []
unfolding lines add_tokens initialize
built = refl

lines-AreGroups_example :
    AreGroups 4 space three_tokens (lines (add_tokens (initialize 4 space) three_tokens))
lines-AreGroups_example = lines-AreGroups 4 space three_tokens three_some three_fit

args_to_strings-lines_example :
    args_to_strings 4 three_tokens space ≡ lines (add_tokens (initialize 4 space) three_tokens)
args_to_strings-lines_example = args_to_strings-lines 4 space three_tokens three_fit

long_token-empty_line_example :
    lines (add_tokens (initialize 1 space) ((97 ∷ 98 ∷ []) ∷ [])) ≡ [] ∷ (97 ∷ 98 ∷ []) ∷ []
long_token-empty_line_example = long_token-empty_line 1 space (97 ∷ 98 ∷ []) (ground arith)
