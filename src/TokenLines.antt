-- ===== src/TokenLines.antt =====
-- The building of lines from tokens: TokenLineBuilder of irc/utils/text.go and ArgsToStrings of
-- irc/utils/args.go. A text is the list of its bytes.
pub mod Arguments
pub mod Grouping
use oragono.Prelude.{
  ℕ, zero, suc, ◌+◌, ◌-◌, ◌*◌, ◌/◌, ◌%◌, ◌^◌, ◌≤◌, ◌<◌, min, max, bit_and, bit_or, String, ◌≡◌,
  refl, sym, ap, subst, ◌∙◌, fun_ext, ◌≢◌, ◌↔◌, ◌⊎◌, inl, inr, Bool, true, false, not, ◌&&◌, ◌||◌,
  Option, none, some, List, [], ◌∷◌, ◌++◌, map, reverse, arith, ltb, leb, nat_beq, if◌then◌else◌,
  ltb→lt, lt→ltb, leb→le, nat_beq_iff, nat_beq_refl, Bool-cases, Option-cases, length, get_elem?,
  set, length-append, length-set, get_elem?-set_self, get_elem?-set_ne, get_or, take, drop,
  replicate, take-append-drop, length-take, length-drop, length-replicate, length-map, Eq, ◌==◌,
  ◌!=◌, nat_eq, string_eq, beq_refl, beq_ne, beq→eq, beq→ne,
}
use oragono.Prelude.GoMap.{
  GoMap, lookup, has, insert, delete, distinct, distinct-insert, distinct-delete, lookup-insert,
  lookup-delete, length-insert, length-delete-le, lookup-insert_self,
}

abbrev pub Bytes : Type 0
Bytes = List ℕ

pub record TokenLineBuilder : Type 0 where
  pub line_len : ℕ
  pub delim : Bytes
  pub buf : Bytes
  pub result : List Bytes

-- Initialize
unfoldable pub initialize : ℕ → Bytes → TokenLineBuilder
initialize line_len delim = record { line_len = line_len; delim = delim; buf = []; result = [] }

-- The buffer with one more token.
unfoldable pub write_token : Bytes → Bytes → Bytes → Bytes
write_token delim buf token = if length buf == 0 then token else buf ++ delim ++ token

-- Add
unfoldable pub add_token : TokenLineBuilder → Bytes → TokenLineBuilder
unfolding write_token
add_token t token =
    let token_len = if length t.buf == 0 then length token else length token + length t.delim in
    if ltb t.line_len (length t.buf + token_len)
    then record t { result = t.result ++ (t.buf ∷ []); buf = token }
    else record t { buf = write_token t.delim t.buf token }

-- Add for each token in turn.
unfoldable pub add_tokens : TokenLineBuilder → List Bytes → TokenLineBuilder
unfolding add_token
add_tokens t [] = t
add_tokens t (token ∷ tokens) = add_tokens (add_token t token) tokens

-- Lines, without the builder that is left empty.
unfoldable pub lines : TokenLineBuilder → List Bytes
lines t = if length t.buf == 0 then t.result else t.result ++ (t.buf ∷ [])

-- The loop of ArgsToStrings: a round that ends a message is followed by one that takes the argument, since
-- the buffer is empty then.
unfoldable pub args_loop : ℕ → Bytes → List Bytes → Bytes → List Bytes → List Bytes
unfolding write_token
args_loop max_length delim [] buffer messages =
    if length buffer == 0 then messages else messages ++ (buffer ∷ [])
args_loop max_length delim (arg ∷ arguments) buffer messages =
    let kept = args_loop max_length delim arguments (write_token delim buffer arg) messages in
    let fresh = args_loop max_length delim arguments arg (messages ++ (buffer ∷ [])) in
    if not (length buffer == 0) && ltb max_length (length buffer + length delim + length arg)
    then fresh
    else kept

-- ArgsToStrings
unfoldable pub args_to_strings : ℕ → List Bytes → Bytes → List Bytes
unfolding args_loop
args_to_strings max_length arguments delim = args_loop max_length delim arguments [] []
