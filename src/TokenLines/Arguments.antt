-- ===== src/TokenLines/Arguments.antt =====
-- What the builder does with a token, and ArgsToStrings as a builder.
use oragono.Prelude.{
  ℕ, ◌+◌, ◌≤◌, ◌<◌, ◌≡◌, refl, sym, ap, ◌∙◌, inl, inr, Bool, true, false, List, [], ◌∷◌, ◌++◌,
  arith, ltb, if◌then◌else◌, Bool-cases, length, ◌==◌, nat_eq, string_eq,
}
use oragono.TokenLines.{
  Bytes, TokenLineBuilder, initialize, write_token, add_token, add_tokens, lines, args_loop,
  args_to_strings,
}

-- Every text has at most this length.
unfoldable pub AllFit : ℕ → List Bytes → Type 0
AllFit n [] = Unit {0}
AllFit n (x ∷ xs) = (length x ≤ n) × AllFit n xs

module _ (max_length : ℕ) (delim : Bytes) where
  abbrev pub builder : Bytes → List Bytes → TokenLineBuilder
  builder buf result = record { line_len = max_length; delim = delim; buf = buf; result = result }

  -- Whether a token starts a new line in the builder.
  unfoldable pub overflows : Bytes → Bytes → Bool
  overflows buf token =
      ltb max_length
        (length buf + (if length buf == 0 then length token else length token + length delim))

  pub add_token-overflow :
      (buf token : Bytes) (result : List Bytes)
      → overflows buf token ≡ true
      → add_token (builder buf result) token ≡ builder token (result ++ (buf ∷ []))
  unfolding overflows add_token
  add_token-overflow buf token result e = ground (arith, e)

  pub add_token-room :
      (buf token : Bytes) (result : List Bytes)
      → overflows buf token ≡ false
      → add_token (builder buf result) token ≡ builder (write_token delim buf token) result
  unfolding overflows add_token
  add_token-room buf token result e = ground (arith, e)

  args_loop-overflow :
      (buf token : Bytes) (tokens result : List Bytes)
      → length token ≤ max_length
      → overflows buf token ≡ true
      → args_loop max_length delim (token ∷ tokens) buf result
        ≡ args_loop max_length delim tokens token (result ++ (buf ∷ []))
  unfolding overflows args_loop
  args_loop-overflow buf token tokens result fits e = ground (arith, fits, e)

  args_loop-room :
      (buf token : Bytes) (tokens result : List Bytes)
      → overflows buf token ≡ false
      → args_loop max_length delim (token ∷ tokens) buf result
        ≡ args_loop max_length delim tokens (write_token delim buf token) result
  unfolding overflows args_loop
  args_loop-room buf token tokens result e = ground (arith, e)

  args_loop-add_tokens :
      (tokens : List Bytes) (buf : Bytes) (result : List Bytes)
      → AllFit max_length tokens
      → args_loop max_length delim tokens buf result
        ≡ lines (add_tokens (builder buf result) tokens)
  unfolding AllFit args_loop add_tokens lines
  args_loop-add_tokens [] buf result all = refl
  args_loop-add_tokens (token ∷ tokens) buf result (fits, all) =
      elim (Bool-cases (overflows buf token)) [
        | inl e ↦
            args_loop-overflow buf token tokens result fits e
            ∙ args_loop-add_tokens tokens token (result ++ (buf ∷ [])) all
            ∙ ap (λ b. lines (add_tokens b tokens)) (sym (add_token-overflow buf token result e))
        | inr e ↦
            args_loop-room buf token tokens result e
            ∙ args_loop-add_tokens tokens (write_token delim buf token) result all
            ∙ ap (λ b. lines (add_tokens b tokens)) (sym (add_token-room buf token result e))
      ]

  -- For arguments that each fit in a message, ArgsToStrings gives the lines of a TokenLineBuilder.
  pub args_to_strings-lines :
      (tokens : List Bytes)
      → AllFit max_length tokens
      → args_to_strings max_length tokens delim
        ≡ lines (add_tokens (initialize max_length delim) tokens)
  unfolding args_to_strings initialize
  args_to_strings-lines tokens all = args_loop-add_tokens tokens [] [] all

-- A single token that is longer than a line, given to a new builder, makes two lines: an empty one and the
-- token.
pub long_token-empty_line :
    (max_length : ℕ) (delim token : Bytes)
    → max_length < length token
    → lines (add_tokens (initialize max_length delim) (token ∷ [])) ≡ [] ∷ token ∷ []
unfolding lines add_tokens add_token initialize
long_token-empty_line max_length delim token long = ground (arith, long)
