-- ===== src/TokenLines/Grouping.antt =====
-- The lines are groups of the tokens in their order, and each line fits.
use oragono.Prelude.{
  ℕ, ◌≤◌, ◌≡◌, refl, sym, ap, subst, ◌∙◌, inl, inr, false, List, [], ◌∷◌, ◌++◌, map, arith,
  Bool-cases, length, length-append, nat_eq, string_eq,
}
use mathlib.Core.List.{append-nil, append_assoc}
use oragono.TokenLines.{
  Bytes, TokenLineBuilder, initialize, write_token, add_token, add_tokens, lines,
}
use oragono.TokenLines.Arguments.{AllFit, builder, overflows, add_token-overflow, add_token-room}

unfoldable pub flatten {ℓ} : {A : Type ℓ} → List (List A) → List A
flatten [] = []
flatten (x ∷ xs) = x ++ flatten xs

AllFit-snoc :
    (n : ℕ) (xs : List Bytes) (x : Bytes) → AllFit n xs → length x ≤ n → AllFit n (xs ++ (x ∷ []))
unfolding AllFit
AllFit-snoc n [] x all h = (h, tt)
AllFit-snoc n (y ∷ xs) x (a, all) h = (a, AllFit-snoc n xs x all h)

flatten-snoc {ℓ} :
    {A : Type ℓ} (xs : List (List A)) (x : List A) → flatten (xs ++ (x ∷ [])) ≡ flatten xs ++ x
unfolding flatten
flatten-snoc [] x = append-nil x
flatten-snoc (y ∷ xs) x = ap (λ t. y ++ t) (flatten-snoc xs x) ∙ sym (append_assoc y (flatten xs) x)

map-snoc {ℓ κ} :
    {A : Type ℓ} {B : Type κ} (f : A → B) (xs : List A) (x : A)
    → map f (xs ++ (x ∷ [])) ≡ map f xs ++ (f x ∷ [])
map-snoc f [] x = refl
map-snoc f (y ∷ xs) x = ap (λ t. f y ∷ t) (map-snoc f xs x)

-- No token is empty.
unfoldable pub AllSome : List Bytes → Type 0
AllSome [] = Unit {0}
AllSome (x ∷ xs) = (1 ≤ length x) × AllSome xs

AllSome-snoc : (g : List Bytes) (x : Bytes) → AllSome g → 1 ≤ length x → AllSome (g ++ (x ∷ []))
unfolding AllSome
AllSome-snoc [] x all h = (h, tt)
AllSome-snoc (y ∷ g) x (a, all) h = (a, AllSome-snoc g x all h)

module _ (delim : Bytes) where
  -- The tokens with the delimiter between them.
  unfoldable pub join : List Bytes → Bytes
  join [] = []
  join (x ∷ []) = x
  join (x ∷ y ∷ xs) = x ++ delim ++ join (y ∷ xs)

  write_some :
      (buf token : Bytes) → 1 ≤ length buf → write_token delim buf token ≡ buf ++ delim ++ token
  unfolding write_token
  write_some buf token h = ground (arith, h)

  join_some : (x : Bytes) (g : List Bytes) → 1 ≤ length x → 1 ≤ length (join (x ∷ g))
  unfolding join
  join_some x [] h = h
  join_some x (y ∷ g) h =
      omega (arith, h, length-append (x ++ delim) (join (y ∷ g)), length-append x delim)

  join-snoc :
      (g : List Bytes) (token : Bytes)
      → AllSome g
      → write_token delim (join g) token ≡ join (g ++ (token ∷ []))
  unfolding join write_token AllSome
  join-snoc [] token all = refl
  join-snoc (x ∷ []) token (h, all) = write_some x token h
  join-snoc (x ∷ y ∷ g) token (h, all) =
      let j = join (y ∷ g) in
      write_some (x ++ delim ++ j) token (join_some x (y ∷ g) h)
      ∙ ap (λ t. t ++ token) (append_assoc (x ++ delim) j delim)
      ∙ append_assoc (x ++ delim) (j ++ delim) token
      ∙ ap (λ t. x ++ delim ++ t)
          (sym (write_some j token (join_some y g all.0)) ∙ join-snoc (y ∷ g) token all)

-- The lines are the joins of groups of these tokens, and none is too long.
abbrev pub AreGroups : ℕ → Bytes → List Bytes → List Bytes → Type 0
AreGroups max_length delim tokens made =
    (groups : List (List Bytes)) × (flatten groups ≡ tokens)
    × (map (join delim) groups ≡ made)
    × AllFit max_length made

module _ (max_length : ℕ) (delim : Bytes) where
  -- The end of the building, with one group open.
  finished :
      (g : List Bytes) (gs : List (List Bytes))
      → AllSome g
      → length (join delim g) ≤ max_length
      → AllFit max_length (map (join delim) gs)
      → AreGroups max_length delim
          (flatten gs ++ g)
          (lines (builder max_length delim (join delim g) (map (join delim) gs)))
  unfolding lines join AllSome
  finished [] gs some_g fits all = (gs, sym (append-nil (flatten gs)), refl, all)
  finished (x ∷ g) gs (h, some_g) fits all =
      let made = map (join delim) gs ++ (join delim (x ∷ g) ∷ []) in
      let at_end : (lines (builder max_length delim (join delim (x ∷ g)) (map (join delim) gs))
          ≡ made) =
        ground (arith, join_some delim x g h) in
      (
        gs ++ ((x ∷ g) ∷ []),
        flatten-snoc gs (x ∷ g),
        map-snoc (join delim) gs (x ∷ g) ∙ sym at_end,
        subst (AllFit max_length) (sym at_end)
            (AllFit-snoc max_length (map (join delim) gs) (join delim (x ∷ g)) all fits),
      )

  room_left :
      (buf token : Bytes)
      → length token ≤ max_length
      → overflows max_length delim buf token ≡ false
      → length (write_token delim buf token) ≤ max_length
  unfolding overflows write_token
  room_left buf token fits e =
      ground (arith, fits, e, length-append (buf ++ delim) token, length-append buf delim)

  regrouped :
      (t t' : List Bytes) (b b' : TokenLineBuilder) (tokens : List Bytes)
      → t ≡ t'
      → b' ≡ b
      → AreGroups max_length delim t (lines (add_tokens b tokens))
      → AreGroups max_length delim t' (lines (add_tokens b' tokens))
  regrouped t t' b b' tokens p q h =
      subst (λ x. AreGroups max_length delim x (lines (add_tokens b' tokens))) p
        (subst (λ x. AreGroups max_length delim t (lines (add_tokens x tokens))) (sym q) h)

  -- One more token of the tokens that are left.
  moved :
      (front tokens : List Bytes) (token : Bytes)
      → front ++ (token ∷ []) ++ tokens ≡ front ++ (token ∷ tokens)
  moved front tokens token = append_assoc front (token ∷ []) tokens

  grouped :
      (tokens g : List Bytes) (gs : List (List Bytes))
      → AllSome g
      → AllSome tokens
      → AllFit max_length tokens
      → length (join delim g) ≤ max_length
      → AllFit max_length (map (join delim) gs)
      → AreGroups max_length delim (flatten gs ++ g ++ tokens) (
          lines (add_tokens (builder max_length delim (join delim g) (map (join delim) gs)) tokens))
  unfolding AllSome AllFit add_tokens join
  grouped [] g gs some_g some_t fit_t fits all =
      subst
        (λ t.
          AreGroups max_length delim t
            (lines (builder max_length delim (join delim g) (map (join delim) gs))))
        (sym (append-nil (flatten gs ++ g))) (finished g gs some_g fits all)
  grouped (token ∷ tokens) g gs some_g (h, some_t) (fit, fit_t) fits all =
      elim (Bool-cases (overflows max_length delim (join delim g) token)) [
        | inl e ↦
            regrouped (flatten (gs ++ (g ∷ [])) ++ (token ∷ []) ++ tokens)
              (flatten gs ++ g ++ (token ∷ tokens))
              (builder max_length delim token (map (join delim) (gs ++ (g ∷ []))))
              (add_token (builder max_length delim (join delim g) (map (join delim) gs)) token)
              tokens
              (ap (λ t. t ++ (token ∷ []) ++ tokens) (flatten-snoc gs g)
                ∙ moved (flatten gs ++ g) tokens token)
              (add_token-overflow max_length delim (join delim g) token (map (join delim) gs) e
                ∙ ap (builder max_length delim token) (sym (map-snoc (join delim) gs g)))
              (grouped tokens (token ∷ []) (gs ++ (g ∷ [])) (h, tt) some_t fit_t fit
                (subst (AllFit max_length) (sym (map-snoc (join delim) gs g))
                  (AllFit-snoc max_length (map (join delim) gs) (join delim g) all fits)))
        | inr e ↦
            regrouped (flatten gs ++ (g ++ (token ∷ [])) ++ tokens)
              (flatten gs ++ g ++ (token ∷ tokens))
              (builder max_length delim (join delim (g ++ (token ∷ []))) (map (join delim) gs))
              (add_token (builder max_length delim (join delim g) (map (join delim) gs)) token)
              tokens
              (ap (λ t. t ++ tokens) (sym (append_assoc (flatten gs) g (token ∷ [])))
                ∙ moved (flatten gs ++ g) tokens token)
              (add_token-room max_length delim (join delim g) token (map (join delim) gs) e
                ∙ ap (λ b. builder max_length delim b (map (join delim) gs))
                    (join-snoc delim g token some_g))
              (grouped tokens (g ++ (token ∷ [])) gs (AllSome-snoc g token some_g h) some_t fit_t
                (subst (λ b. length b ≤ max_length) (join-snoc delim g token some_g)
                  (room_left (join delim g) token fit e))
                all)
      ]

  -- Tokens that are not empty and each fit in a line, with the delimiter between them: the lines that are built
  -- are groups of the tokens in their order, each joined by the delimiter, with no token lost or added, and no
  -- line is too long.
  pub lines-AreGroups :
      (tokens : List Bytes)
      → AllSome tokens
      → AllFit max_length tokens
      → AreGroups max_length delim tokens (lines (add_tokens (initialize max_length delim) tokens))
  unfolding initialize AllSome AllFit flatten join
  lines-AreGroups tokens some_t fit_t = grouped tokens [] [] tt some_t fit_t (omega arith) tt
