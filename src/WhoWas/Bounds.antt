-- ===== src/WhoWas/Bounds.antt =====
-- Appends as a list of the last entries.
use oragono.Prelude.{
  ℕ, ◌+◌, ◌%◌, ◌<◌, ◌≡◌, refl, sym, subst, ◌∙◌, ◌≢◌, inl, inr, true, Option, none, some, List, [],
  ◌∷◌, ◌++◌, arith, nat_beq_refl, Option-cases, length, set, length-set, length-replicate, nat_eq,
  string_eq,
}
use native.Mathlib.Nat.{mod-lt}
use mathlib.Core.List.{append-nil, append_assoc}
use oragono.Ring.{contents, in_bounds, last}
use oragono.Ring.Push.{push_first_last, push_more_last, push_full_last, last-append_last, nat_eq_or}
use oragono.WhoWas.{WhoWas, WhoWasList, no_one, entries, initialize, write, append}

-- The state after a list of appends.
unfoldable pub append_all : WhoWasList → List WhoWas → Option WhoWasList
append_all l [] = some l
append_all l (w ∷ ws) = elim (append l w) [ none ↦ none | some l' ↦ append_all l' ws ]

-- The buffer with room for `size` entries holds the last of a list of entries.
pub record Holds (size : ℕ) (log : List WhoWas) (l : WhoWasList) : Type 0 where
  pub sized : length l.buffer ≡ size
  pub bounded : in_bounds l.buffer l.start l.end ≡ true
  pub held : entries l ≡ last size log

append-first :
    (l : WhoWasList) (w : WhoWas)
    → 1 < length l.buffer
    → l.start ≡ none
    → (l' : WhoWasList) × ((append l w ≡ some l')
        × Holds (length l.buffer) (entries l ++ w ∷ []) l')
unfolding append write contents
append-first l w room empty = (
  record l { buffer = set l.buffer 0 w; start = some 0; end = 1 },
  (
    ground (arith, empty, room),
    record {
      sized = length-set l.buffer 0 w;
      bounded = ground (arith, room, length-set l.buffer 0 w);
      held =
          push_first_last l.buffer w 1 (omega arith) (ground (arith, room)) ∙ ground (arith, empty);
    },
  ),
)

append-more :
    (l : WhoWasList) (w : WhoWas) (start : ℕ)
    → l.start ≡ some start
    → start < length l.buffer
    → l.end < length l.buffer
    → start ≢ l.end
    → (l' : WhoWasList) × ((append l w ≡ some l')
        × Holds (length l.buffer) (entries l ++ w ∷ []) l')
unfolding append write
append-more l w start at hs he apart = (
  record l { buffer = set l.buffer l.end w; end = (l.end + 1) % length l.buffer },
  (
    ground (arith, at, hs, he, apart),
    record {
      sized = length-set l.buffer l.end w;
      bounded = ground (
        arith,
        at,
        hs,
        length-set l.buffer l.end w,
        mod-lt (l.end + 1) {m = length l.buffer} (omega arith),
      );
      held = ground (arith, at, push_more_last l.buffer w start l.end hs he apart);
    },
  ),
)

append-full :
    (l : WhoWasList) (w : WhoWas)
    → l.start ≡ some l.end
    → l.end < length l.buffer
    → (l' : WhoWasList) × ((append l w ≡ some l')
        × Holds (length l.buffer) (entries l ++ w ∷ []) l')
unfolding append write
append-full l w at he =
    let after = (l.end + 1) % length l.buffer in
    (
      record l { buffer = set l.buffer l.end w; start = some after; end = after },
      (
        ground (arith, at, he, nat_beq_refl l.end),
        record {
          sized = length-set l.buffer l.end w;
          bounded = ground (
            arith,
            length-set l.buffer l.end w,
            mod-lt (l.end + 1) {m = length l.buffer} (omega arith),
          );
          held = ground (arith, at, push_full_last l.buffer w l.end he);
        },
      ),
    )

-- With room for two entries or more, an append does not panic.
append-last :
    (l : WhoWasList) (w : WhoWas)
    → 1 < length l.buffer
    → in_bounds l.buffer l.start l.end ≡ true
    → (l' : WhoWasList) × ((append l w ≡ some l')
        × Holds (length l.buffer) (entries l ++ w ∷ []) l')
append-last l w room bounded = elim (Option-cases l.start) [
  | inl empty ↦ append-first l w room empty
  | inr (start, at) ↦ elim (nat_eq_or start l.end) [
    | inl same ↦ append-full l w (ground (arith, at, same)) (ground (arith, at, bounded))
    | inr apart ↦
        append-more l w start at (ground (arith, at, bounded)) (ground (arith, at, bounded)) apart
  ]
]

append-Holds :
    (size : ℕ) (log : List WhoWas) (l : WhoWasList) (w : WhoWas)
    → 1 < size
    → Holds size log l
    → (l' : WhoWasList) × ((append l w ≡ some l') × Holds size (log ++ w ∷ []) l')
append-Holds size log l w room h =
    let a = append-last l w (ground (arith, room, h.sized)) h.bounded in
    (
      a.0,
      (
        a.1.0,
        record {
          sized = a.1.1.sized ∙ h.sized;
          bounded = a.1.1.bounded;
          held = ground (arith, a.1.1.held, h.sized, h.held, last-append_last size log w);
        },
      ),
    )

append_all-Holds :
    (size : ℕ) (log ws : List WhoWas) (l : WhoWasList)
    → 1 < size
    → Holds size log l
    → (l' : WhoWasList) × ((append_all l ws ≡ some l') × Holds size (log ++ ws) l')
unfolding append_all
append_all-Holds size log [] l room h =
    (l, (refl, subst (λ (ws : List WhoWas). Holds size ws l) (sym (append-nil log)) h))
append_all-Holds size log (w ∷ ws) l room h =
    let a = append-Holds size log l w room h in
    let r = append_all-Holds size (log ++ w ∷ []) ws a.0 room a.1.1 in
    (
      r.0,
      (
        ground (arith, a.1.0, r.1.0),
        subst (λ (vs : List WhoWas). Holds size vs r.0) (append_assoc log (w ∷ []) ws) r.1.1,
      ),
    )

-- After any appends to a new list with room for two entries or more, none of which panics, the list holds
-- the last entries, as many as there is room for, in the order in which they were appended.
pub append_all-last :
    (size : ℕ) (ws : List WhoWas)
    → 1 < size
    → (l : WhoWasList) × ((append_all (initialize size) ws ≡ some l) × Holds size ws l)
unfolding initialize contents
append_all-last size ws room =
    append_all-Holds size [] ws (initialize size) room
      (record { sized = length-replicate size no_one; bounded = refl; held = ground arith })

-- A list with room for one entry panics at the second append.
pub append_twice_panics :
    (v w : WhoWas) → elim (append (initialize 1) v) [ none ↦ none | some l ↦ append l w ] ≡ none
unfolding append write initialize
append_twice_panics v w = refl
