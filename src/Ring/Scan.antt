-- ===== src/Ring/Scan.antt =====
-- Loops that walk a ring buffer until a last position, forwards or backwards, and collect what matches.
use oragono.Prelude.{
  ℕ, zero, suc, ◌+◌, ◌-◌, ◌≤◌, ◌<◌, ◌≡◌, refl, sym, ◌≢◌, Bool, ◌&&◌, List, [], ◌∷◌, ◌++◌, reverse,
  arith, if◌then◌else◌, length, length-append, take, ◌==◌, ◌!=◌, nat_eq, string_eq,
}
use mathlib.Core.List.{append-nil, append_assoc, reverse-append}
use oragono.Ring.{count, element, visit, next, prev, distance, forward}
use oragono.Ring.Walk.{visit_snoc}

-- The walk comes to `stop` after `n` steps, and not before.
unfoldable pub Reaches : (ℕ → ℕ) → ℕ → ℕ → ℕ → Type 0
Reaches step stop zero pos = pos ≡ stop
Reaches step stop (suc n) pos = (pos ≢ stop) × Reaches step stop n (step pos)

pub next-Reaches :
    (size stop n pos : ℕ)
    → pos < size
    → stop < size
    → distance size pos stop ≡ n
    → Reaches (next size) stop n pos
unfolding Reaches
next-Reaches size stop zero pos hp hs far = ground (arith, far)
next-Reaches size stop (suc n) pos hp hs far = (
  ground (arith, far),
  next-Reaches size stop n (next size pos) (ground arith) hs (ground (arith, far)),
)

pub prev-Reaches :
    (size stop n pos : ℕ)
    → pos < size
    → stop < size
    → distance size stop pos ≡ n
    → Reaches (prev size) stop n pos
unfolding Reaches
prev-Reaches size stop zero pos hp hs far = ground (arith, far)
prev-Reaches size stop (suc n) pos hp hs far = (
  ground (arith, far),
  prev-Reaches size stop n (prev size pos) (ground arith) hs (ground (arith, far)),
)

reverse-element :
    {A : Type 0} (buf : List A) (pos : ℕ) → reverse (element buf pos) ≡ element buf pos
reverse-element [] pos = refl
reverse-element (x ∷ buf) zero = refl
reverse-element (x ∷ buf) (suc pos) = reverse-element buf pos

-- The walk back visits the same elements in the opposite order.
pub visit-prev :
    {A : Type 0} (size : ℕ) (buf : List A) (pos n : ℕ)
    → pos < size
    → n < size
    → visit (prev size) buf (forward size pos n) (n + 1)
      ≡ reverse (visit (next size) buf pos (n + 1))
unfolding visit
visit-prev size buf pos zero h few =
    let at : forward size pos 0 ≡ pos = ground (arith, h) in
    rw at (rw (append-nil (element buf pos)) (rw (reverse-element buf pos) refl))
visit-prev size buf pos (suc n) h few =
    let back : prev size (forward size pos (suc n)) ≡ forward size pos n = ground (arith, h, few) in
    ground (
      arith,
      back,
      visit_snoc size buf pos (suc n),
      reverse-append (visit (next size) buf pos (suc n)) (element buf (forward size pos (suc n))),
      reverse-element buf (forward size pos (suc n)),
      visit-prev size buf pos n,
    )

-- The elements that match.
abbrev pub matching {ℓ} : {A : Type ℓ} → (A → Bool) → List A → List A
matching pred [] = []
matching pred (x ∷ xs) = if pred x then x ∷ matching pred xs else matching pred xs

-- The first elements up to a limit, or all if it is 0.
abbrev pub limited {ℓ} : {A : Type ℓ} → ℕ → List A → List A
limited limit xs = if limit == 0 then xs else take limit xs

-- The list that a loop has at its end which goes on until the limit is met.
unfoldable pub collect {ℓ} : {A : Type ℓ} → (A → Bool) → ℕ → List A → List A → List A
collect pred limit results [] = results
collect pred limit results (x ∷ xs) =
    let results' = if pred x then results ++ x ∷ [] else results in
    let rest = collect pred limit results' xs in
    if limit != 0 && length results' == limit then results' else rest

collect_all :
    {A : Type 0} (pred : A → Bool) (results xs : List A)
    → collect pred 0 results xs ≡ results ++ matching pred xs
unfolding collect
collect_all pred results [] = sym (append-nil results)
collect_all pred results (x ∷ xs) = ground (
  arith,
  append_assoc results (x ∷ []) (matching pred xs),
  collect_all pred results xs,
  collect_all pred (results ++ x ∷ []) xs,
)

collect_some :
    {A : Type 0} (pred : A → Bool) (limit k : ℕ) (results xs : List A)
    → limit ≡ length results + suc k
    → collect pred limit results xs ≡ results ++ take (suc k) (matching pred xs)
unfolding collect
collect_some pred limit k results [] room = sym (append-nil results)
collect_some pred limit zero results (x ∷ xs) room =
    ground (arith, room, length-append results (x ∷ []), collect_some pred limit 0 results xs room)
collect_some pred limit (suc k) results (x ∷ xs) room = ground (
  arith,
  room,
  length-append results (x ∷ []),
  append_assoc results (x ∷ []) (take (suc k) (matching pred xs)),
  collect_some pred limit (suc k) results xs room,
  collect_some pred limit k (results ++ x ∷ []) xs,
)

pub collect_lem :
    {A : Type 0} (pred : A → Bool) (limit : ℕ) (xs : List A)
    → collect pred limit [] xs ≡ limited limit (matching pred xs)
collect_lem pred zero xs = collect_all pred [] xs
collect_lem pred (suc limit) xs =
    ground (arith, collect_some pred (suc limit) limit [] xs (ground arith))

-- The walk back from the end to the start.
pub prev-forward :
    (size start end : ℕ)
    → start < size
    → end < size
    → (prev size end ≡ forward size start (count size start end - 1))
      × ((0 < count size start end)
          × ((count size start end ≤ size)
              × ((prev size end < size)
                  × (distance size start (prev size end) ≡ count size start end - 1))))
prev-forward size start end hs he = ground arith
