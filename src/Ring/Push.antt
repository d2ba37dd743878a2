-- ===== src/Ring/Push.antt =====
-- What an element written at the end of a ring buffer does to its contents.
use oragono.Prelude.{
  ℕ, zero, suc, ◌+◌, ◌-◌, ◌%◌, ◌≤◌, ◌<◌, ◌≡◌, refl, ◌∙◌, ◌≢◌, ◌⊎◌, inl, inr, true, Option, none,
  some, List, [], ◌∷◌, ◌++◌, arith, nat_beq, nat_beq_iff, Bool-cases, length, get_elem?, set,
  length-append, length-set, get_elem?-set_self, take, drop, take-append-drop, length-take,
  length-drop, nat_eq, string_eq,
}
use oragono.Ring.{last, element, visit, next, forward, count, contents, in_bounds}
use mathlib.Core.List.{append_assoc}
use oragono.Ring.Walk.{drop-append, mod-next, visit-set, visit_snoc, length-visit, drop-visit}

element-set :
    {A : Type 0} (buf : List A) (p : ℕ) (x : A) → p < length buf → element (set buf p x) p ≡ x ∷ []
element-set buf p x h = ground (arith, get_elem?-set_self buf p x h)

pub length-contents :
    {A : Type 0} (buf : List A) (start : Option ℕ) (end : ℕ)
    → in_bounds buf start end ≡ true
    → length (contents buf start end) ≤ length buf
unfolding contents
length-contents buf none end ok = ground arith
length-contents buf (some start) end ok =
    ground (arith, ok, length-visit buf start (count (length buf) start end))

-- The first element.
pub push_first :
    {A : Type 0} (buf : List A) (x : A) (end : ℕ)
    → 0 < length buf
    → count (length buf) 0 end ≡ 1
    → contents (set buf 0 x) (some 0) end ≡ x ∷ []
unfolding contents visit
push_first buf x end room one =
    rw (length-set buf 0 x) (rw one (ground (arith, element-set buf 0 x room)))

-- While there is room.
pub push_more :
    {A : Type 0} (buf : List A) (x : A) (start end : ℕ)
    → start < length buf
    → end < length buf
    → start ≢ end
    → contents (set buf end x) (some start) ((end + 1) % length buf)
      ≡ contents buf (some start) end ++ x ∷ []
unfolding contents
push_more buf x start end hs he apart =
    let n = count (length buf) start end in
    let more : count (length buf) start (next (length buf) end) ≡ n + 1 = ground (arith, apart) in
    let there : forward (length buf) start n ≡ end = ground (arith, apart) in
    rw (length-set buf end x) (
      rw (mod-next (length buf) end he) (
        rw more (
          ground (
            arith,
            visit_snoc (length buf) (set buf end x) start n,
            there,
            element-set buf end x he,
            visit-set buf start n end x hs he,
          ))))

-- When the buffer is full, the first element goes.
pub push_full :
    {A : Type 0} (buf : List A) (x : A) (end : ℕ)
    → end < length buf
    → contents (set buf end x) (some ((end + 1) % length buf)) ((end + 1) % length buf)
      ≡ drop 1 (contents buf (some end) end) ++ x ∷ []
unfolding contents
push_full buf x end he =
    let size = length buf in
    let first = next size end in
    let full : count size first first ≡ size - 1 + 1 = ground arith in
    rw (length-set buf end x) (
      rw (mod-next size end he) (
        rw full (
          ground (
            arith,
            visit_snoc size (set buf end x) first (size - 1),
            element-set buf end x he,
            visit-set buf first (size - 1) end x,
            drop-visit buf end size 1,
          ))))

-- The last elements of a list do not depend on those that went before.
pub last-append_last :
    {A : Type 0} (n : ℕ) (xs : List A) (x : A)
    → last n (last n xs ++ x ∷ []) ≡ last n (xs ++ x ∷ [])
last-append_last n xs x =
    let k = length xs - n in
    let front = take k xs in
    let back = drop k xs in
    let whole : front ++ back ≡ xs = take-append-drop k xs in
    let size : length front ≡ k = ground (arith, length-take k xs) in
    let m = length (back ++ x ∷ []) - n in
    let split : length (xs ++ x ∷ []) - n ≡ length front + m =
      ground
        (arith, size, length-drop k xs, length-append xs (x ∷ []), length-append back (x ∷ [])) in
    ground
      (arith, split, whole, append_assoc front back (x ∷ []), drop-append front (back ++ x ∷ []) m)

-- One more element at the end, in all three states of a buffer, as the last elements of a list.
pub push_first_last :
    {A : Type 0} (buf : List A) (x : A) (end : ℕ)
    → 0 < length buf
    → count (length buf) 0 end ≡ 1
    → contents (set buf 0 x) (some 0) end ≡ last (length buf) ([] ++ x ∷ [])
push_first_last buf x end room one = push_first buf x end room one ∙ ground (arith, room)

pub push_more_last :
    {A : Type 0} (buf : List A) (x : A) (start end : ℕ)
    → start < length buf
    → end < length buf
    → start ≢ end
    → contents (set buf end x) (some start) ((end + 1) % length buf)
      ≡ last (length buf) (contents buf (some start) end ++ x ∷ [])
unfolding contents
push_more_last buf x start end hs he apart =
    push_more buf x start end hs he apart
    ∙ ground (
      arith,
      hs,
      he,
      apart,
      length-visit buf start (count (length buf) start end) hs,
      length-append (contents buf (some start) end) (x ∷ []),
    )

pub nat_eq_or : (a b : ℕ) → (a ≡ b) ⊎ (a ≢ b)
nat_eq_or a b = elim (Bool-cases (nat_beq a b)) [
  | inl same ↦ inl (ground (arith, same, nat_beq_iff a b))
  | inr apart ↦ inr (ground (arith, apart, nat_beq_iff a b))
]

pub drop-append_small :
    {A : Type 0} (n : ℕ) (xs : List A) (x : A)
    → n ≤ length xs
    → drop n (xs ++ x ∷ []) ≡ drop n xs ++ x ∷ []
drop-append_small zero xs x h = refl
drop-append_small (suc n) [] x h = elim h [ ]
drop-append_small (suc n) (y ∷ xs) x h = drop-append_small n xs x (omega arith)

pub push_full_last :
    {A : Type 0} (buf : List A) (x : A) (end : ℕ)
    → end < length buf
    → contents (set buf end x) (some ((end + 1) % length buf)) ((end + 1) % length buf)
      ≡ last (length buf) (contents buf (some end) end ++ x ∷ [])
unfolding contents
push_full_last buf x end he =
    push_full buf x end he
    ∙ ground (
      arith,
      he,
      length-visit buf end (count (length buf) end end) he,
      length-append (contents buf (some end) end) (x ∷ []),
      drop-append_small 1 (contents buf (some end) end) x,
    )

pub get_elem?-lt :
    {A : Type 0} (xs : List A) (i : ℕ) → i < length xs → (x : A) × (get_elem? xs i ≡ some x)
get_elem?-lt [] i h = elim h [ ]
get_elem?-lt (x ∷ xs) zero h = (x, refl)
get_elem?-lt (x ∷ xs) (suc i) h = get_elem?-lt xs i (omega arith)
