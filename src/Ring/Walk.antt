-- ===== src/Ring/Walk.antt =====
-- Laws of the walks through a ring buffer.
use oragono.Prelude.{
  ℕ, zero, suc, ◌+◌, ◌-◌, ◌%◌, ◌≤◌, ◌<◌, ◌≡◌, refl, sym, ap, List, [], ◌∷◌, ◌++◌, arith,
  nat_beq_iff, length, set, length-append, length-set, get_elem?-set_ne, take, drop, length-drop,
  nat_eq, string_eq,
}
use native.Mathlib.Nat.{mod-eq_of_lt, mod_self}
use mathlib.Core.List.{append_assoc}
use oragono.Ring.{element, visit, next, distance, forward}

-- The step of the code, with a remainder.
pub mod-next : (size pos : ℕ) → pos < size → (pos + 1) % size ≡ next size pos
mod-next size pos h =
    ground (arith, mod-eq_of_lt {n = pos + 1} {m = size}, mod_self size, nat_beq_iff pos (size - 1))

pub length-element :
    {A : Type 0} (buf : List A) (i : ℕ) → i < length buf → length (element buf i) ≡ 1
length-element [] i h = ground arith
length-element (y ∷ buf) zero h = refl
length-element (y ∷ buf) (suc i) h = length-element buf i (omega arith)

pub visit-set :
    {A : Type 0} (buf : List A) (pos n p : ℕ) (x : A)
    → pos < length buf
    → p < length buf
    → n ≤ distance (length buf) pos p
    → visit (next (length buf)) (set buf p x) pos n ≡ visit (next (length buf)) buf pos n
unfolding visit
visit-set buf pos zero p x h hp far = refl
visit-set buf pos (suc n) p x h hp far = ground (
  arith,
  length-set buf p x,
  get_elem?-set_ne buf {i = p} {j = pos} x,
  visit-set buf (next (length buf) pos) n p x,
)

pub visit_snoc :
    {A : Type 0} (size : ℕ) (buf : List A) (pos n : ℕ)
    → pos < size
    → n < size
    → visit (next size) buf pos (n + 1)
      ≡ visit (next size) buf pos n ++ element buf (forward size pos n)
unfolding visit
visit_snoc size buf pos zero h few = ground arith
visit_snoc size buf pos (suc n) h few = ground (arith, visit_snoc size buf (next size pos) n)

pub length-visit :
    {A : Type 0} (buf : List A) (pos n : ℕ)
    → pos < length buf
    → length (visit (next (length buf)) buf pos n) ≡ n
unfolding visit
length-visit buf pos zero h = refl
length-visit buf pos (suc n) h = ground (
  arith,
  length-element buf pos h,
  length-append (element buf pos) (visit (next (length buf)) buf (next (length buf) pos) n),
  length-visit buf (next (length buf) pos) n,
)

drop-append_one :
    {A : Type 0} (xs ys : List A) (k : ℕ) → length xs ≡ 1 → drop (suc k) (xs ++ ys) ≡ drop k ys
drop-append_one [] ys k e = ground (arith, e)
drop-append_one (x ∷ []) ys k e = refl
drop-append_one (x ∷ y ∷ xs) ys k e = ground (arith, e)

take_more :
    {A : Type 0} (buf : List A) (pos n : ℕ)
    → pos < length buf
    → take (suc n) (drop pos buf) ≡ element buf pos ++ take n (drop (suc pos) buf)
take_more [] pos n h = elim h [ ]
take_more (x ∷ buf) zero n h = refl
take_more (x ∷ buf) (suc pos) n h = take_more buf pos n (omega arith)

-- A walk that is cut at its beginning starts later.
pub drop-visit :
    {A : Type 0} (buf : List A) (pos n k : ℕ)
    → pos < length buf
    → k ≤ n
    → k ≤ length buf
    → drop k (visit (next (length buf)) buf pos n)
      ≡ visit (next (length buf)) buf (forward (length buf) pos k) (n - k)
unfolding visit
drop-visit buf pos n zero h few small = ground arith
drop-visit buf pos zero (suc k) h few small = elim few [ ]
drop-visit buf pos (suc n) (suc k) h few small = ground (
  arith,
  length-element buf pos h,
  drop-append_one (element buf pos) (visit (next (length buf)) buf (next (length buf) pos) n) k,
  drop-visit buf (next (length buf) pos) n k,
)

-- A walk that does not turn is a segment of the buffer.
pub visit-take :
    {A : Type 0} (buf : List A) (pos n : ℕ)
    → pos + n ≤ length buf
    → visit (next (length buf)) buf pos n ≡ take n (drop pos buf)
unfolding visit
visit-take buf pos zero h = refl
visit-take buf pos (suc n) h =
    ground (arith, take_more buf pos n, visit-take buf (next (length buf) pos) n)

-- A walk goes on where its first part ends.
pub visit-add :
    {A : Type 0} (size : ℕ) (buf : List A) (pos n m : ℕ)
    → pos < size
    → n ≤ size
    → visit (next size) buf pos (n + m)
      ≡ visit (next size) buf pos n ++ visit (next size) buf (forward size pos n) m
unfolding visit
visit-add size buf pos zero m h small = ground arith
visit-add size buf pos (suc n) m h small =
    let longer : suc n + m ≡ suc (n + m) = omega arith in
    let later : forward size pos (suc n) ≡ forward size (next size pos) n = ground (arith, small) in
    rw longer (
      rw later (
        rw (visit-add size buf (next size pos) n m (ground arith) (omega arith)) (
          sym (
            append_assoc (element buf pos) (visit (next size) buf (next size pos) n)
              (visit (next size) buf (forward size (next size pos) n) m)))))

pub take_all : {A : Type 0} (n : ℕ) (xs : List A) → length xs ≤ n → take n xs ≡ xs
take_all zero [] h = refl
take_all zero (x ∷ xs) h = elim h [ ]
take_all (suc n) [] h = refl
take_all (suc n) (x ∷ xs) h = ap (λ ys. x ∷ ys) (take_all n xs (omega arith))

-- A walk from a position to the end of the buffer, and on from its beginning.
pub visit_around :
    {A : Type 0} (buf : List A) (pos n : ℕ)
    → pos < length buf
    → n ≤ length buf
    → visit (next (length buf)) buf pos (length buf - pos + n) ≡ drop pos buf ++ take n buf
visit_around buf pos n h small = ground (
  arith,
  visit-add (length buf) buf pos (length buf - pos) n,
  visit-take buf pos (length buf - pos),
  visit-take buf 0 n,
  take_all (length buf - pos) (drop pos buf),
  length-drop pos buf,
)

pub drop-append :
    {A : Type 0} (xs ys : List A) (k : ℕ) → drop (length xs + k) (xs ++ ys) ≡ drop k ys
drop-append [] ys k = ground arith
drop-append (x ∷ xs) ys k =
    let longer : suc (length xs) + k ≡ suc (length xs + k) = omega arith in
    rw longer (drop-append xs ys k)
