-- ===== src/Ring.antt =====
-- The elements of a ring buffer, by the walk through its positions; shared by irc/whowas.go and
-- irc/history/history.go.
pub mod Walk
pub mod Push
pub mod Scan
use oragono.Prelude.{
  ℕ, zero, suc, ◌+◌, ◌-◌, ◌*◌, ◌/◌, ◌%◌, ◌^◌, ◌≤◌, ◌<◌, min, max, bit_and, bit_or, String, ◌≡◌,
  refl, sym, ap, subst, ◌∙◌, fun_ext, ◌≢◌, ◌↔◌, ◌⊎◌, inl, inr, Bool, true, false, not, ◌&&◌, ◌||◌,
  Option, none, some, List, [], ◌∷◌, ◌++◌, map, reverse, arith, ltb, leb, nat_beq, if◌then◌else◌,
  ltb→lt, lt→ltb, leb→le, nat_beq_iff, nat_beq_refl, Bool-cases, Option-cases, length, get_elem?,
  set, length-append, length-set, get_elem?-set_self, get_elem?-set_ne, get_or, take, drop,
  replicate, take-append-drop, length-take, length-drop, length-replicate, length-map, Eq, ◌==◌,
  ◌!=◌, nat_eq, string_eq, beq_refl, beq_ne, beq→eq, beq→ne,
}
use oragono.Prelude.GoMap.{
  GoMap, lookup, has, insert, delete, lookup-insert, lookup-delete, length-insert, length-delete-le,
  lookup-insert_self,
}

-- The element at a position, if there is one.
abbrev pub element {ℓ} : {A : Type ℓ} → List A → ℕ → List A
element buf pos = elim (get_elem? buf pos) [ none ↦ [] | some x ↦ x ∷ [] ]

-- The elements at `n` positions, each the `step` of the one before.
unfoldable pub visit {ℓ} : {A : Type ℓ} → (ℕ → ℕ) → List A → ℕ → ℕ → List A
visit step buf pos zero = []
visit step buf pos (suc n) = element buf pos ++ visit step buf (step pos) n

-- The positions after and before one, in a buffer of `size`; the methods `next` and `prev`.
abbrev pub next : ℕ → ℕ → ℕ
next size pos = if pos == size - 1 then 0 else pos + 1

abbrev pub prev : ℕ → ℕ → ℕ
prev size pos = if pos == 0 then size - 1 else pos - 1

-- How many steps forward lead from a position to another.
abbrev pub distance : ℕ → ℕ → ℕ → ℕ
distance size from to = if leb from to then to - from else size + to - from

-- The position `k` steps forward, for at most one turn.
abbrev pub forward : ℕ → ℕ → ℕ → ℕ
forward size pos k = if ltb (pos + k) size then pos + k else pos + k - size

-- How many elements there are from `start` to before `end`: the whole buffer if they are the same.
abbrev pub count : ℕ → ℕ → ℕ → ℕ
count size start end = if ltb start end then end - start else size - (start - end)

-- The elements of a buffer that is empty, or begins at a position and ends before another.
unfoldable pub contents {ℓ} : {A : Type ℓ} → List A → Option ℕ → ℕ → List A
unfolding visit
contents buf none end = []
contents buf (some start) end = visit (next (length buf)) buf start (count (length buf) start end)

-- The indices are positions of the buffer.
abbrev pub in_bounds {ℓ} : {A : Type ℓ} → List A → Option ℕ → ℕ → Bool
in_bounds buf none end = true
in_bounds buf (some start) end = ltb start (length buf) && ltb end (length buf)

-- The last `n` elements.
abbrev pub last {ℓ} : {A : Type ℓ} → ℕ → List A → List A
last n xs = drop (length xs - n) xs
