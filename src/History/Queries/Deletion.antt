-- ===== src/History/Queries/Deletion.antt =====
-- What Delete leaves of the items of a buffer.
use oragono.Prelude.{
  ℕ, zero, suc, ◌+◌, ◌-◌, ◌≤◌, ◌<◌, ◌≡◌, refl, ap, subst, ◌∙◌, ◌≢◌, inl, inr, Bool, true, Option,
  none, some, List, ◌∷◌, map, arith, if◌then◌else◌, Option-cases, length, get_elem?, set,
  length-set, get_elem?-set_self, get_elem?-set_ne, nat_eq, string_eq,
}
use oragono.Ring.{visit, next, prev, distance, count, contents, in_bounds}
use oragono.Ring.Walk.{visit-set}
use oragono.Ring.Scan.{Reaches, next-Reaches, matching}
use oragono.History.Buffer.{Item, uninitialized_item, Buffer, items}
use oragono.Ring.Push.{get_elem?-lt}
use oragono.History.Queries.{delete_loop, delete_items}
use oragono.Ring.Scan.{prev-forward}

-- What becomes of an item.
abbrev pub blanked : (Item → Bool) → Item → Item
blanked predicate x = if predicate x then uninitialized_item else x

module _ (predicate : Item → Bool) where
  -- The buffer after the item at a position has been looked at.
  abbrev after_one : List Item → ℕ → Item → List Item
  after_one buf pos x = if predicate x then set buf pos uninitialized_item else buf

  length-after_one :
      (buf : List Item) (pos : ℕ) (x : Item) → length (after_one buf pos x) ≡ length buf
  length-after_one buf pos x = ground (arith, length-set buf pos uninitialized_item)

  get_elem?-after_one :
      (buf : List Item) (pos : ℕ) (x : Item)
      → pos < length buf
      → get_elem? buf pos ≡ some x
      → get_elem? (after_one buf pos x) pos ≡ some (blanked predicate x)
  get_elem?-after_one buf pos x h at =
      ground (arith, at, get_elem?-set_self buf pos uninitialized_item h)

  get_elem?-after_one_ne :
      (buf : List Item) (pos p : ℕ) (x : Item)
      → pos ≢ p
      → get_elem? (after_one buf pos x) p ≡ get_elem? buf p
  get_elem?-after_one_ne buf pos p x apart =
      ground (arith, get_elem?-set_ne buf {i = pos} {j = p} uninitialized_item apart)

  visit-after_one :
      (size : ℕ) (buf : List Item) (pos q n : ℕ) (x : Item)
      → length buf ≡ size
      → q < size
      → pos < size
      → n ≤ distance size q pos
      → visit (next size) (after_one buf pos x) q n ≡ visit (next size) buf q n
  visit-after_one size buf pos q n x fit hq hp far =
      subst (λ (k : ℕ). visit (next k) (after_one buf pos x) q n ≡ visit (next k) buf q n) fit
        (ground (
          arith,
          visit-set buf q n pos uninitialized_item (ground (arith, fit, hq))
              (ground (arith, fit, hp)) (ground (arith, fit, far)),
        ))

  -- A buffer in which the `n + 1` items from `pos` on are blanked, if they match.
  pub record Blanked (size : ℕ) (buf : List Item) (pos n deleted : ℕ) (o : Option (List Item × ℕ))
      : Type 0 where
    pub result : List Item
    pub succeeds :
        o ≡ some (result, deleted + length (matching predicate (visit (next size) buf pos (suc n))))
    pub sized : length result ≡ size
    pub seen :
        visit (next size) result pos (suc n)
        ≡ map (blanked predicate) (visit (next size) buf pos (suc n))
    pub unseen : (p : ℕ) → p < size → n < distance size pos p → get_elem? result p ≡ get_elem? buf p

  visit_first :
      (size : ℕ) (buf : List Item) (pos n : ℕ) (x : Item)
      → get_elem? buf pos ≡ some x
      → visit (next size) buf pos (suc n) ≡ x ∷ visit (next size) buf (next size pos) n
  unfolding visit
  visit_first size buf pos n x at = ground (arith, at)

  delete_last :
      (size : ℕ) (buf : List Item) (stop fuel pos deleted : ℕ) (x : Item)
      → length buf ≡ size
      → pos < size
      → get_elem? buf pos ≡ some x
      → pos ≡ stop
      → Blanked size buf pos 0 deleted (delete_loop predicate stop (suc fuel) pos buf deleted)
  unfolding delete_loop visit
  delete_last size buf stop fuel pos deleted x fit hp at last = record {
    result = after_one buf pos x;
    succeeds = ground (arith, at, last);
    sized = length-after_one buf pos x ∙ fit;
    seen = ground (arith, at, get_elem?-after_one buf pos x (ground (arith, fit, hp)) at);
    unseen = λ p h far. get_elem?-after_one_ne buf pos p x (ground (arith, far));
  }

  delete_loop_lem :
      (size : ℕ) (buf : List Item) (stop n fuel pos deleted : ℕ)
      → length buf ≡ size
      → pos < size
      → n < size
      → n < fuel
      → Reaches (next size) stop n pos
      → Blanked size buf pos n deleted (delete_loop predicate stop fuel pos buf deleted)
  unfolding delete_loop Reaches
  delete_loop_lem size buf stop n zero pos deleted fit hp few enough r = elim enough [ ]
  delete_loop_lem size buf stop zero (suc fuel) pos deleted fit hp few enough r =
      let first = get_elem?-lt buf pos (ground (arith, fit, hp)) in
      delete_last size buf stop fuel pos deleted first.0 fit hp first.1 r
  delete_loop_lem size buf stop (suc n) (suc fuel) pos deleted fit hp few enough r =
      let first = get_elem?-lt buf pos (ground (arith, fit, hp)) in
      let buf' = after_one buf pos first.0 in
      let at' = get_elem?-after_one buf pos first.0 (ground (arith, fit, hp)) first.1 in
      let deleted' = if predicate first.0 then deleted + 1 else deleted in
      let rest =
        delete_loop_lem size buf' stop n fuel (next size pos) deleted'
          (length-after_one buf pos first.0 ∙ fit) (ground (arith, hp)) (omega arith) (omega arith)
          r.1 in
      let same =
        visit-after_one size buf pos (next size pos) (suc n) first.0 fit (ground (arith, hp)) hp
          (ground (arith, few, hp)) in
      let old = visit_first size buf pos (suc n) first.0 first.1 in
      let kept : get_elem? rest.result pos ≡ some (blanked predicate first.0) =
        rest.unseen pos hp (ground (arith, few, hp)) ∙ at' in
      let new = visit_first size rest.result pos (suc n) (blanked predicate first.0) kept in
      record {
        result = rest.result;
        succeeds = rw old (ground (arith, first.1, fit, r, rest.succeeds, same));
        sized = rest.sized;
        seen = rw old (
            rw new (
              ap (λ xs. blanked predicate first.0 ∷ xs)
                (rest.seen ∙ ap (map (blanked predicate)) same)));
        unseen = λ p h far.
            rest.unseen p h (ground (arith, far, hp, h))
            ∙ get_elem?-after_one_ne buf pos p first.0 (ground (arith, far));
      }

  delete_empty :
      (l : Buffer)
      → l.start ≡ none
      → (l' : Buffer) × ((delete_items l predicate
            ≡ some (l', length (matching predicate (items l))))
          × ((items l' ≡ map (blanked predicate) (items l))
              × (in_bounds l'.buffer l'.start l'.end ≡ true)))
  unfolding delete_items contents
  delete_empty l empty =
      (l, (ground (arith, empty), (ground (arith, empty), ground (arith, empty))))

  delete_stored :
      (l : Buffer) (start : ℕ)
      → l.start ≡ some start
      → start < length l.buffer
      → l.end < length l.buffer
      → (l' : Buffer) × ((delete_items l predicate
            ≡ some (l', length (matching predicate (items l))))
          × ((items l' ≡ map (blanked predicate) (items l))
              × (in_bounds l'.buffer l'.start l'.end ≡ true)))
  unfolding delete_items contents
  delete_stored l start at hs he =
      let size = length l.buffer in
      let p = prev-forward size start l.end hs he in
      let n = count size start l.end - 1 in
      let whole : count size start l.end ≡ suc n = ground (arith, p) in
      let b =
        delete_loop_lem size l.buffer (prev size l.end) n size start 0 refl hs (ground (arith, p))
          (ground (arith, p))
          (next-Reaches size (prev size l.end) n start hs p.1.1.1.0 p.1.1.1.1) in
      let seen = b.seen in
      (
        record l { buffer = b.result },
        (
          ground (arith, at, hs, b.succeeds, whole),
          (ground (arith, at, whole, b.sized, seen), ground (arith, at, hs, he, b.sized)),
        ),
      )

  -- Delete ends without a panic on a buffer whose indices lie in it: the items that match are blanked, the
  -- others and their order stay, and the answer is the number of those that match.
  pub delete_items_lem :
      (l : Buffer)
      → in_bounds l.buffer l.start l.end ≡ true
      → (l' : Buffer) × ((delete_items l predicate
            ≡ some (l', length (matching predicate (items l))))
          × ((items l' ≡ map (blanked predicate) (items l))
              × (in_bounds l'.buffer l'.start l'.end ≡ true)))
  unfolding delete_items
  delete_items_lem l sound = elim (Option-cases l.start) [
    | inl empty ↦ delete_empty l empty
    | inr (start, at) ↦
        delete_stored l start at (ground (arith, at, sound)) (ground (arith, at, sound))
  ]
