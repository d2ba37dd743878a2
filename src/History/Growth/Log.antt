-- ===== src/History/Growth/Log.antt =====
-- A buffer as the end of a log of everything that was added to it.
use oragono.Prelude.{
  ℕ, ◌-◌, ◌≤◌, ◌≡◌, refl, sym, subst, ◌∙◌, Bool, true, ◌&&◌, List, [], ◌∷◌, ◌++◌, arith, ltb, leb,
  length, take, drop, take-append-drop, nat_eq, string_eq,
}
use mathlib.Core.List.{append_assoc, append-nil}
use oragono.History.Buffer.{Item, Buffer, items, discard}
use oragono.History.Growth.Copies.{discard_all}
use oragono.History.Growth.Kept.{is_sound, Resized}

-- All items have a time.
abbrev pub all_timed : List Item → Bool
all_timed [] = true
all_timed (x ∷ xs) = ltb 0 x.time && all_timed xs

-- All items have a time, not after `t`.
abbrev pub all_covered : ℕ → List Item → Bool
all_covered t [] = true
all_covered t (x ∷ xs) = ltb 0 x.time && leb x.time t && all_covered t xs

-- The log is what was dropped, and then the items of the buffer; `last_discarded` covers the former.
pub record Represents (l : Buffer) (log : List Item) : Type 0 where
  pub dropped : List Item
  pub split : log ≡ dropped ++ items l
  pub covered : all_covered l.last_discarded dropped ≡ true
  pub timed : all_timed (items l) ≡ true
  pub sound : is_sound l ≡ true

covered_later :
    (t u : ℕ) (xs : List Item) → t ≤ u → all_covered t xs ≡ true → all_covered u xs ≡ true
covered_later t u [] h ok = refl
covered_later t u (x ∷ xs) h ok = ground (arith, covered_later t u xs h, ok)

le-discard_all : (t : ℕ) (xs : List Item) → t ≤ discard_all t xs
unfolding discard_all discard
le-discard_all t [] = omega arith
le-discard_all t (x ∷ xs) = ground (arith, le-discard_all t xs, le-discard_all x.time xs)

covered-discard_all :
    (t : ℕ) (xs : List Item) → all_timed xs ≡ true → all_covered (discard_all t xs) xs ≡ true
unfolding discard_all discard
covered-discard_all t [] ok = refl
covered-discard_all t (x ∷ xs) ok = ground (
  arith,
  ok,
  covered-discard_all t xs,
  covered-discard_all x.time xs,
  le-discard_all t xs,
  le-discard_all x.time xs,
)

covered-append :
    (t : ℕ) (xs ys : List Item) → all_covered t (xs ++ ys) ≡ (all_covered t xs && all_covered t ys)
covered-append t [] ys = refl
covered-append t (x ∷ xs) ys = ground (arith, covered-append t xs ys)

timed-append : (xs ys : List Item) → all_timed (xs ++ ys) ≡ (all_timed xs && all_timed ys)
timed-append [] ys = refl
timed-append (x ∷ xs) ys = ground (arith, timed-append xs ys)

-- A buffer that keeps the last `n` of the items, and one more at the end, still represents the log.
pub shortened :
    (l l' : Buffer) (n : ℕ) (log more : List Item)
    → Represents l log
    → items l' ≡ drop n (items l) ++ more
    → l'.last_discarded ≡ discard_all l.last_discarded (take n (items l))
    → all_timed more ≡ true
    → is_sound l' ≡ true
    → Represents l' (log ++ more)
shortened l l' n log more r kept lost timed sound =
    let front = take n (items l) in
    let whole = take-append-drop n (items l) in
    record {
      dropped = r.dropped ++ front;
      split = ground (
        arith,
        r.split,
        whole,
        kept,
        append_assoc r.dropped (items l) more,
        append_assoc front (drop n (items l)) more,
        append_assoc r.dropped front (drop n (items l) ++ more),
      );
      covered = ground (
        arith,
        lost,
        whole,
        r.covered,
        r.timed,
        timed-append front (drop n (items l)),
        covered-append (discard_all l.last_discarded front) r.dropped front,
        covered_later l.last_discarded (discard_all l.last_discarded front) r.dropped,
        le-discard_all l.last_discarded front,
        covered-discard_all l.last_discarded front,
      );
      timed = ground (
        arith,
        kept,
        whole,
        timed,
        r.timed,
        timed-append front (drop n (items l)),
        timed-append (drop n (items l)) more,
      );
      sound = sound;
    }

pub resized :
    (l l' : Buffer) (size : ℕ) (log : List Item)
    → Represents l log
    → Resized l size l'
    → size ≤ l.maximum_size
    → Represents l' log
resized l l' size log r s small = subst (Represents l') (append-nil log) (
    shortened l l' (length (items l) - size) log [] r
      (s.kept ∙ sym (append-nil (drop (length (items l) - size) (items l)))) s.lost refl
      (ground (arith, s.bounded, s.sized, s.limited, small)))

-- The same buffer with other settings.
pub reset :
    (l : Buffer) (maximum_size window : ℕ) (log : List Item)
    → Represents l log
    → length l.buffer ≤ maximum_size
    → Represents (record l { maximum_size = maximum_size; window = window }) log
reset l maximum_size window log r small = record {
  dropped = r.dropped;
  split = r.split;
  covered = r.covered;
  timed = r.timed;
  sound = ground (arith, r.sound, small);
}
