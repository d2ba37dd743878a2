-- ===== src/WhoWas/Search.antt =====
-- What Find finds.
use oragono.Prelude.{
  ℕ, zero, suc, ◌+◌, ◌-◌, ◌<◌, String, ◌≡◌, refl, ap, ◌∙◌, inl, inr, Bool, true, ◌||◌, none, some,
  List, [], ◌∷◌, ◌++◌, reverse, arith, ltb, if◌then◌else◌, Bool-cases, Option-cases, length,
  length-append, ◌==◌, nat_eq, string_eq,
}
use oragono.Ring.{visit, prev, count, contents, in_bounds, last}
use oragono.Ring.Push.{get_elem?-lt}
use oragono.Ring.Scan.{
  Reaches, prev-Reaches, visit-prev, prev-forward, matching, limited, collect, collect_lem,
}
use oragono.WhoWas.{WhoWas, WhoWasList, entries, initialize, find_loop, find}
use oragono.WhoWas.Bounds.{append_all, append_all-last}

-- An entry of the nickname.
abbrev pub is_named : String → WhoWas → Bool
is_named cf w = cf == w.nick_casefolded

find_loop-limit :
    (cf : String) (limit : ℕ) (buf : List WhoWas) (start fuel pos : ℕ) (results : List WhoWas)
    → 0 < fuel
    → 0 < limit
    → length results ≡ limit
    → find_loop cf limit buf start fuel pos results ≡ some results
unfolding find_loop
find_loop-limit cf limit buf start zero pos results h some_limit full = elim h [ ]
find_loop-limit cf limit buf start (suc fuel) pos results h some_limit full =
    ground (arith, some_limit, full)

find_loop_lem :
    (cf : String) (limit : ℕ) (buf : List WhoWas) (start n fuel pos : ℕ) (results : List WhoWas)
    → pos < length buf
    → n < fuel
    → Reaches (prev (length buf)) start n pos
    → (limit == 0 || ltb (length results) limit) ≡ true
    → find_loop cf limit buf start fuel pos results
      ≡ some (collect (is_named cf) limit results (visit (prev (length buf)) buf pos (n + 1)))
unfolding find_loop Reaches visit collect
find_loop_lem cf limit buf start n zero pos results hp enough r room = elim enough [ ]
find_loop_lem cf limit buf start zero (suc fuel) pos results hp enough r room =
    let first = get_elem?-lt buf pos hp in ground (arith, first.1, r, room)
find_loop_lem cf limit buf start (suc n) (suc fuel) pos results hp enough r room =
    let first = get_elem?-lt buf pos hp in
    let results' = if is_named cf first.0 then results ++ first.0 ∷ [] else results in
    let before = prev (length buf) pos in
    elim (Bool-cases (limit == 0 || ltb (length results') limit)) [
      | inl more ↦ ground (
        arith,
        first.1,
        r,
        room,
        more,
        find_loop_lem cf limit buf start n fuel before results' (ground (arith, hp)) (omega arith)
            r.1 more,
      )
      | inr full ↦
          let exact : length results' ≡ limit =
            ground (arith, full, room, length-append results (first.0 ∷ [])) in
          ground (
            arith,
            first.1,
            r,
            room,
            exact,
            find_loop-limit cf limit buf start fuel before results' (omega arith)
                (ground (arith, full)) exact,
          )
    ]

find-empty :
    (l : WhoWasList) (cf : String) (limit : ℕ)
    → l.start ≡ none
    → find l (some cf) limit ≡ some (limited limit (matching (is_named cf) (reverse (entries l))))
unfolding find contents
find-empty l cf zero empty = rw empty refl
find-empty l cf (suc limit) empty = rw empty (ground arith)

find-some :
    (l : WhoWasList) (cf : String) (limit start : ℕ)
    → l.start ≡ some start
    → start < length l.buffer
    → l.end < length l.buffer
    → find l (some cf) limit ≡ some (limited limit (matching (is_named cf) (reverse (entries l))))
unfolding find contents
find-some l cf limit start at hs he =
    let size = length l.buffer in
    let p = prev-forward size start l.end hs he in
    let n = count size start l.end - 1 in
    let whole : count size start l.end ≡ n + 1 = ground (arith, p) in
    ground (
      arith,
      at,
      p,
      whole,
      find_loop_lem cf limit l.buffer start n (size + 1) (prev size l.end) [] p.1.1.1.0
          (ground (arith, p)) (prev-Reaches size start n (prev size l.end) p.1.1.1.0 hs p.1.1.1.1)
          (ground arith),
      visit-prev size l.buffer start n hs (ground (arith, p)),
      collect_lem (is_named cf) limit (visit (prev size) l.buffer (prev size l.end) (n + 1)),
    )

-- Find ends without a panic, with the entries of the nickname, the newest first, up to the limit.
find_lem :
    (l : WhoWasList) (cf : String) (limit : ℕ)
    → in_bounds l.buffer l.start l.end ≡ true
    → find l (some cf) limit ≡ some (limited limit (matching (is_named cf) (reverse (entries l))))
find_lem l cf limit sound = elim (Option-cases l.start) [
  | inl empty ↦ find-empty l cf limit empty
  | inr (start, at) ↦
      find-some l cf limit start at (ground (arith, at, sound)) (ground (arith, at, sound))
]

-- A search after any appends to a new list with room for two entries or more ends, without a panic, in the
-- entries of the nickname among the last that there is room for, the newest first, up to the limit.
pub find-append_all :
    (size : ℕ) (ws : List WhoWas) (cf : String) (limit : ℕ)
    → 1 < size
    → elim (append_all (initialize size) ws) [ none ↦ none | some l ↦ find l (some cf) limit ]
      ≡ some (limited limit (matching (is_named cf) (reverse (last size ws))))
find-append_all size ws cf limit room =
    let a = append_all-last size ws room in
    rw a.1.0 (
      find_lem a.0 cf limit a.1.1.bounded
      ∙ ap (λ (vs : List WhoWas). some (limited limit (matching (is_named cf) (reverse vs))))
          a.1.1.held)
