-- ===== src/Examples/Histories.antt =====
-- The theorems on buffers of items, and on the WHOWAS list.
use oragono.Prelude.{
  ℕ, ◌≤◌, String, ◌≡◌, refl, Bool, true, none, some, List, [], ◌∷◌, ◌++◌, map, reverse, arith,
  length, ◌==◌, nat_eq, string_eq,
}
use oragono.Ring.{last, in_bounds, contents}
use oragono.Ring.Scan.{matching, limited}
use oragono.History.Buffer.{Item, uninitialized_item, Buffer, items, stamped}
use oragono.History.Growth.{add, resize}
use oragono.History.Growth.Log.{Represents}
use oragono.History.Growth.Refinement.{add-Represents, resize-Represents}
use oragono.History.Queries.{min_max_asc, between_times, delete_items}
use oragono.History.Queries.Complete.{query, between_times_lem}
use oragono.History.Queries.Deletion.{blanked, delete_items_lem}
use oragono.History.Queries.Forgetting.{resize_zero_complete}
use oragono.WhoWas.{WhoWas, no_one, find, initialize as new_list}
use oragono.WhoWas.Bounds.{append_all}
use oragono.WhoWas.Search.{is_named, find-append_all}

abbrev said : ℕ → Item
said t = record uninitialized_item { item_type = 1; nick = "alice"; time = t }

-- A full buffer with room for two items, which has dropped one.
abbrev recent : Buffer
recent = record {
  buffer = said 3 ∷ said 2 ∷ [];
  start = some 1;
  end = 1;
  maximum_size = 4;
  window = 10;
  last_discarded = 1;
}

abbrev everything : List Item
everything = said 1 ∷ said 2 ∷ said 3 ∷ []

recent-Represents : Represents recent everything
unfolding contents
recent-Represents = record {
  dropped = said 1 ∷ [];
  split = refl;
  covered = refl;
  timed = refl;
  sound = refl;
}

add-Represents_example :
    (l' : Buffer) × ((add recent (said 4) 9 ≡ some l')
      × (Represents l' (everything ++ stamped (said 4) 9 ∷ [])
          × ((length recent.buffer ≤ length l'.buffer)
              × (items l' ≡ last (length l'.buffer) (items recent ++ stamped (said 4) 9 ∷ [])))))
add-Represents_example =
    add-Represents recent (said 4) 9 everything recent-Represents (ground arith) (ground arith)

resize-Represents_example :
    (l' : Buffer) × ((resize recent 1 0 ≡ some l')
      × (Represents l' everything × (length l'.buffer ≤ 1)))
resize-Represents_example = resize-Represents recent 1 0 everything recent-Represents (ground arith)

between_times_lem_example :
    let i = min_max_asc 1 0 0 in
    (results : List Item) × ((complete : Bool) × ((between_times recent 1 0 0 none 5
          ≡ some (results, complete))
        × ((results ≡ query (items recent) i none 5)
            × ((complete ≡ true) → results ≡ query everything i none 5))))
between_times_lem_example = between_times_lem recent everything 1 0 0 none 5 recent-Represents

delete_items_lem_example :
    let p = λ (x : Item). x.time == 2 in
    (l' : Buffer) × ((delete_items recent p ≡ some (l', length (matching p (items recent))))
      × ((items l' ≡ map (blanked p) (items recent))
          × (in_bounds l'.buffer l'.start l'.end ≡ true)))
delete_items_lem_example = delete_items_lem (λ x. x.time == 2) recent refl

resize_zero_complete_example :
    elim (resize (record recent { last_discarded = 0 }) 0 0) [
      | none ↦ none
      | some l' ↦ elim (resize l' 5 0) [ none ↦ none | some l'' ↦ between_times l'' 0 0 0 none 10 ]
    ]
    ≡ some ([], true)
resize_zero_complete_example =
    resize_zero_complete (record recent { last_discarded = 0 }) 1 5 10 refl (ground arith)
      (ground arith) (ground arith) refl

abbrev gone : String → WhoWas
gone nick = record no_one { nick = nick; nick_casefolded = nick }

find-append_all_example :
    elim (append_all (new_list 2) (gone "alice" ∷ gone "bob" ∷ gone "alice" ∷ [])) [
      | none ↦ none
      | some l ↦ find l (some "alice") 0
    ]
    ≡ some (
        limited 0 (
          matching
            (is_named "alice")
            (reverse (last 2 (gone "alice" ∷ gone "bob" ∷ gone "alice" ∷ [])))))
find-append_all_example =
    find-append_all 2 (gone "alice" ∷ gone "bob" ∷ gone "alice" ∷ []) "alice" 0 (ground arith)
