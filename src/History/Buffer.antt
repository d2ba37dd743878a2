-- ===== src/History/Buffer.antt =====
-- Buffer of irc/history/history.go: its parts, and how an item is put at its end. The index -1 is `none`; the
-- end is only read together with the start. An index outside a slice panics, which is `none` too.
use oragono.Prelude.{
  ℕ, ◌+◌, ◌%◌, String, Option, none, some, List, ltb, if◌then◌else◌, length, get_elem?, set,
  replicate, ◌==◌, ◌!=◌, nat_eq, string_eq,
}
use oragono.Ring.{contents, count}

-- Item, and of its message what is read here; a time of 0 is the zero time.
pub record Item : Type 0 where
  pub item_type : ℕ
  pub nick : String
  pub account_name : String
  pub msgid : String
  pub time : ℕ
  pub cf_correspondent : String

-- Item{}
abbrev pub uninitialized_item : Item
uninitialized_item = record {
  item_type = 0;
  nick = "";
  account_name = "";
  msgid = "";
  time = 0;
  cf_correspondent = "";
}

pub record Buffer : Type 0 where
  pub buffer : List Item
  pub start : Option ℕ
  pub end : ℕ
  pub maximum_size : ℕ
  pub window : ℕ
  pub last_discarded : ℕ

abbrev initial_auto_size : ℕ
initial_auto_size = 32

unfoldable pub initial_size : ℕ → ℕ → ℕ
initial_size size window =
    if window != 0 then if ltb size initial_auto_size then size else initial_auto_size else size

unfoldable pub initialize : ℕ → ℕ → Buffer
unfolding initial_size
initialize size window = record {
  buffer = replicate (initial_size size window) uninitialized_item;
  start = none;
  end = 0;
  maximum_size = size;
  window = window;
  last_discarded = 0;
}

-- The items that a buffer holds, from the oldest to the newest.
abbrev pub items : Buffer → List Item
items l = contents l.buffer l.start l.end

-- The method `length`.
unfoldable pub used : Buffer → ℕ
used l = elim l.start [ none ↦ 0 | some start ↦ count (length l.buffer) start l.end ]

-- list.lastDiscarded, if it is before the time of a discarded item.
unfoldable pub discard : ℕ → Item → ℕ
discard last item = if ltb last item.time then item.time else last

-- list.buffer[pos] = item
abbrev pub put : Buffer → ℕ → Item → Option Buffer
put l pos item =
    if ltb pos (length l.buffer) then some (record l { buffer = set l.buffer pos item }) else none

-- The end of Add, after the buffer has grown.
unfoldable pub push : Buffer → Item → Option Buffer
unfolding discard
push l item =
    let after = (l.end + 1) % length l.buffer in
    elim l.start [
      | none ↦ put (record l { start = some 0; end = 1 % length l.buffer }) 0 item
      | some start ↦
          if start != l.end
          then put (record l { end = after }) l.end item
          else elim (get_elem? l.buffer l.end) [
            | none ↦ none
            | some oldest ↦
                put
                  (record l {
                    end = after;
                    start = some after;
                    last_discarded = discard l.last_discarded oldest;
                  })
                  l.end item
          ]
    ]

-- An item without a time gets the time of its arrival.
abbrev pub stamped : Item → ℕ → Item
stamped item now = if item.time == 0 then record item { time = now } else item
