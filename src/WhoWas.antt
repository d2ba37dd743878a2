-- ===== src/WhoWas.antt =====
-- WhoWasList of irc/whowas.go. An index of -1 is `none`, an index outside the buffer panics, which is `none` too,
-- and so is a search of more steps than the buffer has places.
pub mod Bounds
pub mod Search
use oragono.Prelude.{
  ℕ, zero, suc, ◌+◌, ◌-◌, ◌*◌, ◌/◌, ◌%◌, ◌^◌, ◌≤◌, ◌<◌, min, max, bit_and, bit_or, String, ◌≡◌,
  refl, sym, ap, subst, ◌∙◌, fun_ext, ◌≢◌, ◌↔◌, ◌⊎◌, inl, inr, Bool, true, false, not, ◌&&◌, ◌||◌,
  Option, none, some, List, [], ◌∷◌, ◌++◌, map, reverse, arith, ltb, leb, nat_beq, if◌then◌else◌,
  ltb→lt, lt→ltb, leb→le, nat_beq_iff, nat_beq_refl, Bool-cases, Option-cases, length, get_elem?,
  set, length-append, length-set, get_elem?-set_self, get_elem?-set_ne, get_or, take, drop,
  replicate, take-append-drop, length-take, length-drop, length-replicate, length-map, Eq, ◌==◌,
  ◌!=◌, nat_eq, string_eq, beq_refl, beq_ne, beq→eq, beq→ne,
}
use oragono.Prelude.GoMap.{
  GoMap, lookup, has, insert, delete, lookup-insert, lookup-delete, length-insert, length-delete-le,
  lookup-insert_self,
}
use oragono.Ring.{prev, contents}

-- WhoWas of irc/client.go.
pub record WhoWas : Type 0 where
  pub nick : String
  pub nick_casefolded : String
  pub username : String
  pub hostname : String
  pub realname : String

-- WhoWas{}
abbrev pub no_one : WhoWas
no_one = record { nick = ""; nick_casefolded = ""; username = ""; hostname = ""; realname = "" }

pub record WhoWasList : Type 0 where
  pub buffer : List WhoWas
  pub start : Option ℕ
  pub end : ℕ

-- The entries, from the oldest to the newest.
abbrev pub entries : WhoWasList → List WhoWas
entries l = contents l.buffer l.start l.end

-- Initialize; without entries, the end is not read.
unfoldable pub initialize : ℕ → WhoWasList
initialize size = record { buffer = replicate size no_one; start = none; end = 0 }

-- list.buffer[pos] = whowas
unfoldable pub write : WhoWasList → ℕ → WhoWas → Option WhoWasList
write l pos w =
    if ltb pos (length l.buffer) then some (record l { buffer = set l.buffer pos w }) else none

-- Append
unfoldable pub append : WhoWasList → WhoWas → Option WhoWasList
unfolding write
append l w =
    let n = length l.buffer in
    let after = (l.end + 1) % n in
    if n == 0 then some l else elim l.start [
      | none ↦ write (record l { start = some 0; end = 1 }) 0 w
      | some start ↦
          if start != l.end
          then write (record l { end = after }) l.end w
          else write (record l { end = after; start = some after }) l.end w
    ]

-- The loop of Find, from the newest entry back.
unfoldable pub find_loop : String → ℕ → List WhoWas → ℕ → ℕ → ℕ → List WhoWas → Option (List WhoWas)
find_loop cf limit buf start zero pos results = none
find_loop cf limit buf start (suc fuel) pos results =
    if limit == 0 || ltb (length results) limit
    then elim (get_elem? buf pos) [
      | none ↦ none
      | some w ↦
          let results' = if cf == w.nick_casefolded then results ++ w ∷ [] else results in
          let rest = find_loop cf limit buf start fuel (prev (length buf) pos) results' in
          if pos == start then some results' else rest
    ]
    else some results

-- Find, for a nickname that may not have a folded form.
unfoldable pub find : WhoWasList → Option String → ℕ → Option (List WhoWas)
unfolding find_loop
find l none limit = some []
find l (some cf) limit = elim l.start [
  | none ↦ some []
  | some start ↦
      find_loop cf limit l.buffer start (length l.buffer + 1) (prev (length l.buffer) l.end) []
]
