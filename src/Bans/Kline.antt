-- ===== src/Bans/Kline.antt =====
-- KLineManager of irc/kline.go: the masks that are banned, with their expressions and the timers that end
-- the bans, and the database, as a map from the masks. A timer stands for the call that it will make.
-- Whether a write to the database succeeds is an argument; one that fails changes nothing.
pub mod Matching
use oragono.Prelude.{
  ℕ, zero, suc, ◌+◌, ◌-◌, ◌*◌, ◌/◌, ◌%◌, ◌^◌, ◌≤◌, ◌<◌, min, max, bit_and, bit_or, String, ◌≡◌,
  refl, sym, ap, subst, ◌∙◌, fun_ext, ◌≢◌, ◌↔◌, ◌⊎◌, inl, inr, Bool, true, false, not, ◌&&◌, ◌||◌,
  Option, none, some, List, [], ◌∷◌, ◌++◌, map, reverse, arith, ltb, leb, nat_beq, if◌then◌else◌,
  ltb→lt, lt→ltb, leb→le, nat_beq_iff, nat_beq_refl, Bool-cases, Option-cases, length, get_elem?,
  set, length-append, length-set, get_elem?-set_self, get_elem?-set_ne, get_or, take, drop,
  replicate, take-append-drop, length-take, length-drop, length-replicate, length-map, Eq, ◌==◌,
  ◌!=◌, nat_eq, string_eq, beq_refl, beq_ne, beq→eq, beq→ne,
}
use oragono.Prelude.GoMap.{
  GoMap, lookup, has, insert, delete, distinct, distinct-insert, distinct-delete, lookup-insert,
  lookup-delete, length-insert, length-delete-le, lookup-insert_self,
}
use oragono.Masks.{RegexpPackage, Regexp, runes, compile_glob}
use oragono.Bans.Info.{IpBanInfo, StoredBan, Returns, with_ttl, in_force}

pub record KLineInfo : Type 0 where
  pub mask : String
  pub matcher : Regexp
  pub info : IpBanInfo

pub record KLineManager : Type 0 where
  pub entries : GoMap String KLineInfo
  pub expiration_timers : GoMap String ℕ
  pub store : GoMap String StoredBan

pub data KlineError : Type 0 where
  no_existing_ban store_failed : KlineError

unfoldable pub cancel_timer : KLineManager → String → KLineManager
cancel_timer km mask = record km { expiration_timers = delete km.expiration_timers mask }

-- The new timer, unless the ban is permanent.
unfoldable pub set_timer : KLineManager → String → IpBanInfo → KLineManager
set_timer km mask info =
    if info.duration == 0
    then km
    else record km { expiration_timers = insert km.expiration_timers mask info.time_created }

-- The function of a timer, for a ban of `mask` that was created at `created`.
unfoldable pub process_expiration : KLineManager → String → ℕ → KLineManager
process_expiration km mask created = elim (lookup km.entries mask) [
  | none ↦ km
  | some ban ↦
      if ban.info.time_created == created
      then record km {
        entries = delete km.entries mask;
        expiration_timers = delete km.expiration_timers mask;
      }
      else km
]

-- `stored` says that the ban can be encoded and the transaction succeeds.
unfoldable pub persist_kline :
    KLineManager → String → IpBanInfo → ℕ → Bool → KLineManager × Option KlineError
unfolding with_ttl
persist_kline km mask info written stored =
    if stored
    then (record km { store = insert km.store mask (with_ttl info written) }, none)
    else (km, some store_failed)

unfoldable pub unpersist_kline : KLineManager → String → Bool → KLineManager × Option KlineError
unpersist_kline km mask deleted =
    if deleted then (record km { store = delete km.store mask }, none) else (km, some store_failed)

unfoldable pub remove_mask : KLineManager → String → Bool → KLineManager × Option KlineError
unfolding cancel_timer unpersist_kline
remove_mask km mask deleted =
    let kept = if has km.entries mask then delete km.entries mask else km.entries in
    let gone = cancel_timer (record km { entries = kept }) mask in
    if has km.entries mask then unpersist_kline gone mask deleted else (gone, some no_existing_ban)

module _ (re : RegexpPackage) where
  -- The rest of addMaskInternal, when the mask is compiled.
  unfoldable pub add_compiled : KLineManager → String → IpBanInfo → ℕ → Regexp → KLineManager
  unfolding cancel_timer set_timer in_force
  add_compiled km mask info now expr =
      let kln : KLineInfo = record { mask = mask; matcher = expr; info = info } in
      if in_force info now
      then set_timer (cancel_timer (record km { entries = insert km.entries mask kln }) mask) mask
          info
      else km

  unfoldable pub add_mask_internal : KLineManager → String → IpBanInfo → ℕ → KLineManager
  unfolding add_compiled
  add_mask_internal km mask info now = elim (compile_glob re (runes mask) false) [
    | none ↦ km
    | some expr ↦ add_compiled km mask info now expr
  ]

  unfoldable pub add_mask :
      KLineManager
      → String
      → ℕ
      → String
      → String
      → String
      → ℕ
      → ℕ
      → ℕ
      → Bool
      → KLineManager × Option KlineError
  unfolding add_mask_internal persist_kline
  add_mask km mask duration reason oper_reason oper_name created now written stored =
      let info : IpBanInfo = record {
        reason = reason;
        oper_reason = oper_reason;
        oper_name = oper_name;
        time_created = created;
        duration = duration;
      } in
      persist_kline (add_mask_internal km mask info now) mask info written stored

  -- for _, mask := range masks
  unfoldable pub matches_any : Regexp → List String → Bool
  matches_any expr [] = false
  matches_any expr (mask ∷ masks) = re.match_string expr mask || matches_any expr masks

  -- for _, entryInfo := range km.entries
  unfoldable pub find_entry : GoMap String KLineInfo → List String → Option IpBanInfo
  unfolding matches_any
  find_entry [] masks = none
  find_entry ((k, ban) ∷ m) masks =
      let rest = find_entry m masks in if matches_any ban.matcher masks then some ban.info else rest

  unfoldable pub check_masks : KLineManager → List String → Option IpBanInfo
  unfolding find_entry
  check_masks km masks = find_entry km.entries masks

  -- The loop of loadFromDatastore over the masks whose values can be read and that the database returns;
  -- `server` is its name.
  unfoldable pub load_entries :
      Returns → KLineManager → GoMap String StoredBan → String → ℕ → KLineManager
  unfolding add_mask_internal
  load_entries returns km [] server now = km
  load_entries returns km ((mask, s) ∷ stored) server now =
      let info = s.info in
      let named = if info.oper_name == "" then record info { oper_name = server } else info in
      load_entries returns (if returns s now then add_mask_internal km mask named now else km)
        stored server now

  -- NewKLineManager
  unfoldable pub new_kline_manager : Returns → GoMap String StoredBan → String → ℕ → KLineManager
  unfolding load_entries
  new_kline_manager returns stored server now =
      load_entries returns (record { entries = []; expiration_timers = []; store = stored }) stored
        server now
