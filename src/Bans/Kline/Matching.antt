-- ===== src/Bans/Kline/Matching.antt =====
-- What a banned mask bans: the entries keep the expressions of their masks and the timers of their bans.
use oragono.Prelude.{
  ℕ, String, ◌≡◌, refl, ◌↔◌, inl, inr, Bool, true, false, Option, none, some, List, [], ◌∷◌, arith,
  if◌then◌else◌, Bool-cases, ◌==◌, nat_eq, string_eq,
}
use oragono.Prelude.GoMap.{
  GoMap, lookup, delete, distinct, distinct-insert, distinct-delete, lookup-insert, lookup-delete,
}
use oragono.Masks.{RegexpPackage, Regexp, runes, compile_glob}
use oragono.Bans.Info.{IpBanInfo, StoredBan, Returns, is_some}
use oragono.Bans.Kline.{
  KLineInfo, KLineManager, cancel_timer, set_timer, process_expiration, persist_kline,
  unpersist_kline, remove_mask, add_compiled, add_mask_internal, add_mask, matches_any, find_entry,
  check_masks, load_entries, new_kline_manager,
}

abbrev pub timer_of : Option KLineInfo → Option ℕ
timer_of none = none
timer_of (some ban) = if ban.info.duration == 0 then none else some ban.info.time_created

module _ (re : RegexpPackage) where
  -- Each entry holds the expression of its own mask, and each temporary ban, and no other mask, has a timer,
  -- that of its creation.
  pub record IsCompiled (km : KLineManager) : Type 0 where
    pub compiled :
        (mask : String) (ban : KLineInfo)
        → lookup km.entries mask ≡ some ban
        → compile_glob re (runes mask) false ≡ some ban.matcher
    pub timed :
        (mask : String) → lookup km.expiration_timers mask ≡ timer_of (lookup km.entries mask)
    pub once : distinct km.entries ≡ true

  add_compiled-IsCompiled :
      (km : KLineManager) (mask : String) (info : IpBanInfo) (now : ℕ) (expr : Regexp)
      → compile_glob re (runes mask) false ≡ some expr
      → IsCompiled km
      → IsCompiled (add_compiled re km mask info now expr)
  unfolding add_compiled cancel_timer set_timer
  add_compiled-IsCompiled km mask info now expr c inv =
      let kln : KLineInfo = record { mask = mask; matcher = expr; info = info } in
      record {
        compiled = λ k ban p. ground (
          arith,
          c,
          p,
          inv.compiled k ban,
          lookup-insert km.entries mask k kln,
          string_eq.equals_iff mask k,
        );
        timed = λ k. ground (
          arith,
          inv.timed k,
          lookup-insert km.entries mask k kln,
          lookup-delete km.expiration_timers mask k,
          lookup-insert (delete km.expiration_timers mask) mask k info.time_created,
        );
        once = ground (arith, inv.once, distinct-insert km.entries mask kln inv.once);
      }

  add_compiled_any-IsCompiled :
      (km : KLineManager) (mask : String) (info : IpBanInfo) (now : ℕ) (o : Option Regexp)
      → compile_glob re (runes mask) false ≡ o
      → IsCompiled km
      → IsCompiled (elim o [ none ↦ km | some expr ↦ add_compiled re km mask info now expr ])
  add_compiled_any-IsCompiled km mask info now none e inv = inv
  add_compiled_any-IsCompiled km mask info now (some expr) e inv =
      add_compiled-IsCompiled km mask info now expr e inv

  add_mask_internal-IsCompiled :
      (km : KLineManager) (mask : String) (info : IpBanInfo) (now : ℕ)
      → IsCompiled km
      → IsCompiled (add_mask_internal re km mask info now)
  unfolding add_mask_internal
  add_mask_internal-IsCompiled km mask info now inv =
      add_compiled_any-IsCompiled km mask info now (compile_glob re (runes mask) false) refl inv

  process_expiration-IsCompiled :
      (km : KLineManager) (mask : String) (created : ℕ)
      → IsCompiled km
      → IsCompiled (process_expiration km mask created)
  unfolding process_expiration
  process_expiration-IsCompiled km mask created inv = record {
    compiled = λ k ban p. ground (arith, p, inv.compiled k ban, lookup-delete km.entries mask k);
    timed = λ k. ground (
      arith,
      inv.timed k,
      lookup-delete km.entries mask k,
      lookup-delete km.expiration_timers mask k,
    );
    once = ground (arith, inv.once, distinct-delete km.entries mask inv.once);
  }

  remove_mask-IsCompiled :
      (km : KLineManager) (mask : String) (deleted : Bool)
      → IsCompiled km
      → IsCompiled (remove_mask km mask deleted).0
  unfolding remove_mask cancel_timer unpersist_kline
  remove_mask-IsCompiled km mask deleted inv = record {
    compiled = λ k ban p. ground (arith, p, inv.compiled k ban, lookup-delete km.entries mask k);
    timed = λ k. ground (
      arith,
      inv.timed k,
      string_eq.equals_iff mask k,
      lookup-delete km.entries mask k,
      lookup-delete km.expiration_timers mask k,
    );
    once = ground (arith, inv.once, distinct-delete km.entries mask inv.once);
  }

  either_IsCompiled :
      (b : Bool) (km km' : KLineManager)
      → IsCompiled km
      → IsCompiled km'
      → IsCompiled (if b then km else km')
  either_IsCompiled true km km' inv inv' = inv
  either_IsCompiled false km km' inv inv' = inv'

  load_entries-IsCompiled :
      (returns : Returns) (km : KLineManager) (stored : GoMap String StoredBan) (server : String)
      (now : ℕ)
      → IsCompiled km
      → IsCompiled (load_entries re returns km stored server now)
  unfolding load_entries
  load_entries-IsCompiled returns km [] server now inv = inv
  load_entries-IsCompiled returns km ((mask, s) ∷ stored) server now inv =
      let info = s.info in
      let named = if info.oper_name == "" then record info { oper_name = server } else info in
      let next = add_mask_internal re km mask named now in
      load_entries-IsCompiled returns (if returns s now then next else km) stored server now (
        either_IsCompiled (returns s now) next km
          (add_mask_internal-IsCompiled km mask named now inv) inv)

  -- What the manager can do; a timer that is stopped may have started already, and a write to the database
  -- may fail.
  pub data Reachable (server : String) : KLineManager → Type 0 where
    started :
        (returns : Returns) (stored : GoMap String StoredBan) (now : ℕ)
        → Reachable server (new_kline_manager re returns stored server now)
    added :
        {km : KLineManager} (mask : String) (duration : ℕ) (reason oper_reason oper_name : String)
        (created now written : ℕ) (stored : Bool)
        → Reachable server km
        → Reachable server
            (add_mask re km mask duration reason oper_reason oper_name created now written stored).0
    removed :
        {km : KLineManager} (mask : String) (deleted : Bool)
        → Reachable server km
        → Reachable server (remove_mask km mask deleted).0
    expired :
        {km : KLineManager} (mask : String) (created : ℕ)
        → Reachable server km
        → Reachable server (process_expiration km mask created)

  no_entry :
      (k : String) (ban : KLineInfo)
      → lookup [] k ≡ some ban
      → compile_glob re (runes k) false ≡ some ban.matcher
  unfolding lookup
  no_entry k ban p = ground (arith, p)

  -- After a start and any bans, removals and expirations, late ones too, each entry has the expression of its
  -- own mask, each temporary ban has the timer of its own creation, and no other mask has a timer.
  pub reachable-IsCompiled :
      {server : String} {km : KLineManager} → Reachable server km → IsCompiled km
  unfolding new_kline_manager add_mask persist_kline
  reachable-IsCompiled {server} (started returns stored now) =
      load_entries-IsCompiled returns
        (record { entries = []; expiration_timers = []; store = stored }) stored server now
        (record {
          compiled = λ k ban p. no_entry k ban p;
          timed = λ k. unfold lookup in refl;
          once = unfold distinct in refl;
        })
  reachable-IsCompiled {server}
        (added {km} mask duration reason oper_reason oper_name created now written true r) =
      let info : IpBanInfo = record {
        reason = reason;
        oper_reason = oper_reason;
        oper_name = oper_name;
        time_created = created;
        duration = duration;
      } in
      let inv = add_mask_internal-IsCompiled km mask info now (reachable-IsCompiled r) in
      record { compiled = inv.compiled; timed = inv.timed; once = inv.once }
  reachable-IsCompiled {server}
        (added {km} mask duration reason oper_reason oper_name created now written false r) =
      let info : IpBanInfo = record {
        reason = reason;
        oper_reason = oper_reason;
        oper_name = oper_name;
        time_created = created;
        duration = duration;
      } in
      let inv = add_mask_internal-IsCompiled km mask info now (reachable-IsCompiled r) in
      record { compiled = inv.compiled; timed = inv.timed; once = inv.once }
  reachable-IsCompiled (removed {km} mask deleted r) =
      remove_mask-IsCompiled km mask deleted (reachable-IsCompiled r)
  reachable-IsCompiled (expired {km} mask created r) =
      process_expiration-IsCompiled km mask created (reachable-IsCompiled r)

  -- Some banned mask has an expression that matches one of the texts.
  abbrev pub Caught : GoMap String KLineInfo → List String → Type 0
  Caught m masks =
      (mask : String) × (ban : KLineInfo) × (lookup m mask ≡ some ban)
      × (matches_any re ban.matcher masks ≡ true)

  found-Caught :
      (m : GoMap String KLineInfo) (masks : List String)
      → distinct m ≡ true
      → is_some (find_entry re m masks) ≡ true
      → Caught m masks
  unfolding find_entry lookup distinct
  found-Caught [] masks d h = ground (arith, h)
  found-Caught ((k, ban) ∷ m) masks d h = elim (Bool-cases (matches_any re ban.matcher masks)) [
    | inl e ↦ (k, ban, ground (arith, string_eq.equals_iff k k), e)
    | inr e ↦
        (let (j, b, p, q) = found-Caught m masks (ground (arith, d)) (ground (arith, h, e)) in
          (j, b, ground (arith, d, p, string_eq.equals_iff k j), q))
  ]

  Caught-found :
      (m : GoMap String KLineInfo) (masks : List String)
      → Caught m masks
      → is_some (find_entry re m masks) ≡ true
  unfolding find_entry lookup
  Caught-found [] masks (mask, ban, p, q) = ground (arith, p)
  Caught-found ((k, b) ∷ m) masks (mask, ban, p, q) = elim (Bool-cases (k == mask)) [
    | inl e ↦ ground (arith, p, q, e)
    | inr e ↦ ground (arith, Caught-found m masks (mask, ban, ground (arith, p, e), q))
  ]

  -- After a start and any bans, removals and expirations, CheckMasks bans a client exactly if one of the
  -- texts given for it is matched by the expression that CompileGlob makes of a mask among the entries.
  pub check_masks_iff :
      {server : String} {km : KLineManager} (masks : List String)
      → Reachable server km
      → (is_some (check_masks re km masks) ≡ true) ↔ (
          (mask : String) × (ban : KLineInfo) × (expr : Regexp) × (lookup km.entries mask
            ≡ some ban)
          × (compile_glob re (runes mask) false ≡ some expr)
          × (matches_any re expr masks ≡ true))
  unfolding check_masks
  check_masks_iff {km = km} masks r =
      let inv = reachable-IsCompiled r in
      (
        λ h.
            (let (mask, ban, p, q) = found-Caught km.entries masks inv.once h in
              (mask, ban, ban.matcher, p, inv.compiled mask ban p, q)),
        λ (mask, ban, expr, p, c, q).
            Caught-found km.entries masks
              (mask, ban, p, ground (arith, c, q, inv.compiled mask ban p)),
      )
