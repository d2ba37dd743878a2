-- ===== src/ChannelManager/Operations.antt =====
-- The methods of ChannelManager, each of which holds its lock; Join holds it twice, with the join of the
-- channel in between, and is three operations here: `claim`, `load_channel_once` with Channel.Join, and
-- `maybe_cleanup`.
pub mod Names
pub mod Pending
pub mod Interleaving
pub mod Renaming
use oragono.Prelude.{
  ℕ, zero, suc, ◌+◌, ◌-◌, ◌*◌, ◌/◌, ◌%◌, ◌^◌, ◌≤◌, ◌<◌, min, max, bit_and, bit_or, String, ◌≡◌,
  refl, sym, ap, subst, ◌∙◌, fun_ext, ◌≢◌, ◌↔◌, ◌⊎◌, inl, inr, Bool, true, false, not, ◌&&◌, ◌||◌,
  Option, none, some, List, [], ◌∷◌, ◌++◌, map, reverse, arith, ltb, leb, nat_beq, if◌then◌else◌,
  ltb→lt, lt→ltb, leb→le, nat_beq_iff, nat_beq_refl, Bool-cases, Option-cases, length, get_elem?,
  set, length-append, length-set, get_elem?-set_self, get_elem?-set_ne, get_or, take, drop,
  replicate, take-append-drop, length-take, length-drop, length-replicate, length-map, Eq, ◌==◌,
  ◌!=◌, nat_eq, string_eq, beq_refl, beq_ne, beq→eq, beq→ne,
}
use oragono.Prelude.GoMap.{
  GoMap, lookup, has, insert, delete, lookup-insert, lookup-delete, length-insert, length-delete-le,
  lookup-insert_self,
}
use Prim.Native.String.{len}
use oragono.Masks.{RegexpPackage}
use oragono.Channel.State.{Channel, mark_dirty}
use oragono.Channel.Storage.{RegisteredChannel, new_channel, rename_channel, is_clean, load}
use oragono.Channel.Registration
use oragono.ChannelManager.State.{
  StringSet, Entry, ChannelManager, World, Config, ManagerError, no_such_channel, channel_purged,
  insufficient_privs, confusable_identifier, feature_disabled, channel_already_registered,
  channel_not_owned, invalid_channel_name, channel_name_in_use, not_casefolded, update, delete_some,
  insert_some,
}

-- loadRegisteredChannels, from the names in the database.
unfoldable pub load_registered_channels :
    World → Config → ChannelManager → List String → ChannelManager
load_registered_channels world cfg cm [] =
    if cfg.registration_enabled
    then record cm { registered_channels = []; registered_skeletons = [] }
    else cm
load_registered_channels world cfg cm (name ∷ names) =
    let rest = load_registered_channels world cfg cm names in
    if cfg.registration_enabled
    then record rest {
      registered_channels = insert_some rest.registered_channels (world.casefold_channel name);
      registered_skeletons = insert_some rest.registered_skeletons (world.skeleton_of name);
    }
    else cm

unfoldable pub initialize :
    World → Config → ChannelManager → List String → StringSet → ChannelManager
unfolding load_registered_channels
initialize world cfg cm names purged =
    let loaded =
      load_registered_channels world cfg (record cm { chans = []; chans_skeletons = [] }) names in
    record loaded { purged_channels = purged }

-- Get: a channel that is still loading is not there yet.
unfoldable pub get_folded : ChannelManager → Option String → Option ℕ
get_folded cm none = none
get_folded cm (some cf) = elim (lookup cm.chans cf) [
  | none ↦ none
  | some a ↦ if cm.loaded a then some a else none
]

-- A new entry, under a new address.
unfoldable pub create :
    Config → ChannelManager → String → String → String → Bool → ℕ → ChannelManager
create cfg cm name cf skeleton registered now =
    let a = cm.next_address in
    record cm {
      chans = insert cm.chans cf a;
      chans_skeletons =
          if registered then cm.chans_skeletons else insert cm.chans_skeletons skeleton true;
      entries =
          update cm.entries a
            (record { pending_joins = 0; skeleton = if registered then "" else skeleton });
      channels = update cm.channels a (new_channel cfg.default_modes name cf now registered);
      loaded = update cm.loaded a (not registered);
      next_address = a + 1;
    }

-- entry.pendingJoins += 1
unfoldable pub add_pending : ChannelManager → ℕ → ChannelManager
add_pending cm a =
    let e = cm.entries a in
    record cm { entries = update cm.entries a (record e { pending_joins = e.pending_joins + 1 }) }

-- The part of Join under the lock, for a name that folds to `cf`; `may_create` says that the client has the
-- role capability `chanreg`.
unfoldable pub claim_entry :
    Config
    → ChannelManager
    → String
    → String
    → String
    → Bool
    → ℕ
    → Option ℕ
    → ChannelManager × (Option ManagerError × ℕ)
unfolding create add_pending
claim_entry cfg cm name cf skeleton may_create now (some a) = (add_pending cm a, (none, a))
claim_entry cfg cm name cf skeleton may_create now none =
    let registered = has cm.registered_channels cf in
    if not registered && cfg.op_only_creation && not may_create
    then (cm, (some insufficient_privs, 0))
    else if has cm.chans_skeletons skeleton
        || (not registered && has cm.registered_skeletons skeleton)
    then (cm, (some confusable_identifier, 0))
    else (
      add_pending (create cfg cm name cf skeleton registered now) cm.next_address,
      (none, cm.next_address),
    )

unfoldable pub claim :
    Config
    → ChannelManager
    → String
    → Option String
    → Option String
    → Bool
    → ℕ
    → ChannelManager × (Option ManagerError × ℕ)
unfolding claim_entry
claim cfg cm name none skeleton may_create now = (cm, (some no_such_channel, 0))
claim cfg cm name (some cf) none may_create now = (cm, (some no_such_channel, 0))
claim cfg cm name (some cf) (some skeleton) may_create now =
    if ltb cfg.channel_len (len cf)
    then (cm, (some no_such_channel, 0))
    else if has cm.purged_channels cf
    then (cm, (some channel_purged, 0))
    else claim_entry cfg cm name cf skeleton may_create now (lookup cm.chans cf)

-- Channel.EnsureLoaded
unfoldable pub load_channel_once : RegexpPackage → World → ChannelManager → ℕ → ChannelManager
load_channel_once re world cm a =
    let ch = cm.channels a in
    if cm.loaded a then cm else record cm {
      channels = update cm.channels a (load re ch (world.load_channel ch.name_casefolded));
      loaded = update cm.loaded a true;
    }

-- Another operation of a channel, in which its name does not change.
unfoldable pub set_channel : ChannelManager → ℕ → Channel → ChannelManager
set_channel cm a ch = record cm { channels = update cm.channels a ch }

-- The end of maybeCleanup: the entry goes if no join is pending and the channel is clean.
unfoldable pub drop_clean : World → ChannelManager → ℕ → ChannelManager
drop_clean world cm a =
    let e = cm.entries a in
    let ch = cm.channels a in
    if e.pending_joins == 0 && is_clean ch (world.is_writing a) (world.is_ephemeral a)
    then record cm {
      chans = delete cm.chans ch.name_casefolded;
      chans_skeletons =
          if e.skeleton != "" then delete cm.chans_skeletons e.skeleton else cm.chans_skeletons;
    }
    else cm

unfoldable pub maybe_cleanup : World → ChannelManager → ℕ → Bool → ChannelManager
unfolding drop_clean
maybe_cleanup world cm a after_join =
    let e = cm.entries a in
    let counted = record cm {
      entries = update cm.entries a (record e { pending_joins = e.pending_joins - 1 });
    } in
    if (elim (lookup cm.chans (cm.channels a).name_casefolded) [ none ↦ false | some b ↦ b == a ])
    then drop_clean world (if after_join then counted else cm) a
    else cm

-- Part: the channel to part from, which may still be loading.
unfoldable pub part_target : ChannelManager → Option String → Option ℕ
part_target cm none = none
part_target cm (some cf) = lookup cm.chans cf
