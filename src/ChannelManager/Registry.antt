-- ===== src/ChannelManager/Registry.antt =====
-- The methods of ChannelManager that change what a name means: SetRegistered, SetUnregistered, Rename and the
-- purges. Each holds the manager's lock.
use oragono.Prelude.{
  ℕ, String, Bool, true, false, ◌||◌, Option, none, some, leb, if◌then◌else◌, ◌==◌, ◌!=◌, nat_eq,
  string_eq,
}
use oragono.Prelude.GoMap.{lookup, has, insert, delete}
use oragono.Channel.Storage.{rename_channel}
use oragono.Channel.Registration
use oragono.ChannelManager.State.{
  ChannelManager, World, Config, ManagerError, no_such_channel, feature_disabled,
  channel_already_registered, channel_not_owned, invalid_channel_name, channel_name_in_use,
  not_casefolded, update, delete_some, insert_some,
}
use oragono.ChannelManager.Operations.{get_folded, set_channel}

unfoldable pub register_entry :
    World → ChannelManager → String → String → ℕ → Option ℕ → ChannelManager × Option ManagerError
register_entry world cm cf account now none = (cm, some no_such_channel)
register_entry world cm cf account now (some a) =
    elim (Registration.set_registered (cm.channels a) account now) [
      | none ↦ (cm, some channel_already_registered)
      | some ch ↦ (
        record cm {
          channels = update cm.channels a ch;
          registered_channels = insert cm.registered_channels cf true;
          registered_skeletons =
              insert_some cm.registered_skeletons (world.skeleton_of (cm.channels a).name);
        },
        none,
      )
    ]

-- SetRegistered, without the write that follows a success.
unfoldable pub set_registered :
    World
    → Config
    → ChannelManager
    → Option String
    → String
    → ℕ
    → ChannelManager × Option ManagerError
unfolding register_entry
set_registered world cfg cm none account now =
    (cm, some (if leb cfg.defcon 4 then feature_disabled else not_casefolded))
set_registered world cfg cm (some cf) account now =
    if leb cfg.defcon 4
    then (cm, some feature_disabled)
    else register_entry world cm cf account now (lookup cm.chans cf)

unfoldable pub unregister_entry :
    World → ChannelManager → String → String → Option ℕ → ChannelManager
unregister_entry world cm cf account none = cm
unregister_entry world cm cf account (some a) = record cm {
  channels = update cm.channels a (Registration.set_unregistered (cm.channels a) account);
  registered_channels = delete cm.registered_channels cf;
  registered_skeletons =
      delete_some cm.registered_skeletons (world.skeleton_of (cm.channels a).name);
}

-- SetUnregistered, for a name that folds to `cf`, without the deletion from the database.
unfoldable pub set_unregistered :
    World → ChannelManager → String → String → ChannelManager × Option ManagerError
unfolding unregister_entry
set_unregistered world cm cf account = elim (world.load_channel cf) [
  | none ↦ (cm, some no_such_channel)
  | some info ↦
      if info.founder != account
      then (cm, some channel_not_owned)
      else (unregister_entry world cm cf account (lookup cm.chans cf), none)
]

-- The end of Rename: the entry `a` gets the new name.
unfoldable pub move_entry :
    World → ChannelManager → ℕ → String → String → String → String → ℕ → ChannelManager
move_entry world cm a cf new_name new_cf new_skeleton now =
    let ch = cm.channels a in
    let e = cm.entries a in
    let moved = insert (delete cm.chans cf) new_cf a in
    let renamed = update cm.channels a (rename_channel ch new_name new_cf now) in
    if ch.registered_founder != ""
    then record cm {
      chans = moved;
      registered_channels = insert (delete cm.registered_channels cf) new_cf true;
      registered_skeletons =
          insert (delete_some cm.registered_skeletons (world.skeleton_of ch.name)) new_skeleton
            true;
      channels = renamed;
    }
    else record cm {
      chans = insert moved cf a;
      chans_skeletons = insert (delete cm.chans_skeletons e.skeleton) new_skeleton true;
      entries = update cm.entries a (record e { skeleton = new_skeleton });
      channels = renamed;
    }

-- Rename, for names that fold; without what is written to the database.
unfoldable pub rename_folded :
    World
    → ChannelManager
    → String
    → String
    → String
    → String
    → ℕ
    → ChannelManager × Option ManagerError
unfolding move_entry
rename_folded world cm cf new_name new_cf new_skeleton now =
    if new_cf == cf
    then elim (get_folded cm (some cf)) [
      | none ↦ (cm, some no_such_channel)
      | some a ↦ (set_channel cm a (rename_channel (cm.channels a) new_name cf now), none)
    ]
    else if has cm.chans new_cf || has cm.registered_channels new_cf
    then (cm, some channel_name_in_use)
    else if has cm.chans_skeletons new_skeleton || has cm.registered_skeletons new_skeleton
    then (cm, some channel_name_in_use)
    else elim (get_folded cm (some cf)) [
      | none ↦ (cm, some no_such_channel)
      | some a ↦ (move_entry world cm a cf new_name new_cf new_skeleton now, none)
    ]

unfoldable pub rename_any :
    World
    → ChannelManager
    → Option String
    → String
    → Option String
    → Option String
    → ℕ
    → ChannelManager × Option ManagerError
unfolding rename_folded
rename_any world cm none new_name new_cf new_skeleton now = (cm, some no_such_channel)
rename_any world cm (some cf) new_name none new_skeleton now = (cm, some invalid_channel_name)
rename_any world cm (some cf) new_name (some new_cf) none now = (cm, some invalid_channel_name)
rename_any world cm (some cf) new_name (some new_cf) (some new_skeleton) now =
    rename_folded world cm cf new_name new_cf new_skeleton now

unfoldable pub rename :
    World → ChannelManager → String → String → ℕ → ChannelManager × Option ManagerError
unfolding rename_any
rename world cm name new_name now =
    rename_any world cm (world.casefold_channel name) new_name (world.casefold_channel new_name)
      (world.skeleton_of new_name) now

unfoldable pub purge : ChannelManager → Option String → ChannelManager × Option ManagerError
purge cm none = (cm, some invalid_channel_name)
purge cm (some cf) = (record cm { purged_channels = insert cm.purged_channels cf true }, none)

unfoldable pub is_purged : ChannelManager → Option String → Bool
is_purged cm none = false
is_purged cm (some cf) = has cm.purged_channels cf

unfoldable pub unpurge : ChannelManager → Option String → ChannelManager × Option ManagerError
unpurge cm none = (cm, some no_such_channel)
unpurge cm (some cf) = (
  record cm { purged_channels = delete cm.purged_channels cf },
  if has cm.purged_channels cf then none else some no_such_channel,
)
