-- ===== src/ChannelManager/State.antt =====
-- The manager's tables, and the channels that they lead to. A channel and its entry are known by one
-- address, a number: an entry is made with its channel and never gets another. An entry's counter is
-- only taken back by the join that has raised it, so it is a natural number.
use oragono.Prelude.{
  ℕ, String, Bool, true, Option, none, some, List, if◌then◌else◌, ◌==◌, nat_eq, string_eq,
}
use oragono.Prelude.GoMap.{GoMap, insert, delete}
use oragono.Channel.State.{Channel}
use oragono.Channel.Storage.{RegisteredChannel}

-- utils.StringSet
abbrev pub StringSet : Type 0
StringSet = GoMap String Bool

-- channelManagerEntry, less the channel; a registered channel has no skeleton here.
pub record Entry : Type 0 where
  pub pending_joins : ℕ
  pub skeleton : String

pub record ChannelManager : Type 0 where
  pub chans : GoMap String ℕ
  pub chans_skeletons : StringSet
  pub registered_channels : StringSet
  pub registered_skeletons : StringSet
  pub purged_channels : StringSet
  pub entries : ℕ → Entry
  pub channels : ℕ → Channel
  pub loaded : ℕ → Bool
  pub next_address : ℕ

-- The casefolding of channel names and Skeleton (irc/strings.go); the database, by name; whether a
-- channel is being written; and whether the history of a registered channel is kept in memory only.
pub record World : Type 0 where
  pub casefold_channel : String → Option String
  pub skeleton_of : String → Option String
  pub load_channel : String → Option RegisteredChannel
  pub is_writing : ℕ → Bool
  pub is_ephemeral : ℕ → Bool

pub record Config : Type 0 where
  pub channel_len : ℕ
  pub op_only_creation : Bool
  pub registration_enabled : Bool
  pub default_modes : List ℕ
  pub defcon : ℕ

pub data ManagerError : Type 0 where
  no_such_channel channel_purged insufficient_privs confusable_identifier : ManagerError
  feature_disabled channel_already_registered channel_not_owned : ManagerError
  invalid_channel_name channel_name_in_use not_casefolded : ManagerError

-- A function updated at an address.
abbrev pub update {ℓ} : {A : Type ℓ} → (ℕ → A) → ℕ → A → ℕ → A
update f a x b = if a == b then x else f b

-- delete(set, key) unless there is no key.
abbrev pub delete_some : StringSet → Option String → StringSet
delete_some s none = s
delete_some s (some k) = delete s k

abbrev pub insert_some : StringSet → Option String → StringSet
insert_some s none = s
insert_some s (some k) = insert s k true
