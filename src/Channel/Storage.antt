-- ===== src/Channel/Storage.antt =====
-- How a channel is made, and how it is written to the database and read back: NewChannel, applyRegInfo,
-- EnsureLoaded, ExportRegistration, performWrite, IsClean and Rename of irc/channel.go and irc/getters.go,
-- and RegisteredChannel of irc/channelreg.go. The sizes of history buffers and the settings are left out.
pub mod Restored
use oragono.Prelude.{
  ℕ, zero, suc, ◌+◌, ◌-◌, ◌*◌, ◌/◌, ◌%◌, ◌^◌, ◌≤◌, ◌<◌, min, max, bit_and, bit_or, String, ◌≡◌,
  refl, sym, ap, subst, ◌∙◌, fun_ext, ◌≢◌, ◌↔◌, ◌⊎◌, inl, inr, Bool, true, false, not, ◌&&◌, ◌||◌,
  Option, none, some, List, [], ◌∷◌, ◌++◌, map, reverse, arith, ltb, leb, nat_beq, if◌then◌else◌,
  ltb→lt, lt→ltb, leb→le, nat_beq_iff, nat_beq_refl, Bool-cases, Option-cases, length, get_elem?,
  set, length-append, length-set, get_elem?-set_self, get_elem?-set_ne, get_or, take, drop,
  replicate, take-append-drop, length-take, length-drop, length-replicate, length-map, Eq, ◌==◌,
  ◌!=◌, nat_eq, string_eq, beq_refl, beq_ne, beq→eq, beq→ne,
}
use oragono.Prelude.GoMap.{
  GoMap, lookup, has, insert, delete, lookup-insert, lookup-delete, length-insert, length-delete-le,
  lookup-insert_self,
}
use oragono.Prelude.Int.{ℤ, pos}
use oragono.Modes.Letters.{Mode}
use oragono.Modes.ModeSet.{ModeSet, new_mode_set, set_mode, all_modes}
use oragono.Masks.{RegexpPackage, MaskInfo, new_user_mask_set, set_masks}
use oragono.Channel.State.{Channel, include_topic, include_modes, include_lists}

pub record RegisteredChannel : Type 0 where
  pub name : String
  pub name_casefolded : String
  pub registered_at : ℕ
  pub founder : String
  pub topic : String
  pub topic_set_by : String
  pub topic_set_time : ℕ
  pub modes : List Mode
  pub key : String
  pub user_limit : ℤ
  pub account_to_umode : GoMap String Mode
  pub bans : GoMap String MaskInfo
  pub excepts : GoMap String MaskInfo
  pub invites : GoMap String MaskInfo

-- for _, mode := range modes { flags.SetMode(mode, true) }
unfoldable pub set_modes : ModeSet → List Mode → ModeSet
set_modes s [] = s
set_modes s (m ∷ ms) = set_modes (set_mode s m true).0 ms

-- for account, mode := range from { to[account] = mode }
unfoldable pub copy_into {ℓ} : {V : Type ℓ} → GoMap String V → GoMap String V → GoMap String V
copy_into to [] = to
copy_into to ((k, v) ∷ from) = copy_into (insert to k v) from

-- NewChannel; a registered channel has its modes from the database.
unfoldable pub new_channel : List Mode → String → String → ℕ → Bool → Channel
unfolding set_modes
new_channel default_modes name cf now registered = record {
  flags = if registered then new_mode_set else set_modes new_mode_set default_modes;
  bans = new_user_mask_set;
  excepts = new_user_mask_set;
  invites = new_user_mask_set;
  key = "";
  members = [];
  members_cache = [];
  name = name;
  name_casefolded = cf;
  created_time = now;
  registered_founder = "";
  registered_time = 0;
  transfer_pending_to = "";
  topic = "";
  topic_set_by = "";
  topic_set_time = 0;
  user_limit = pos 0;
  account_to_umode = [];
  dirty_bits = 0;
}

-- IncludeAllAttrs
abbrev pub include_all_attrs : ℕ
include_all_attrs = 2 ^ 64 - 1

-- A flag of the attributes to write.
abbrev pub includes : ℕ → ℕ → Bool
includes flags bit = not (bit_and flags bit == 0)

unfoldable pub export_registration : Channel → ℕ → RegisteredChannel
unfolding copy_into
export_registration ch flags = record {
  name = ch.name;
  name_casefolded = ch.name_casefolded;
  registered_at = ch.registered_time;
  founder = ch.registered_founder;
  topic = if includes flags include_topic then ch.topic else "";
  topic_set_by = if includes flags include_topic then ch.topic_set_by else "";
  topic_set_time = if includes flags include_topic then ch.topic_set_time else 0;
  modes = if includes flags include_modes then all_modes ch.flags else [];
  key = if includes flags include_modes then ch.key else "";
  user_limit = if includes flags include_modes then ch.user_limit else pos 0;
  account_to_umode = if includes flags include_lists then copy_into [] ch.account_to_umode else [];
  bans = if includes flags include_lists then ch.bans.masks else [];
  excepts = if includes flags include_lists then ch.excepts.masks else [];
  invites = if includes flags include_lists then ch.invites.masks else [];
}

-- performWrite: the channel with its marks cleared, and what is to be stored with which attributes.
-- `stored` says whether the database takes it; if not, the marks come back.
unfoldable pub perform_write : Channel → ℕ → Bool → Channel × Option (RegisteredChannel × ℕ)
unfolding export_registration
perform_write ch additional stored =
    let flags = bit_or ch.dirty_bits additional in
    let clean = record ch { dirty_bits = 0 } in
    if ch.registered_founder == "" || flags == 0 then (clean, none) else (
      if stored then clean else record clean { dirty_bits = bit_or 0 flags },
      some (export_registration clean flags, flags),
    )

unfoldable pub rename_channel : Channel → String → String → ℕ → Channel
rename_channel ch name cf now = record ch {
  name = name;
  name_casefolded = cf;
  registered_time =
      if ch.name_casefolded != cf && ch.registered_founder != "" then now else ch.registered_time;
}

-- IsClean; `writing` says that a write is in progress, and `ephemeral` that the history of the channel,
-- as a registered one, is kept in memory only.
unfoldable pub is_clean : Channel → Bool → Bool → Bool
is_clean ch writing ephemeral =
    not writing
    && length ch.members == 0
    && (ch.registered_founder == "" || (ch.dirty_bits == 0 && not ephemeral))

module _ (re : RegexpPackage) where
  unfoldable pub apply_reg_info : Channel → RegisteredChannel → Channel
  unfolding set_modes copy_into set_masks
  apply_reg_info ch info = record ch {
    registered_founder = info.founder;
    registered_time = info.registered_at;
    topic = info.topic;
    topic_set_by = info.topic_set_by;
    topic_set_time = info.topic_set_time;
    name = info.name;
    created_time = info.registered_at;
    key = info.key;
    user_limit = info.user_limit;
    flags = set_modes ch.flags info.modes;
    account_to_umode = copy_into ch.account_to_umode info.account_to_umode;
    bans = set_masks re ch.bans info.bans;
    invites = set_masks re ch.invites info.invites;
    excepts = set_masks re ch.excepts info.excepts;
  }

  -- EnsureLoaded, the first time; `info` is what the database has. The load is done also if it has nothing.
  unfoldable pub load : Channel → Option RegisteredChannel → Channel
  unfolding apply_reg_info
  load ch none = ch
  load ch (some info) = apply_reg_info ch info
