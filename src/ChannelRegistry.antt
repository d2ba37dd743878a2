-- ===== src/ChannelRegistry.antt =====
-- ChannelRegistry of irc/channelreg.go: how registered channels and purges are kept in the database. The
-- database, buntdb, is a function from each format of key and the name in it to the text stored there; the
-- text of an account's channels, which commas separate, is the list of its parts. The conversions of strconv,
-- of encoding/json and of runes are a parameter. The settings of a channel are left out.
pub mod Writes
pub mod RoundTrip
pub mod Founders
use oragono.Prelude.{
  ℕ, zero, suc, ◌+◌, ◌-◌, ◌*◌, ◌/◌, ◌%◌, ◌^◌, ◌≤◌, ◌<◌, min, max, bit_and, bit_or, String, ◌≡◌,
  refl, sym, ap, subst, ◌∙◌, fun_ext, ◌≢◌, ◌↔◌, ◌⊎◌, inl, inr, Bool, true, false, not, ◌&&◌, ◌||◌,
  Option, none, some, List, [], ◌∷◌, ◌++◌, map, reverse, arith, ltb, leb, nat_beq, if◌then◌else◌,
  ltb→lt, lt→ltb, leb→le, nat_beq_iff, nat_beq_refl, Bool-cases, Option-cases, length, get_elem?,
  set, length-append, length-set, get_elem?-set_self, get_elem?-set_ne, get_or, take, drop,
  replicate, take-append-drop, length-take, length-drop, length-replicate, length-map, Eq, ◌==◌,
  ◌!=◌, nat_eq, string_eq, beq_refl, beq_ne, beq→eq, beq→ne,
}
use oragono.Prelude.GoMap.{
  GoMap, lookup, has, insert, delete, distinct, distinct-insert, distinct-delete, lookup-insert,
  lookup-delete, length-insert, length-delete-le, lookup-insert_self,
}
use oragono.Prelude.Int.{ℤ}
use oragono.Modes.Letters.{Mode}
use oragono.Masks.{MaskInfo}
use oragono.Channel.State.{include_initial, include_topic, include_modes, include_lists}
use oragono.Channel.Storage.{RegisteredChannel, includes}

pub record ChannelPurgeRecord : Type 0 where
  pub oper : String
  pub purged_at : ℕ
  pub reason : String

-- A zero time has no text; the others are in nanoseconds.
pub record Codecs : Type 0 where
  pub format_int : ℕ → String
  pub parse_int : String → Option ℕ
  pub itoa : ℤ → String
  pub atoi : String → ℤ
  pub text_of_runes : List Mode → String
  pub runes_of_text : String → List Mode
  pub marshal_masks : GoMap String MaskInfo → String
  pub unmarshal_masks : String → GoMap String MaskInfo
  pub marshal_umodes : GoMap String Mode → String
  pub unmarshal_umodes : String → GoMap String Mode
  pub marshal_purge : ChannelPurgeRecord → String
  pub unmarshal_purge : String → Option ChannelPurgeRecord

-- channelKeyStrings
pub data ChannelKey : Type 0 where
  key_exists key_name key_reg_time key_founder : ChannelKey
  key_topic key_topic_set_by key_topic_set_time : ChannelKey
  key_banlist key_exceptlist key_invitelist : ChannelKey
  key_password key_modes key_account_to_umode key_user_limit key_settings : ChannelKey

abbrev pub key_number : ChannelKey → ℕ
key_number key_exists = 0
key_number key_name = 1
key_number key_reg_time = 2
key_number key_founder = 3
key_number key_topic = 4
key_number key_topic_set_by = 5
key_number key_topic_set_time = 6
key_number key_banlist = 7
key_number key_exceptlist = 8
key_number key_invitelist = 9
key_number key_password = 10
key_number key_modes = 11
key_number key_account_to_umode = 12
key_number key_user_limit = 13
key_number key_settings = 14

abbrev pub channel_key_strings : List ChannelKey
channel_key_strings =
    key_exists ∷ key_name ∷ key_reg_time ∷ key_founder ∷ key_topic ∷ key_topic_set_by
    ∷ key_topic_set_time ∷ key_banlist ∷ key_exceptlist ∷ key_invitelist ∷ key_password ∷ key_modes
    ∷ key_account_to_umode ∷ key_user_limit ∷ key_settings ∷ []

pub record Database : Type 0 where
  pub channel_keys : ChannelKey → String → Option String
  pub account_channels : String → Option (List String)
  pub purged : String → Option String

pub data RegistryError : Type 0 where
  feature_disabled no_such_channel : RegistryError

pub data Loaded {ℓ} (A : Type ℓ) : Type ℓ where
  ok : A → Loaded A
  failed : RegistryError → Loaded A

-- tx.Get, with the error dropped
abbrev pub get_text : Database → ChannelKey → String → String
get_text db k name = elim (db.channel_keys k name) [ none ↦ "" | some v ↦ v ]

-- tx.Set
unfoldable pub put_text : Database → ChannelKey → String → String → Database
put_text db k name v = record db {
  channel_keys = λ j other.
      if key_number k == key_number j && name == other then some v else db.channel_keys j other;
}

-- tx.Delete
unfoldable pub delete_text : Database → ChannelKey → String → Database
delete_text db k name = record db {
  channel_keys = λ j other.
      if key_number k == key_number j && name == other then none else db.channel_keys j other;
}

-- for _, keyFmt := range channelKeyStrings
unfoldable pub delete_texts : Database → List ChannelKey → String → Database
unfolding delete_text
delete_texts db [] name = db
delete_texts db (k ∷ ks) name = delete_texts (delete_text db k name) ks name

unfoldable pub put_channels : Database → String → List String → Database
put_channels db account names = record db {
  account_channels = λ other. if account == other then some names else db.account_channels other;
}

-- unmarshalRegisteredChannels of what tx.Get returns, for an account
abbrev pub channels_of : Database → String → List String
channels_of db account = elim (db.account_channels account) [ none ↦ [] | some names ↦ names ]

-- The names but this one.
unfoldable pub without : String → List String → List String
without name [] = []
without name (x ∷ xs) = let rest = without name xs in if x != name then x ∷ rest else rest

-- Whether `tx.Get` of the founder gives this one.
abbrev pub founder_is : Option String → String → Bool
founder_is none account = false
founder_is (some founder) account = founder == account

unfoldable pub update_account_to_channel_mapping : Database → RegisteredChannel → Database
unfolding put_channels without
update_account_to_channel_mapping db info =
    let name = info.name_casefolded in
    let stored = db.channel_keys key_founder name in
    let added =
      if founder_is stored info.founder
      then db
      else put_channels db info.founder (channels_of db info.founder ++ (name ∷ [])) in
    elim stored [
      | none ↦ added
      | some founder ↦
          if founder == info.founder
          then added
          else put_channels added founder (without name (channels_of added founder))
    ]

unfoldable pub is_registered : Database → String → Bool
is_registered db name = elim (db.channel_keys key_exists name) [ none ↦ false | some v ↦ true ]

module _ (codecs : Codecs) where
  open codecs use {format_int, parse_int, itoa, atoi, text_of_runes, runes_of_text}

  -- strconv.ParseInt with the error dropped
  abbrev pub int_of : String → ℕ
  int_of text = elim (parse_int text) [ none ↦ 0 | some n ↦ n ]

  unfoldable pub put_initial : Database → RegisteredChannel → Database
  unfolding put_text
  put_initial db info =
      let name = info.name_casefolded in
      let db = put_text db key_exists name "1" in
      let db = put_text db key_name name info.name in
      let db = put_text db key_reg_time name (format_int info.registered_at) in
      put_text db key_founder name info.founder

  unfoldable pub put_topic : Database → RegisteredChannel → Database
  unfolding put_text
  put_topic db info =
      let name = info.name_casefolded in
      let db = put_text db key_topic name info.topic in
      let time = if info.topic_set_time == 0 then "" else format_int info.topic_set_time in
      let db = put_text db key_topic_set_time name time in
      put_text db key_topic_set_by name info.topic_set_by

  unfoldable pub put_modes : Database → RegisteredChannel → Database
  unfolding put_text
  put_modes db info =
      let name = info.name_casefolded in
      let db = put_text db key_password name info.key in
      let db = put_text db key_modes name (text_of_runes info.modes) in
      put_text db key_user_limit name (itoa info.user_limit)

  unfoldable pub put_lists : Database → RegisteredChannel → Database
  unfolding put_text
  put_lists db info =
      let name = info.name_casefolded in
      let db = put_text db key_banlist name (codecs.marshal_masks info.bans) in
      let db = put_text db key_exceptlist name (codecs.marshal_masks info.excepts) in
      let db = put_text db key_invitelist name (codecs.marshal_masks info.invites) in
      put_text db key_account_to_umode name (codecs.marshal_umodes info.account_to_umode)

  unfoldable pub save_channel : Database → RegisteredChannel → ℕ → Database
  unfolding update_account_to_channel_mapping put_initial put_topic put_modes put_lists
  save_channel db info flags =
      let db = update_account_to_channel_mapping db info in
      let db = if includes flags include_initial then put_initial db info else db in
      let db = if includes flags include_topic then put_topic db info else db in
      let db = if includes flags include_modes then put_modes db info else db in
      if includes flags include_lists then put_lists db info else db

  -- StoreChannel; `enabled` is ChannelRegistrationEnabled.
  unfoldable pub store_channel : Bool → Database → RegisteredChannel → ℕ → Database
  unfolding save_channel
  store_channel enabled db info flags =
      if not enabled || info.founder == "" then db else save_channel db info flags

  unfoldable pub read_channel : Database → String → RegisteredChannel
  read_channel db name = record {
    name = get_text db key_name name;
    name_casefolded = name;
    registered_at = int_of (get_text db key_reg_time name);
    founder = get_text db key_founder name;
    topic = get_text db key_topic name;
    topic_set_by = get_text db key_topic_set_by name;
    topic_set_time = int_of (get_text db key_topic_set_time name);
    modes = runes_of_text (get_text db key_modes name);
    key = get_text db key_password name;
    user_limit = atoi (get_text db key_user_limit name);
    account_to_umode = codecs.unmarshal_umodes (get_text db key_account_to_umode name);
    bans = codecs.unmarshal_masks (get_text db key_banlist name);
    excepts = codecs.unmarshal_masks (get_text db key_exceptlist name);
    invites = codecs.unmarshal_masks (get_text db key_invitelist name);
  }

  -- LoadChannel
  unfoldable pub load_channel : Bool → Database → String → Loaded RegisteredChannel
  unfolding read_channel is_registered
  load_channel enabled db name =
      if not enabled
      then failed feature_disabled
      else if is_registered db name
      then ok (read_channel db name)
      else failed no_such_channel

  -- deleteChannel
  unfoldable pub delete_channel : Database → String → RegisteredChannel → Database
  unfolding delete_texts put_channels without is_registered
  delete_channel db name info =
      let cleared = delete_texts db channel_key_strings name in
      if is_registered db name
        && get_text db key_founder name == info.founder
        && int_of (get_text db key_reg_time name) == info.registered_at
      then elim (cleared.account_channels info.founder) [
        | none ↦ cleared
        | some names ↦ put_channels cleared info.founder (without name names)
      ]
      else db

  -- Delete
  unfoldable pub delete_registration : Bool → Database → RegisteredChannel → Database
  unfolding delete_channel
  delete_registration enabled db info =
      if enabled then delete_channel db info.name_casefolded info else db

  unfoldable pub purge_channel : Database → String → ChannelPurgeRecord → Database
  purge_channel db name info = record db {
    purged = λ other. if name == other then some (codecs.marshal_purge info) else db.purged other;
  }

  abbrev pub purge_text : Database → String → String
  purge_text db name = elim (db.purged name) [ none ↦ "" | some text ↦ text ]

  unfoldable pub read_purge : String → Loaded ChannelPurgeRecord
  read_purge raw =
      if raw == ""
      then failed no_such_channel
      else elim (codecs.unmarshal_purge raw) [ none ↦ failed no_such_channel | some info ↦ ok info ]

  unfoldable pub load_purge_record : Database → String → Loaded ChannelPurgeRecord
  unfolding read_purge
  load_purge_record db name = read_purge (purge_text db name)

unfoldable pub unpurge_channel : Database → String → Database
unpurge_channel db name = record db {
  purged = λ other. if name == other then none else db.purged other;
}
