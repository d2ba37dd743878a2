-- ===== src/ChannelRegistry/Writes.antt =====
-- The keys that each step of saveChannel writes.
use oragono.Prelude.{
  ℕ, String, ◌≡◌, refl, ◌∙◌, inl, inr, Bool, true, false, ◌||◌, Option, List, [], ◌∷◌, arith,
  if◌then◌else◌, Option-cases, ◌==◌, nat_eq, string_eq,
}
use oragono.Channel.State.{include_initial, include_topic, include_modes, include_lists}
use oragono.Channel.Storage.{RegisteredChannel, includes}
use oragono.ChannelRegistry.{
  Codecs, Database, ChannelKey, key_exists, key_founder, key_reg_time, key_name, key_topic,
  key_topic_set_by, key_topic_set_time, key_number, key_banlist, key_exceptlist, key_invitelist,
  key_password, key_modes, key_account_to_umode, key_user_limit, put_text, put_channels,
  update_account_to_channel_mapping, put_initial, put_topic, put_modes, put_lists, save_channel,
}

pub mapping-keys :
    (db : Database) (info : RegisteredChannel) (k : ChannelKey) (name : String)
    → (update_account_to_channel_mapping db info).channel_keys k name ≡ db.channel_keys k name
unfolding update_account_to_channel_mapping put_channels
mapping-keys db info k name =
    elim (Option-cases (db.channel_keys key_founder info.name_casefolded)) [
      | inl e ↦ ground (arith, e)
      | inr (founder, e) ↦ ground (arith, e)
    ]

-- Whether a key is one of these.
abbrev pub among : ChannelKey → List ChannelKey → Bool
among k [] = false
among k (j ∷ js) = key_number j == key_number k || among k js

abbrev pub initial_keys : List ChannelKey
initial_keys = key_exists ∷ key_name ∷ key_reg_time ∷ key_founder ∷ []

abbrev pub topic_keys : List ChannelKey
topic_keys = key_topic ∷ key_topic_set_time ∷ key_topic_set_by ∷ []

abbrev pub mode_keys : List ChannelKey
mode_keys = key_password ∷ key_modes ∷ key_user_limit ∷ []

abbrev pub list_keys : List ChannelKey
list_keys = key_banlist ∷ key_exceptlist ∷ key_invitelist ∷ key_account_to_umode ∷ []

module _ (codecs : Codecs) where
  put_initial-other :
      (db : Database) (info : RegisteredChannel) (b : Bool) (k : ChannelKey) (name : String)
      → among k initial_keys ≡ false
      → (if b then put_initial codecs db info else db).channel_keys k name ≡ db.channel_keys k name
  unfolding put_initial put_text
  put_initial-other db info true k name other = ground (arith, other)
  put_initial-other db info false k name other = refl

  put_topic-other :
      (db : Database) (info : RegisteredChannel) (b : Bool) (k : ChannelKey) (name : String)
      → among k topic_keys ≡ false
      → (if b then put_topic codecs db info else db).channel_keys k name ≡ db.channel_keys k name
  unfolding put_topic put_text
  put_topic-other db info true k name other = ground (arith, other)
  put_topic-other db info false k name other = refl

  put_modes-other :
      (db : Database) (info : RegisteredChannel) (b : Bool) (k : ChannelKey) (name : String)
      → among k mode_keys ≡ false
      → (if b then put_modes codecs db info else db).channel_keys k name ≡ db.channel_keys k name
  unfolding put_modes put_text
  put_modes-other db info true k name other = ground (arith, other)
  put_modes-other db info false k name other = refl

  put_lists-other :
      (db : Database) (info : RegisteredChannel) (b : Bool) (k : ChannelKey) (name : String)
      → among k list_keys ≡ false
      → (if b then put_lists codecs db info else db).channel_keys k name ≡ db.channel_keys k name
  unfolding put_lists put_text
  put_lists-other db info true k name other = ground (arith, other)
  put_lists-other db info false k name other = refl

  -- The steps of saveChannel.
  abbrev after_initial : Database → RegisteredChannel → ℕ → Database
  after_initial db info flags =
      let mapped = update_account_to_channel_mapping db info in
      if includes flags include_initial then put_initial codecs mapped info else mapped

  abbrev after_topic : Database → RegisteredChannel → ℕ → Database
  after_topic db info flags =
      let before = after_initial db info flags in
      if includes flags include_topic then put_topic codecs before info else before

  abbrev after_modes : Database → RegisteredChannel → ℕ → Database
  after_modes db info flags =
      let before = after_topic db info flags in
      if includes flags include_modes then put_modes codecs before info else before

  chosen :
      (d before : Database) (b : Bool) (k : ChannelKey) (name : String) (o old : Option String)
      → d.channel_keys k name ≡ o
      → before.channel_keys k name ≡ old
      → (if b then d else before).channel_keys k name ≡ (if b then o else old)
  chosen d before true k name o old p q = p
  chosen d before false k name o old p q = q

  module _ (db : Database) (info : RegisteredChannel) (flags : ℕ) (k : ChannelKey)
      (name : String) where
    -- The key before each step, if the steps before do not write it.
    before_topic :
        among k initial_keys ≡ false
        → (after_initial db info flags).channel_keys k name ≡ db.channel_keys k name
    before_topic i =
        put_initial-other (update_account_to_channel_mapping db info) info
          (includes flags include_initial) k name i
        ∙ mapping-keys db info k name

    before_modes :
        among k initial_keys ≡ false
        → among k topic_keys ≡ false
        → (after_topic db info flags).channel_keys k name ≡ db.channel_keys k name
    before_modes i t =
        put_topic-other (after_initial db info flags) info (includes flags include_topic) k name t
        ∙ before_topic i

    before_lists :
        among k initial_keys ≡ false
        → among k topic_keys ≡ false
        → among k mode_keys ≡ false
        → (after_modes db info flags).channel_keys k name ≡ db.channel_keys k name
    before_lists i t m =
        put_modes-other (after_topic db info flags) info (includes flags include_modes) k name m
        ∙ before_modes i t

    -- The key after saveChannel, if only the given step writes it, and what that writes.
    pub saved_initial :
        (o : Option String)
        → ((d : Database) → (put_initial codecs d info).channel_keys k name ≡ o)
        → among k topic_keys ≡ false
        → among k mode_keys ≡ false
        → among k list_keys ≡ false
        → (save_channel codecs db info flags).channel_keys k name
          ≡ (if includes flags include_initial then o else db.channel_keys k name)
    unfolding save_channel
    saved_initial o own t m l =
        let mapped = update_account_to_channel_mapping db info in
        put_lists-other (after_modes db info flags) info (includes flags include_lists) k name l
        ∙ put_modes-other (after_topic db info flags) info (includes flags include_modes) k name m
        ∙ put_topic-other (after_initial db info flags) info (includes flags include_topic) k name t
        ∙ chosen (put_initial codecs mapped info) mapped (includes flags include_initial) k name o
            (db.channel_keys k name) (own mapped) (mapping-keys db info k name)

    pub saved_topic :
        (o : Option String)
        → ((d : Database) → (put_topic codecs d info).channel_keys k name ≡ o)
        → among k initial_keys ≡ false
        → among k mode_keys ≡ false
        → among k list_keys ≡ false
        → (save_channel codecs db info flags).channel_keys k name
          ≡ (if includes flags include_topic then o else db.channel_keys k name)
    unfolding save_channel
    saved_topic o own i m l =
        let before = after_initial db info flags in
        put_lists-other (after_modes db info flags) info (includes flags include_lists) k name l
        ∙ put_modes-other (after_topic db info flags) info (includes flags include_modes) k name m
        ∙ chosen (put_topic codecs before info) before (includes flags include_topic) k name o
            (db.channel_keys k name) (own before) (before_topic i)

    pub saved_modes :
        (o : Option String)
        → ((d : Database) → (put_modes codecs d info).channel_keys k name ≡ o)
        → among k initial_keys ≡ false
        → among k topic_keys ≡ false
        → among k list_keys ≡ false
        → (save_channel codecs db info flags).channel_keys k name
          ≡ (if includes flags include_modes then o else db.channel_keys k name)
    unfolding save_channel
    saved_modes o own i t l =
        let before = after_topic db info flags in
        put_lists-other (after_modes db info flags) info (includes flags include_lists) k name l
        ∙ chosen (put_modes codecs before info) before (includes flags include_modes) k name o
            (db.channel_keys k name) (own before) (before_modes i t)

    pub saved_lists :
        (o : Option String)
        → ((d : Database) → (put_lists codecs d info).channel_keys k name ≡ o)
        → among k initial_keys ≡ false
        → among k topic_keys ≡ false
        → among k mode_keys ≡ false
        → (save_channel codecs db info flags).channel_keys k name
          ≡ (if includes flags include_lists then o else db.channel_keys k name)
    unfolding save_channel
    saved_lists o own i t m =
        let before = after_modes db info flags in
        chosen (put_lists codecs before info) before (includes flags include_lists) k name o
          (db.channel_keys k name) (own before) (before_lists i t m)

  put_initial-elsewhere :
      (db : Database) (info : RegisteredChannel) (b : Bool) (k : ChannelKey) (name : String)
      → (info.name_casefolded == name) ≡ false
      → (if b then put_initial codecs db info else db).channel_keys k name ≡ db.channel_keys k name
  unfolding put_initial put_text
  put_initial-elsewhere db info true k name other = ground (arith, other)
  put_initial-elsewhere db info false k name other = refl

  put_topic-elsewhere :
      (db : Database) (info : RegisteredChannel) (b : Bool) (k : ChannelKey) (name : String)
      → (info.name_casefolded == name) ≡ false
      → (if b then put_topic codecs db info else db).channel_keys k name ≡ db.channel_keys k name
  unfolding put_topic put_text
  put_topic-elsewhere db info true k name other = ground (arith, other)
  put_topic-elsewhere db info false k name other = refl

  put_modes-elsewhere :
      (db : Database) (info : RegisteredChannel) (b : Bool) (k : ChannelKey) (name : String)
      → (info.name_casefolded == name) ≡ false
      → (if b then put_modes codecs db info else db).channel_keys k name ≡ db.channel_keys k name
  unfolding put_modes put_text
  put_modes-elsewhere db info true k name other = ground (arith, other)
  put_modes-elsewhere db info false k name other = refl

  put_lists-elsewhere :
      (db : Database) (info : RegisteredChannel) (b : Bool) (k : ChannelKey) (name : String)
      → (info.name_casefolded == name) ≡ false
      → (if b then put_lists codecs db info else db).channel_keys k name ≡ db.channel_keys k name
  unfolding put_lists put_text
  put_lists-elsewhere db info true k name other = ground (arith, other)
  put_lists-elsewhere db info false k name other = refl

  pub saved_elsewhere :
      (db : Database) (info : RegisteredChannel) (flags : ℕ) (k : ChannelKey) (name : String)
      → (info.name_casefolded == name) ≡ false
      → (save_channel codecs db info flags).channel_keys k name ≡ db.channel_keys k name
  unfolding save_channel
  saved_elsewhere db info flags k name e =
      let mapped = update_account_to_channel_mapping db info in
      put_lists-elsewhere (after_modes db info flags) info (includes flags include_lists) k name e
      ∙ put_modes-elsewhere (after_topic db info flags) info (includes flags include_modes) k name e
      ∙ put_topic-elsewhere (after_initial db info flags) info (includes flags include_topic) k name
          e
      ∙ put_initial-elsewhere mapped info (includes flags include_initial) k name e
      ∙ mapping-keys db info k name
