-- ===== src/ChannelRegistry/RoundTrip.antt =====
-- What is stored of a channel is read back, attribute by attribute.
use oragono.Prelude.{
  ℕ, String, ◌≡◌, refl, ap, ◌≢◌, inl, inr, true, ◌&&◌, ◌||◌, none, some, arith, if◌then◌else◌,
  Option-cases, ◌==◌, nat_eq, string_eq, beq_refl,
}
use oragono.Prelude.GoMap.{lookup}
use oragono.Channel.State.{include_initial, include_topic, include_modes, include_lists}
use oragono.Channel.Storage.{RegisteredChannel, includes}
use oragono.ChannelRegistry.{
  read_purge, Codecs, Database, ok, failed, no_such_channel, ChannelPurgeRecord, key_exists,
  key_founder, key_reg_time, key_name, key_topic, key_topic_set_by, key_topic_set_time, key_banlist,
  key_exceptlist, key_invitelist, key_password, key_modes, key_account_to_umode, key_user_limit,
  channel_key_strings, put_text, delete_text, delete_texts, put_channels, is_registered,
  put_initial, put_topic, put_modes, put_lists, save_channel, read_channel, load_channel,
  delete_channel, delete_registration, purge_channel, load_purge_record, unpurge_channel,
}
use oragono.ChannelRegistry.Writes.{saved_initial, saved_topic, saved_modes, saved_lists}

-- What is used of the conversions, for one channel: each reads what it has written of it, a map key by key,
-- and the empty text is no number.
pub record ReadsBack (codecs : Codecs) (info : RegisteredChannel) : Type 0 where
  pub reg_time : codecs.parse_int (codecs.format_int info.registered_at) ≡ some info.registered_at
  pub topic_time :
      codecs.parse_int (codecs.format_int info.topic_set_time) ≡ some info.topic_set_time
  pub no_int : codecs.parse_int "" ≡ none
  pub limits : codecs.atoi (codecs.itoa info.user_limit) ≡ info.user_limit
  pub runes : codecs.runes_of_text (codecs.text_of_runes info.modes) ≡ info.modes
  pub bans :
      (k : String)
      → lookup (codecs.unmarshal_masks (codecs.marshal_masks info.bans)) k ≡ lookup info.bans k
  pub excepts :
      (k : String)
      → lookup (codecs.unmarshal_masks (codecs.marshal_masks info.excepts)) k
        ≡ lookup info.excepts k
  pub invites :
      (k : String)
      → lookup (codecs.unmarshal_masks (codecs.marshal_masks info.invites)) k
        ≡ lookup info.invites k
  pub umodes :
      (k : String)
      → lookup (codecs.unmarshal_umodes (codecs.marshal_umodes info.account_to_umode)) k
        ≡ lookup info.account_to_umode k

-- What saveChannel with these flags leaves of an attribute.
abbrev pub chosen_by {ℓ} : {A : Type ℓ} → ℕ → ℕ → A → A → A
chosen_by flags bit new old = if includes flags bit then new else old

module _ (codecs : Codecs) where
  registered_after :
      (db : Database) (info : RegisteredChannel) (flags : ℕ)
      → (includes flags include_initial || is_registered db info.name_casefolded) ≡ true
      → is_registered (save_channel codecs db info flags) info.name_casefolded ≡ true
  unfolding is_registered put_initial put_text
  registered_after db info flags h =
      let name = info.name_casefolded in
      ground (
        arith,
        h,
        saved_initial codecs db info flags key_exists name (some "1")
            (λ d. ground (arith, beq_refl name)) refl refl refl,
      )

  module _ (db : Database) (info : RegisteredChannel) (flags : ℕ)
      (faithful : ReadsBack codecs info) where
    read_initial :
        let name = info.name_casefolded in
        let old = read_channel codecs db name in
        let new = read_channel codecs (save_channel codecs db info flags) name in
        (new.name ≡ chosen_by flags include_initial info.name old.name)
        × (new.registered_at ≡ chosen_by flags include_initial info.registered_at old.registered_at)
        × (new.founder ≡ chosen_by flags include_initial info.founder old.founder)
    unfolding read_channel put_initial put_text
    read_initial =
        let name = info.name_casefolded in
        let saved = saved_initial codecs db info flags in
        (
          ground (
            arith,
            saved key_name name (some info.name) (λ d. ground (arith, beq_refl name)) refl refl
                refl,
          ),
          ground (
            arith,
            faithful.reg_time,
            saved key_reg_time name (some (codecs.format_int info.registered_at))
                (λ d. ground (arith, beq_refl name)) refl refl refl,
          ),
          ground (
            arith,
            saved key_founder name (some info.founder) (λ d. ground (arith, beq_refl name)) refl
                refl refl,
          ),
        )

    read_topic :
        let name = info.name_casefolded in
        let old = read_channel codecs db name in
        let new = read_channel codecs (save_channel codecs db info flags) name in
        (new.topic ≡ chosen_by flags include_topic info.topic old.topic)
        × (new.topic_set_by ≡ chosen_by flags include_topic info.topic_set_by old.topic_set_by)
        × (new.topic_set_time
            ≡ chosen_by flags include_topic info.topic_set_time old.topic_set_time)
    unfolding read_channel put_topic put_text
    read_topic =
        let name = info.name_casefolded in
        let saved = saved_topic codecs db info flags in
        (
          ground (
            arith,
            saved key_topic name (some (info.topic)) (λ d. ground (arith, beq_refl name)) refl refl
                refl,
          ),
          ground (
            arith,
            saved key_topic_set_by name (some (info.topic_set_by))
                (λ d. ground (arith, beq_refl name)) refl refl refl,
          ),
          ground (
            arith,
            faithful.topic_time,
            faithful.no_int,
            saved key_topic_set_time name
                (some
                  (if info.topic_set_time == 0 then "" else codecs.format_int info.topic_set_time))
                (λ d. ground (arith, beq_refl name)) refl refl refl,
          ),
        )

    read_modes :
        let name = info.name_casefolded in
        let old = read_channel codecs db name in
        let new = read_channel codecs (save_channel codecs db info flags) name in
        (new.modes ≡ chosen_by flags include_modes info.modes old.modes)
        × (new.key ≡ chosen_by flags include_modes info.key old.key)
        × (new.user_limit ≡ chosen_by flags include_modes info.user_limit old.user_limit)
    unfolding read_channel put_modes put_text
    read_modes =
        let name = info.name_casefolded in
        let saved = saved_modes codecs db info flags in
        (
          ground (
            arith,
            faithful.runes,
            saved key_modes name (some (codecs.text_of_runes info.modes))
                (λ d. ground (arith, beq_refl name)) refl refl refl,
          ),
          ground (
            arith,
            saved key_password name (some (info.key)) (λ d. ground (arith, beq_refl name)) refl refl
                refl,
          ),
          ground (
            arith,
            faithful.limits,
            saved key_user_limit name (some (codecs.itoa info.user_limit))
                (λ d. ground (arith, beq_refl name)) refl refl refl,
          ),
        )

    read_lists :
        let name = info.name_casefolded in
        let old = read_channel codecs db name in
        let new = read_channel codecs (save_channel codecs db info flags) name in
        (who : String)
        → (lookup new.account_to_umode who
            ≡ chosen_by flags include_lists
                (lookup info.account_to_umode who)
                (lookup old.account_to_umode who))
          × (lookup new.bans who
              ≡ chosen_by flags include_lists (lookup info.bans who) (lookup old.bans who))
          × (lookup new.excepts who
              ≡ chosen_by flags include_lists (lookup info.excepts who) (lookup old.excepts who))
          × (lookup new.invites who
              ≡ chosen_by flags include_lists (lookup info.invites who) (lookup old.invites who))
    unfolding read_channel put_lists put_text
    read_lists who =
        let name = info.name_casefolded in
        let saved = saved_lists codecs db info flags in
        (
          ground (
            arith,
            faithful.umodes who,
            saved key_account_to_umode name (some (codecs.marshal_umodes info.account_to_umode))
                (λ d. ground (arith, beq_refl name)) refl refl refl,
          ),
          ground (
            arith,
            faithful.bans who,
            saved key_banlist name (some (codecs.marshal_masks info.bans))
                (λ d. ground (arith, beq_refl name)) refl refl refl,
          ),
          ground (
            arith,
            faithful.excepts who,
            saved key_exceptlist name (some (codecs.marshal_masks info.excepts))
                (λ d. ground (arith, beq_refl name)) refl refl refl,
          ),
          ground (
            arith,
            faithful.invites who,
            saved key_invitelist name (some (codecs.marshal_masks info.invites))
                (λ d. ground (arith, beq_refl name)) refl refl refl,
          ),
        )

    -- What LoadChannel gives after saveChannel, for a channel that was in the database or is written with its
    -- initial attributes: each attribute that the flags name is the new one, and each other one is what it
    -- would have been before; of the lists, key by key.
    pub load-save_channel :
        (who : String)
        → (includes flags include_initial || is_registered db info.name_casefolded) ≡ true
        → let name = info.name_casefolded in
          let old = read_channel codecs db name in
          let db' = save_channel codecs db info flags in
          (new : RegisteredChannel) × (load_channel codecs true db' name ≡ ok new)
          × ((new.name ≡ chosen_by flags include_initial info.name old.name)
              × (new.registered_at
                  ≡ chosen_by flags include_initial info.registered_at old.registered_at)
              × (new.founder ≡ chosen_by flags include_initial info.founder old.founder))
          × ((new.topic ≡ chosen_by flags include_topic info.topic old.topic)
              × (new.topic_set_by
                  ≡ chosen_by flags include_topic info.topic_set_by old.topic_set_by)
              × (new.topic_set_time
                  ≡ chosen_by flags include_topic info.topic_set_time old.topic_set_time))
          × ((new.modes ≡ chosen_by flags include_modes info.modes old.modes)
              × (new.key ≡ chosen_by flags include_modes info.key old.key)
              × (new.user_limit ≡ chosen_by flags include_modes info.user_limit old.user_limit))
          × ((lookup new.account_to_umode who
                ≡ chosen_by flags include_lists
                    (lookup info.account_to_umode who)
                    (lookup old.account_to_umode who))
              × (lookup new.bans who
                  ≡ chosen_by flags include_lists (lookup info.bans who) (lookup old.bans who))
              × (lookup new.excepts who
                  ≡ chosen_by flags include_lists
                      (lookup info.excepts who)
                      (lookup old.excepts who))
              × (lookup new.invites who
                  ≡ chosen_by flags include_lists
                      (lookup info.invites who)
                      (lookup old.invites who)))
    unfolding load_channel
    load-save_channel who known = (
      read_channel codecs (save_channel codecs db info flags) info.name_casefolded,
      ground (arith, registered_after db info flags known),
      read_initial,
      read_topic,
      read_modes,
      read_lists who,
    )

  cleared_exists :
      (db : Database) (name : String)
      → (delete_texts db channel_key_strings name).channel_keys key_exists name ≡ none
  unfolding delete_texts delete_text
  cleared_exists db name = ground (arith, beq_refl name)

  -- After Delete of a registration LoadChannel fails, if the founder and the time that are stored are those of
  -- the registration; if they are not, since the channel was registered anew, it gives what it gave before.
  load-delete_registration :
      (db : Database) (info : RegisteredChannel)
      → let name = info.name_casefolded in
        let old = read_channel codecs db name in
        load_channel codecs true (delete_registration codecs true db info) name ≡ (
          if old.founder == info.founder && old.registered_at == info.registered_at
          then failed no_such_channel
          else load_channel codecs true db name)
  unfolding read_channel load_channel delete_registration delete_channel is_registered put_channels
  load-delete_registration db info =
      let name = info.name_casefolded in
      let cleared = delete_texts db channel_key_strings name in
      elim (Option-cases (cleared.account_channels info.founder)) [
        | inl e ↦ ground (arith, e, cleared_exists db name)
        | inr (names, e) ↦ ground (arith, e, cleared_exists db name)
      ]

  no_purge :
      (db : Database) (name : String)
      → db.purged name ≡ none
      → load_purge_record codecs db name ≡ failed no_such_channel
  unfolding load_purge_record read_purge
  no_purge db name e =
      ap (λ o. read_purge codecs (elim o as (λ x. String) [ none ↦ "" | some text ↦ text ])) e

  unpurged :
      (db : Database) (name : String)
      → load_purge_record codecs (unpurge_channel db name) name ≡ failed no_such_channel
  unfolding unpurge_channel
  unpurged db name = no_purge (unpurge_channel db name) name (ground (arith, beq_refl name))

  -- A purge is read back until it is taken back, and then there is none.
  load-purge_channel :
      (db : Database) (name : String) (info : ChannelPurgeRecord)
      → codecs.unmarshal_purge (codecs.marshal_purge info) ≡ some info
      → codecs.marshal_purge info ≢ ""
      → (load_purge_record codecs (purge_channel codecs db name info) name ≡ ok info)
        × (load_purge_record codecs (unpurge_channel (purge_channel codecs db name info) name) name
            ≡ failed no_such_channel)
  unfolding load_purge_record purge_channel
  load-purge_channel db name info read_back some_text = (
    ground (
      arith,
      read_back,
      some_text,
      beq_refl name,
      string_eq.equals_iff (codecs.marshal_purge info) "",
    ),
    unpurged (purge_channel codecs db name info) name,
  )
