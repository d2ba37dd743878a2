-- ===== src/Examples/Registry.antt =====
-- A database of channels on which the theorems are run.
use oragono.Prelude.{
  String, ◌≡◌, refl, inl, true, none, some, [], ◌∷◌, if◌then◌else◌, ◌==◌, nat_eq, string_eq,
}
use oragono.Prelude.GoMap.{lookup}
use oragono.Prelude.Int.{pos}
use oragono.Masks.{MaskInfo}
use oragono.Modes.Letters.{Mode}
use oragono.Channel.Storage.{RegisteredChannel, include_all_attrs}
use oragono.ChannelRegistry.{
  Codecs, Database, ok, read_channel, load_channel, save_channel, store_channel,
}
use oragono.ChannelRegistry.RoundTrip.{chosen_by, load-save_channel}
use oragono.ChannelRegistry.Founders.{IsListed, lists, stores, Step-IsListed}
use oragono.Channel.State.{include_initial, include_topic, include_modes, include_lists}

abbrev saved_hall : RegisteredChannel
saved_hall = record {
  name = "#Hall";
  name_casefolded = "#hall";
  registered_at = 7;
  founder = "carol";
  topic = "news";
  topic_set_by = "carol";
  topic_set_time = 8;
  modes = 110 ∷ 116 ∷ [];
  key = "";
  user_limit = pos 5;
  account_to_umode = ("alice", 111) ∷ [];
  bans = [];
  excepts = [];
  invites = [];
}

-- Conversions that are right for the values of this channel.
abbrev small_codecs : Codecs
small_codecs = record {
  format_int = λ n. if n == 7 then "7" else "8";
  parse_int = λ s. if s == "7" then some 7 else if s == "8" then some 8 else none;
  itoa = λ n. "5";
  atoi = λ s. if s == "5" then pos 5 else pos 0;
  text_of_runes = λ ms. "nt";
  runes_of_text = λ s. if s == "nt" then 110 ∷ 116 ∷ [] else [];
  marshal_masks = λ m. "{}";
  unmarshal_masks = λ s. [];
  marshal_umodes = λ m. "{\"alice\":111}";
  unmarshal_umodes = λ s. if s == "{\"alice\":111}" then ("alice", 111) ∷ [] else [];
  marshal_purge = λ r. "{}";
  unmarshal_purge = λ s. none;
}

abbrev blank_database : Database
blank_database = record {
  channel_keys = λ k name. none;
  account_channels = λ account. none;
  purged = λ name. none;
}

load-save_channel_example :
    let db' = save_channel small_codecs blank_database saved_hall include_all_attrs in
    let old = read_channel small_codecs blank_database "#hall" in
    (new : RegisteredChannel) × (load_channel small_codecs true db' "#hall" ≡ ok new)
    × ((new.name ≡ chosen_by include_all_attrs include_initial "#Hall" old.name)
        × (new.registered_at ≡ chosen_by include_all_attrs include_initial 7 old.registered_at)
        × (new.founder ≡ chosen_by include_all_attrs include_initial "carol" old.founder))
    × ((new.topic ≡ chosen_by include_all_attrs include_topic "news" old.topic)
        × (new.topic_set_by ≡ chosen_by include_all_attrs include_topic "carol" old.topic_set_by)
        × (new.topic_set_time ≡ chosen_by include_all_attrs include_topic 8 old.topic_set_time))
    × ((new.modes ≡ chosen_by include_all_attrs include_modes (110 ∷ 116 ∷ []) old.modes)
        × (new.key ≡ chosen_by include_all_attrs include_modes "" old.key)
        × (new.user_limit ≡ chosen_by include_all_attrs include_modes (pos 5) old.user_limit))
    × ((lookup new.account_to_umode "alice"
          ≡ chosen_by include_all_attrs include_lists
              (lookup {K = String} {V = Mode} (("alice", 111) ∷ []) "alice")
              (lookup old.account_to_umode "alice"))
        × (lookup new.bans "alice"
            ≡ chosen_by include_all_attrs include_lists
                (lookup {K = String} {V = MaskInfo} [] "alice")
                (lookup old.bans "alice"))
        × (lookup new.excepts "alice"
            ≡ chosen_by include_all_attrs include_lists
                (lookup {K = String} {V = MaskInfo} [] "alice")
                (lookup old.excepts "alice"))
        × (lookup new.invites "alice"
            ≡ chosen_by include_all_attrs include_lists
                (lookup {K = String} {V = MaskInfo} [] "alice")
                (lookup old.invites "alice")))
load-save_channel_example =
    load-save_channel small_codecs blank_database saved_hall include_all_attrs
      (record {
        reg_time = refl;
        topic_time = refl;
        no_int = refl;
        limits = refl;
        runes = refl;
        bans = λ k. refl;
        excepts = λ k. refl;
        invites = λ k. refl;
        umodes = λ k. refl;
      })
      "alice" refl

Step-IsListed_example :
    IsListed (store_channel small_codecs true blank_database saved_hall include_all_attrs)
unfolding lists
Step-IsListed_example =
    Step-IsListed small_codecs
      (stores {db = blank_database} true saved_hall include_all_attrs (inl refl))
      (λ name account. refl)
