-- ===== src/ChannelRegistry/Founders.antt =====
-- The channels that the database lists for an account are those of which it is the founder.
use oragono.Prelude.{
  ℕ, String, ◌≡◌, refl, ◌⊎◌, inl, inr, Bool, true, false, not, ◌&&◌, ◌||◌, Option, none, some, List,
  [], ◌∷◌, ◌++◌, arith, if◌then◌else◌, Bool-cases, Option-cases, ◌==◌, nat_eq, string_eq, beq→eq,
}
use oragono.Channel.State.{include_initial}
use oragono.Channel.Storage.{RegisteredChannel, includes}
use oragono.ChannelRegistry.Writes.{saved_initial, saved_elsewhere}
use oragono.ChannelRegistry.{
  Codecs, Database, ChannelKey, key_founder, channel_key_strings, get_text, put_text, delete_text,
  delete_texts, put_channels, channels_of, without, founder_is, update_account_to_channel_mapping,
  put_initial, put_topic, put_modes, put_lists, save_channel, store_channel, delete_channel,
  delete_registration, ChannelPurgeRecord, purge_channel, unpurge_channel,
}

unfoldable pub lists : List String → String → Bool
lists [] name = false
lists (x ∷ xs) name = x == name || lists xs name

-- An account has exactly those channels in its list that have it as their founder.
abbrev pub IsListed : Database → Type 0
IsListed db =
    (name account : String)
    → lists (channels_of db account) name ≡ founder_is (db.channel_keys key_founder name) account

lists-append :
    (xs : List String) (new name : String)
    → lists (xs ++ (new ∷ [])) name ≡ (lists xs name || (new == name))
unfolding lists
lists-append [] new name = ground arith
lists-append (x ∷ xs) new name = ground (arith, lists-append xs new name)

lists-without :
    (gone : String) (xs : List String) (name : String)
    → lists (without gone xs) name ≡ (lists xs name && not (gone == name))
unfolding lists without
lists-without gone [] name = refl
lists-without gone (x ∷ xs) name = ground (
  arith,
  lists-without gone xs name,
  string_eq.equals_iff x gone,
  string_eq.equals_iff x name,
  string_eq.equals_iff gone name,
)

-- After the mapping is updated, the channel is in the list of its new founder alone.
mapping-lists :
    (db : Database) (info : RegisteredChannel)
    → IsListed db
    → (name account : String)
    → lists (channels_of (update_account_to_channel_mapping db info) account) name ≡ (
        if info.name_casefolded == name
        then info.founder == account
        else founder_is (db.channel_keys key_founder name) account)
unfolding update_account_to_channel_mapping put_channels
mapping-lists db info listed name account =
    elim (Option-cases (db.channel_keys key_founder info.name_casefolded)) [
      | inl e ↦ ground (
        arith,
        e,
        listed name account,
        listed info.name_casefolded account,
        string_eq.equals_iff info.name_casefolded name,
        string_eq.equals_iff info.founder account,
        lists-append (channels_of db info.founder) info.name_casefolded name,
      )
      | inr (founder, e) ↦ ground (
        arith,
        e,
        listed name account,
        listed info.name_casefolded account,
        string_eq.equals_iff info.name_casefolded name,
        string_eq.equals_iff info.founder account,
        string_eq.equals_iff founder account,
        string_eq.equals_iff founder info.founder,
        lists-append (channels_of db info.founder) info.name_casefolded name,
        lists-without info.name_casefolded (channels_of db founder) name,
      )
    ]

module _ (codecs : Codecs) where
  save_channel-channels :
      (db : Database) (info : RegisteredChannel) (flags : ℕ) (account : String)
      → channels_of (save_channel codecs db info flags) account
        ≡ channels_of (update_account_to_channel_mapping db info) account
  unfolding save_channel put_initial put_topic put_modes put_lists put_text
  save_channel-channels db info flags account = ground arith

  save_channel-founder :
      (db : Database) (info : RegisteredChannel) (flags : ℕ) (name : String)
      → (save_channel codecs db info flags).channel_keys key_founder name ≡ (
          if info.name_casefolded == name
          then if includes flags include_initial
            then some info.founder
            else db.channel_keys key_founder name
          else db.channel_keys key_founder name)
  unfolding put_initial put_text
  save_channel-founder db info flags name = elim (Bool-cases (info.name_casefolded == name)) [
    | inl e ↦ ground (
      arith,
      e,
      saved_initial codecs db info flags key_founder name (some info.founder)
          (λ d. ground (arith, e)) refl refl refl,
    )
    | inr e ↦ ground (arith, e, saved_elsewhere codecs db info flags key_founder name e)
  ]

  save_channel-IsListed :
      (db : Database) (info : RegisteredChannel) (flags : ℕ)
      → (includes flags include_initial ≡ true)
        ⊎ (db.channel_keys key_founder info.name_casefolded ≡ some info.founder)
      → IsListed db
      → IsListed (save_channel codecs db info flags)
  save_channel-IsListed db info flags whole listed name account = ground (
    arith,
    whole,
    mapping-lists db info listed name account,
    save_channel-channels db info flags account,
    save_channel-founder db info flags name,
    string_eq.equals_iff info.name_casefolded name,
  )

  cleared_founder :
      (db : Database) (name other : String)
      → (delete_texts db channel_key_strings name).channel_keys key_founder other
        ≡ (if name == other then none else db.channel_keys key_founder other)
  unfolding delete_texts delete_text
  cleared_founder db name other = ground arith

  cleared_channels :
      (db : Database) (ks : List ChannelKey) (name account : String)
      → (delete_texts db ks name).account_channels account ≡ db.account_channels account
  unfolding delete_texts delete_text
  cleared_channels db [] name account = refl
  cleared_channels db (k ∷ ks) name account =
      cleared_channels (delete_text db k name) ks name account

  -- What deleteChannel does when it is the right registration.
  removed : Database → String → RegisteredChannel → Option (List String) → Database
  removed db name info none = delete_texts db channel_key_strings name
  removed db name info (some names) =
      put_channels (delete_texts db channel_key_strings name) info.founder (without name names)

  removed-IsListed :
      (db : Database) (name : String) (info : RegisteredChannel) (o : Option (List String))
      → db.account_channels info.founder ≡ o
      → get_text db key_founder name ≡ info.founder
      → IsListed db
      → IsListed (removed db name info o)
  unfolding removed put_channels lists
  removed-IsListed db name info none e own listed other account = ground (
    arith,
    e,
    own,
    listed other account,
    cleared_founder db name other,
    cleared_channels db channel_key_strings name account,
    string_eq.equals_iff name other,
    string_eq.equals_iff info.founder account,
  )
  removed-IsListed db name info (some names) e own listed other account = ground (
    arith,
    e,
    own,
    listed other account,
    cleared_founder db name other,
    cleared_channels db channel_key_strings name account,
    lists-without name names other,
    string_eq.equals_iff name other,
    string_eq.equals_iff info.founder account,
  )

  delete_channel-IsListed :
      (db : Database) (name : String) (info : RegisteredChannel)
      → IsListed db
      → IsListed (delete_channel codecs db name info)
  unfolding delete_channel removed
  delete_channel-IsListed db name info listed other account =
      elim (Option-cases (db.account_channels info.founder)) [
        | inl e ↦ elim (Bool-cases (get_text db key_founder name == info.founder)) [
          | inl own ↦ ground (
            arith,
            e,
            listed other account,
            cleared_channels db channel_key_strings name info.founder,
            removed-IsListed db name info none e
                (beq→eq (get_text db key_founder name) info.founder own) listed other account,
          )
          | inr foreign ↦ ground (arith, foreign, listed other account)
        ]
        | inr (names, e) ↦ elim (Bool-cases (get_text db key_founder name == info.founder)) [
          | inl own ↦ ground (
            arith,
            e,
            listed other account,
            cleared_channels db channel_key_strings name info.founder,
            removed-IsListed db name info (some names) e
                (beq→eq (get_text db key_founder name) info.founder own) listed other account,
          )
          | inr foreign ↦ ground (arith, foreign, listed other account)
        ]
      ]

  -- What the registry writes of channels.
  pub data Step : Database → Database → Type 0 where
    stores :
        {db : Database} (enabled : Bool) (info : RegisteredChannel) (flags : ℕ)
        → (includes flags include_initial ≡ true)
          ⊎ (db.channel_keys key_founder info.name_casefolded ≡ some info.founder)
        → Step db (store_channel codecs enabled db info flags)
    deletes :
        {db : Database} (enabled : Bool) (info : RegisteredChannel)
        → Step db (delete_registration codecs enabled db info)
    purges :
        {db : Database} (name : String) (info : ChannelPurgeRecord)
        → Step db (purge_channel codecs db name info)
    unpurges : {db : Database} (name : String) → Step db (unpurge_channel db name)

  -- StoreChannel with the initial attributes, or with the founder that is stored, and Delete keep the lists of
  -- the accounts exact: an account lists a channel exactly if it is the stored founder. The purges do too.
  pub Step-IsListed : {db db' : Database} → Step db db' → IsListed db → IsListed db'
  unfolding store_channel delete_registration purge_channel unpurge_channel
  Step-IsListed (stores {db} enabled info flags whole) listed name account =
      ground
        (arith, listed name account, save_channel-IsListed db info flags whole listed name account)
  Step-IsListed (deletes {db} enabled info) listed name account = ground (
    arith,
    listed name account,
    delete_channel-IsListed db info.name_casefolded info listed name account,
  )
  Step-IsListed (purges name info) listed other account = listed other account
  Step-IsListed (unpurges name) listed other account = listed other account
