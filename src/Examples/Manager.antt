-- ===== src/Examples/Manager.antt =====
-- The theorems on stored channels and the manager at the lobby.
use oragono.Prelude.{
  ℕ, ◌≡◌, refl, true, false, none, some, [], ◌∷◌, arith, length, nat_eq, string_eq, beq→ne,
}
use oragono.Prelude.GoMap.{lookup, has, distinct}
use oragono.Modes.Letters.{no_outside}
use oragono.Modes.ModeSet.{has_mode}
use oragono.Channel.Storage.{load, new_channel, export_registration, include_all_attrs}
use oragono.Channel.Storage.Restored.{load-export_registration}
use oragono.ChannelManager.State.{ChannelManager, World, Config}
use oragono.ChannelManager.Operations.{claim, claim_entry, create, add_pending}
use oragono.ChannelManager.Registry.{rename_folded, set_unregistered}
use oragono.ChannelManager.Operations.Pending.{count}
use oragono.ChannelManager.Operations.Interleaving.{claims, here, next, claimed-stays}
use oragono.ChannelManager.Operations.Renaming.{rename-unregistered, set_unregistered-absent}
use oragono.Masks.{set_regexp}
use oragono.ChannelManager.Operations.{get_folded}
use oragono.Channel.State.{holds}
use oragono.ChannelManager.Leaving.{quit_all}
use oragono.Examples.Setting.{plain_text, config, lobby, net}

abbrev world : World
world = record {
  casefold_channel = λ name. some name;
  skeleton_of = λ name. some name;
  load_channel = λ cf. some (export_registration lobby include_all_attrs);
  is_writing = λ a. false;
  is_ephemeral = λ a. false;
}

abbrev manager_config : Config
manager_config = record {
  channel_len = 64;
  op_only_creation = false;
  registration_enabled = true;
  default_modes = no_outside ∷ [];
  defcon = 5;
}

-- The lobby is registered, and nobody has joined a channel yet.
abbrev started : ChannelManager
started = record {
  chans = [];
  chans_skeletons = [];
  registered_channels = ("#lobby", true) ∷ [];
  registered_skeletons = ("#lobby", true) ∷ [];
  purged_channels = [];
  entries = λ a. record { pending_joins = 0; skeleton = "" };
  channels = λ a. lobby;
  loaded = λ a. true;
  next_address = 0;
}

-- The lobby is there.
abbrev opened : ChannelManager
opened = record started { chans = ("#lobby", 0) ∷ []; next_address = 1 }

-- The same without a registration.
abbrev unregistered : ChannelManager
unregistered = record opened {
  registered_channels = [];
  registered_skeletons = [];
  channels = λ a. record lobby { registered_founder = "" };
}

load-export_registration_example :
    let ch' =
      load plain_text
        (new_channel [] "#lobby" "#lobby" 9 true)
        (some (export_registration lobby include_all_attrs)) in
    (ch'.registered_founder ≡ lobby.registered_founder)
    × (ch'.name ≡ lobby.name)
    × (ch'.topic ≡ lobby.topic)
    × (ch'.key ≡ lobby.key)
    × (ch'.user_limit ≡ lobby.user_limit)
    × (has_mode ch'.flags 110 ≡ has_mode lobby.flags 110)
    × (lookup ch'.account_to_umode "alice" ≡ lookup lobby.account_to_umode "alice")
    × (ch'.bans ≡ lobby.bans)
    × (ch'.excepts ≡ lobby.excepts)
    × (ch'.invites ≡ lobby.invites)
unfolding distinct lookup set_regexp
load-export_registration_example =
    load-export_registration plain_text lobby [] "#lobby" "#lobby" "alice" 9 110 (ground arith)
      (ground arith) refl refl refl refl

claimed-stays_example :
    let cm = (claim manager_config started "#lobby" (some "#lobby") (some "#lobby") false 3).0 in
    (lookup cm.chans (cm.channels 0).name_casefolded ≡ some 0)
    × ((cm.entries 0).pending_joins ≡ count 0 (0 ∷ []))
    × ((lookup cm.chans "#lobby" ≡ some 0) → (cm.channels 0).name_casefolded ≡ "#lobby")
unfolding lookup claim claim_entry create add_pending
claimed-stays_example =
    claimed-stays plain_text world manager_config {start = started} {pending = []} 0 "#lobby" 0
      (record {
        names = record { named = λ k a e. ground (arith, e); known = λ k a e. ground (arith, e) };
        counted = λ a. refl;
        allocated = λ a h. ground (arith, h);
        held = λ a h. ground (arith, h);
      })
      (next here (claims {cm = started} "#lobby" (some "#lobby") (some "#lobby") false 3 0 refl))
      (ground arith)

only_alice : (k : ℕ) → has lobby.members k ≡ true → holds k (1 ∷ []) ≡ true
unfolding lookup holds
only_alice k h = ground (arith, h)

rename-unregistered_example :
    let cm' =
      quit_all plain_text config world
        (rename_folded world unregistered "#lobby" "#Hall" "#hall" "#hall" 9).0
        net.clients
        0
        (1 ∷ []) in
    (lookup cm'.chans "#hall" ≡ none)
    × (lookup cm'.chans "#lobby" ≡ some 0)
    × ((cm'.channels 0).name_casefolded ≡ "#hall")
    × (length (cm'.channels 0).members ≡ 0)
unfolding lookup rename_folded get_folded
rename-unregistered_example =
    rename-unregistered plain_text config world unregistered net.clients "#lobby" "#Hall" "#hall"
      "#hall" 9 0 1 (1 ∷ []) (beq→ne "#hall" "#lobby" refl) refl refl refl refl refl only_alice refl

set_unregistered-absent_example :
    has (set_unregistered world started "#lobby" "carol").0.registered_channels "#lobby" ≡ true
unfolding lookup set_unregistered export_registration
set_unregistered-absent_example =
    set_unregistered-absent world started "#lobby" "carol" refl refl refl
