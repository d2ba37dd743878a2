-- ===== src/ChannelManager/Leaving.antt =====
-- Channel.Quit of irc/channel.go with ChannelManager.Cleanup, which it calls when the channel is empty.
pub mod Emptied
use oragono.Prelude.{ℕ, Bool, false, List, [], ◌∷◌, if◌then◌else◌}
use oragono.Masks.{RegexpPackage}
use oragono.Channel.State
use oragono.Channel.State.{Client}
use oragono.Channel.Membership.{quit}
use oragono.ChannelManager.State.{ChannelManager, World}
use oragono.ChannelManager.Operations.{set_channel, maybe_cleanup}

module _ (re : RegexpPackage) (cfg : State.Config) (world : World) where
  -- The client `who` quits the channel at `a`.
  unfoldable pub quit_channel :
      ChannelManager → (ℕ → Client) → ℕ → ℕ → ChannelManager × (ℕ → Client)
  unfolding quit set_channel
  quit_channel cm clients a who =
      let (net, empty) =
        quit re cfg a (record { channel = cm.channels a; clients = clients }) who in
      let cm' = set_channel cm a net.channel in
      (if empty then maybe_cleanup world cm' a false else cm', net.clients)

  -- Clients quit one after the other.
  unfoldable pub quit_all : ChannelManager → (ℕ → Client) → ℕ → List ℕ → ChannelManager
  unfolding quit_channel
  quit_all cm clients a [] = cm
  quit_all cm clients a (who ∷ leavers) =
      let (cm', clients') = quit_channel cm clients a who in quit_all cm' clients' a leavers
