-- ===== src/Channel/State.antt =====
-- The state of a channel and of the clients that it touches: Channel (irc/channel.go), MemberSet
-- (irc/types.go), and the part of Client (irc/client.go) that channels read and write. A client and
-- a channel are known by their address, a number.
use oragono.Prelude.{
  ℕ, bit_or, String, Bool, false, ◌||◌, Option, none, some, List, [], ◌∷◌, if◌then◌else◌, ◌==◌,
  nat_eq, string_eq,
}
use oragono.Prelude.GoMap.{GoMap, lookup}
use oragono.Modes.Letters.{Mode, no_mode}
use oragono.Modes.ModeSet.{ModeSet, has_mode, highest_channel_user_mode}
use oragono.Masks.{UserMaskSet}
use oragono.Prelude.Int.{ℤ}

-- The settings of irc/config.go that the model reads.
pub record Config : Type 0 where
  pub max_channels_per_client : ℕ
  pub invite_expiration : ℕ
  pub topic_len : ℕ
  pub kick_len : ℕ
  pub chan_list_modes : ℕ
  pub defcon : ℕ

pub record ChannelInvite : Type 0 where
  pub channel_created_at : ℕ
  pub invited_at : ℕ

-- The empty text as the account means that the client is not logged in; `account_name` is the account as it
-- was written at its registration.
pub record Client : Type 0 where
  pub nick : String
  pub nick_casefolded : String
  pub nick_mask : String
  pub nick_mask_casefolded : String
  pub account : String
  pub account_name : String
  pub modes : ModeSet
  pub is_oper : Bool
  pub always_on : Bool
  pub destroyed : Bool
  pub channels : GoMap ℕ (Unit {0})
  pub invited_to : GoMap String ChannelInvite
  pub dirty_bits : ℕ

-- The zero mode in `account_to_umode` stands for a missing key; the founder is empty when the
-- channel is not registered.
pub record Channel : Type 0 where
  pub flags : ModeSet
  pub bans : UserMaskSet
  pub excepts : UserMaskSet
  pub invites : UserMaskSet
  pub key : String
  pub members : GoMap ℕ ModeSet
  pub members_cache : List ℕ
  pub name : String
  pub name_casefolded : String
  pub created_time : ℕ
  pub registered_founder : String
  pub registered_time : ℕ
  pub transfer_pending_to : String
  pub topic : String
  pub topic_set_by : String
  pub topic_set_time : ℕ
  pub user_limit : ℤ
  pub account_to_umode : GoMap String Mode
  pub dirty_bits : ℕ

-- A channel with the clients of the server.
pub record Net : Type 0 where
  pub channel : Channel
  pub clients : ℕ → Client

unfoldable pub set_client : (ℕ → Client) → ℕ → Client → ℕ → Client
set_client cs who c j = if who == j then c else cs j

abbrev pub with_client : Net → ℕ → Client → Net
with_client net who c = record net { clients = set_client net.clients who c }

-- A missing member is the nil mode set.
unfoldable pub has_member_mode : Option ModeSet → Mode → Bool
has_member_mode none m = false
has_member_mode (some s) m = has_mode s m

unfoldable pub highest_member_mode : Option ModeSet → Mode
highest_member_mode none = no_mode
highest_member_mode (some s) = highest_channel_user_mode s

-- A missing key reads as the zero mode.
unfoldable pub persistent_mode : Channel → String → Mode
persistent_mode ch account = elim (lookup ch.account_to_umode account) [
  | none ↦ no_mode
  | some m ↦ m
]

abbrev pub keys {ℓ κ} : {K : Type ℓ} {V : Type κ} → GoMap K V → List K
keys [] = []
keys ((k, v) ∷ m) = k ∷ keys m

-- Does the list hold the client?
unfoldable pub holds : ℕ → List ℕ → Bool
holds j [] = false
holds j (m ∷ ms) = m == j || holds j ms

unfoldable pub regenerate_members_cache : Channel → Channel
regenerate_members_cache ch = record ch { members_cache = keys ch.members }

-- Channel.MarkDirty and Client.markDirty, without the write that they may start.
abbrev pub mark_dirty : ℕ → Channel → Channel
mark_dirty bits ch = record ch { dirty_bits = bit_or ch.dirty_bits bits }

abbrev pub mark_client_dirty : ℕ → Client → Client
mark_client_dirty bits c = record c { dirty_bits = bit_or c.dirty_bits bits }

abbrev pub include_initial : ℕ
include_initial = 1

abbrev pub include_topic : ℕ
include_topic = 2

abbrev pub include_modes : ℕ
include_modes = 4

abbrev pub include_lists : ℕ
include_lists = 8

abbrev pub include_channels : ℕ
include_channels = 1
