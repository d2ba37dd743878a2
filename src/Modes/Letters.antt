-- ===== src/Modes/Letters.antt =====
-- The constants of irc/modes/modes.go. A mode is a rune, here its code point.
use oragono.Prelude.{ℕ, String, List, [], ◌∷◌, if◌then◌else◌, ◌==◌, nat_eq, string_eq}

abbrev pub Mode : Type 0
Mode = ℕ

-- The zero mode, Go's `modes.Mode(0)`.
abbrev pub no_mode : Mode
no_mode = 0

-- user modes
abbrev pub bot : Mode
bot = b'B'

abbrev pub invisible : Mode
invisible = b'i'

abbrev pub local_operator : Mode
local_operator = b'O'

abbrev pub operator : Mode
operator = b'o'

abbrev pub registered_only : Mode
registered_only = b'R'

abbrev pub server_notice : Mode
server_notice = b's'

abbrev pub tls : Mode
tls = b'Z'

abbrev pub user_no_ctcp : Mode
user_no_ctcp = b'T'

abbrev pub user_roleplaying : Mode
user_roleplaying = b'E'

-- channel modes
abbrev pub auditorium : Mode
auditorium = b'u'

abbrev pub ban_mask : Mode
ban_mask = b'b'

abbrev pub chan_roleplaying : Mode
chan_roleplaying = b'E'

abbrev pub except_mask : Mode
except_mask = b'e'

abbrev pub invite_mask : Mode
invite_mask = b'I'

abbrev pub invite_only : Mode
invite_only = b'i'

abbrev pub key_mode : Mode
key_mode = b'k'

abbrev pub moderated : Mode
moderated = b'm'

abbrev pub no_outside : Mode
no_outside = b'n'

abbrev pub op_only_topic : Mode
op_only_topic = b't'

abbrev pub registered_only_speak : Mode
registered_only_speak = b'M'

abbrev pub secret : Mode
secret = b's'

abbrev pub user_limit_mode : Mode
user_limit_mode = b'l'

abbrev pub no_ctcp : Mode
no_ctcp = b'C'

abbrev pub op_moderated : Mode
op_moderated = b'U'

-- channel-user modes
abbrev pub channel_founder : Mode
channel_founder = b'q'

abbrev pub channel_admin : Mode
channel_admin = b'a'

abbrev pub channel_operator : Mode
channel_operator = b'o'

abbrev pub halfop : Mode
halfop = b'h'

abbrev pub voice : Mode
voice = b'v'

-- In descending order of precedence.
abbrev pub channel_user_modes : List Mode
channel_user_modes = channel_founder ∷ channel_admin ∷ channel_operator ∷ halfop ∷ voice ∷ []

abbrev pub supported_user_modes : List Mode
supported_user_modes =
    bot ∷ invisible ∷ operator ∷ registered_only ∷ server_notice ∷ user_roleplaying ∷ user_no_ctcp
    ∷ []

abbrev pub supported_channel_modes : List Mode
supported_channel_modes =
    ban_mask ∷ chan_roleplaying ∷ except_mask ∷ invite_mask ∷ invite_only ∷ key_mode ∷ moderated
    ∷ no_outside ∷ op_only_topic ∷ registered_only ∷ registered_only_speak ∷ secret
    ∷ user_limit_mode ∷ no_ctcp ∷ auditorium ∷ op_moderated ∷ []

-- The values of `ChannelModePrefixes`; a missing key reads as the empty string.
unfoldable pub channel_mode_prefix : Mode → List ℕ
channel_mode_prefix m =
    if m == channel_founder
    then b'~' ∷ []
    else if m == channel_admin
    then b'&' ∷ []
    else if m == channel_operator
    then b'@' ∷ []
    else if m == halfop
    then b'%' ∷ []
    else if m == voice
    then b'+' ∷ []
    else []

pub data ModeOp : Type 0 where
  add list remove : ModeOp

pub record ModeChange : Type 0 where
  pub mode : Mode
  pub op : ModeOp
  pub arg : String
