-- ===== src/Examples/Setting.antt =====
-- A channel with an operator, a guest who wants to speak, and a regular expression package that takes an
-- expression as a plain text.
use oragono.Prelude.{
  ℕ, ◌^◌, Bool, true, false, ◌&&◌, List, [], ◌∷◌, if◌then◌else◌, ◌==◌, nat_eq, string_eq,
}
use oragono.Prelude.Int.{pos}
use oragono.Modes.Letters.{channel_operator}
use oragono.Modes.ModeSet.{ModeSet, new_mode_set}
use oragono.Masks.{RegexpPackage, new_user_mask_set, runes}
use oragono.Channel.State.{Config, Client, Channel, Net}

abbrev pub same_runes : List ℕ → List ℕ → Bool
same_runes [] [] = true
same_runes [] (y ∷ ys) = false
same_runes (x ∷ xs) [] = false
same_runes (x ∷ xs) (y ∷ ys) = x == y && same_runes xs ys

abbrev pub plain_text : RegexpPackage
plain_text = record {
  quote_meta = λ r. r ∷ [];
  compiles = λ expr. true;
  match_string = λ expr text. same_runes expr (runes text);
}

abbrev pub config : Config
config = record {
  max_channels_per_client = 10;
  invite_expiration = 0;
  topic_len = 100;
  kick_len = 100;
  chan_list_modes = 60;
  defcon = 5;
}

abbrev pub operator_set : ModeSet
operator_set = record { lo = 0; hi = 2 ^ 14 }

abbrev pub voice_set : ModeSet
voice_set = record { lo = 0; hi = 2 ^ 21 }

abbrev pub alice : Client
alice = record {
  nick = "alice";
  nick_casefolded = "alice";
  nick_mask = "alice!a@host";
  nick_mask_casefolded = "alice!a@host";
  account = "alice";
  account_name = "Alice";
  modes = new_mode_set;
  is_oper = false;
  always_on = false;
  destroyed = false;
  channels = (7, tt) ∷ [];
  invited_to = [];
  dirty_bits = 0;
}

abbrev pub bob : Client
bob = record alice {
  nick = "bob";
  nick_casefolded = "bob";
  nick_mask = "bob!b@host";
  nick_mask_casefolded = "bob!b@host";
  account = "";
  account_name = "";
  channels = [];
}

abbrev pub lobby : Channel
lobby = record {
  flags = new_mode_set;
  bans = new_user_mask_set;
  excepts = new_user_mask_set;
  invites = new_user_mask_set;
  key = "sesame";
  members = (1, operator_set) ∷ [];
  members_cache = 1 ∷ [];
  name = "#lobby";
  name_casefolded = "#lobby";
  created_time = 5;
  registered_founder = "carol";
  registered_time = 6;
  transfer_pending_to = "dave";
  topic = "";
  topic_set_by = "";
  topic_set_time = 0;
  user_limit = pos 2;
  account_to_umode = ("alice", channel_operator) ∷ [];
  dirty_bits = 0;
}

-- Alice, the client 1, is on the channel, which is number 7; everybody else is a Bob.
abbrev pub net : Net
net = record { channel = lobby; clients = λ who. if who == 1 then alice else bob }
