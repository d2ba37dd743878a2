-- ===== src/Examples/Clients.antt =====
-- The theorems on the tables of nicknames, at a server with two clients.
use oragono.Prelude.{
  ℕ, String, ◌≡◌, refl, true, false, ◌||◌, Option, none, some, [], arith, if◌then◌else◌, ◌==◌,
  nat_eq, string_eq,
}
use oragono.Prelude.GoMap.{lookup}
use oragono.ClientManager.State.{set_client}
use oragono.ClientManager.SetNick.{held_by_other}
use oragono.ClientManager.SetNick.{take}
use oragono.ClientManager.SetNick.{uses_account_name}
use oragono.ClientManager.SetNick.{choose}
use oragono.ClientManager.State.{opt_in, server_default, disabled, Config, Names, Client, Manager}
use oragono.ClientManager.SetNick.{set_nick}
use oragono.ClientManager.Consistency.{is_name, IsConsistent}
use oragono.ClientManager.Uniqueness.{set_nick-IsConsistent}

abbrev nick_config : Config
nick_config = record {
  always_on = disabled;
  force_nick_equals_account = false;
  force_guest_format = false;
  multiclient_enabled = true;
  allowed_by_default = true;
  nick_len = 32;
}

-- Every text but the marks of a client without a name is a name, and is its own casefolded form.
abbrev plain_name : String → Option String
plain_name n = if n == "*" || n == "" then none else some n

abbrev plain_names : Names
plain_names = record {
  casefold_name = plain_name;
  skeleton_of = plain_name;
  trim_space = λ n. n;
  matches_guest = λ n. true;
  as_guest = λ n. n;
  is_relaymsg_identifier = λ n. false;
  is_restricted_nick = λ n. false;
  is_restricted_skeleton = λ n. false;
  strictly_reserved_to = λ cf sk. "";
}

abbrev newcomer : Client
newcomer = record {
  nick = "*";
  nick_casefolded = "*";
  skeleton = "";
  account = "";
  account_name = "";
  always_on_setting = opt_in;
  allow_bouncer = server_default;
  registered = false;
  destroyed = false;
  is_tls = true;
  realname = "";
  sessions = 1;
  auto_away = false;
  away = false;
}

-- Nobody has a name.
abbrev empty : Manager
empty = record { by_nick = []; by_skeleton = []; clients = λ who. newcomer }

empty-IsConsistent : IsConsistent empty
unfolding lookup
empty-IsConsistent = record {
  nicks = λ k w h. ground (arith, h);
  skeletons = λ k w h. ground (arith, h);
  both = λ w. refl;
  named = λ w unnamed. refl;
}

plain-named : (n k : String) → plain_name n ≡ some k → is_name k ≡ true
plain-named n k h = ground (arith, h)

-- The client 1 is called ann.
abbrev manager : Manager
manager = (set_nick nick_config plain_names empty 1 true "ann" false).0

manager-IsConsistent : IsConsistent manager
manager-IsConsistent =
    set_nick-IsConsistent nick_config plain_names plain-named empty 1 true "ann" false refl
      empty-IsConsistent

set_nick-IsConsistent_example :
    IsConsistent (set_nick nick_config plain_names manager 2 true "bob" false).0
unfolding set_nick choose uses_account_name lookup take held_by_other set_client
set_nick-IsConsistent_example =
    set_nick-IsConsistent nick_config plain_names plain-named manager 2 true "bob" false refl
      manager-IsConsistent

abbrev one : ℕ
one = 1
