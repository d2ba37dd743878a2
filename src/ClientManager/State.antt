-- ===== src/ClientManager/State.antt =====
-- The tables of nicknames, the clients, and what the manager asks of other parts of the server.
use oragono.Prelude.{
  ℕ, ◌+◌, String, Bool, true, false, ◌&&◌, ◌||◌, Option, none, some, if◌then◌else◌, ◌==◌, nat_eq,
  string_eq,
}
use oragono.Prelude.GoMap.{GoMap, lookup, delete}

-- irc/config.go and irc/accounts.go
pub data PersistentStatus : Type 0 where
  unspecified disabled opt_in opt_out mandatory : PersistentStatus

pub data MulticlientAllowed : Type 0 where
  server_default disallowed_by_user allowed_by_user : MulticlientAllowed

-- persistenceEnabled
unfoldable pub persistence_enabled : PersistentStatus → PersistentStatus → Bool
persistence_enabled disabled client = false
persistence_enabled mandatory client = true
persistence_enabled server disabled = false
persistence_enabled server mandatory = true
persistence_enabled opt_out client = true
persistence_enabled server client = false

pub record Config : Type 0 where
  pub always_on : PersistentStatus
  pub force_nick_equals_account : Bool
  pub force_guest_format : Bool
  pub multiclient_enabled : Bool
  pub allowed_by_default : Bool
  pub nick_len : ℕ

-- CasefoldName and Skeleton (irc/strings.go), strings.TrimSpace, the guest pattern and format, the
-- relay pattern, the restricted names, and AccountManager.EnforcementStatus: the account that a name
-- is reserved to, if its method is strict.
pub record Names : Type 0 where
  pub casefold_name : String → Option String
  pub skeleton_of : String → Option String
  pub trim_space : String → String
  pub matches_guest : String → Bool
  pub as_guest : String → String
  pub is_relaymsg_identifier : String → Bool
  pub is_restricted_nick : String → Bool
  pub is_restricted_skeleton : String → Bool
  pub strictly_reserved_to : String → String → String

-- The empty account is that of a client who is not logged in; `sessions` counts them.
pub record Client : Type 0 where
  pub nick : String
  pub nick_casefolded : String
  pub skeleton : String
  pub account : String
  pub account_name : String
  pub always_on_setting : PersistentStatus
  pub allow_bouncer : MulticlientAllowed
  pub registered : Bool
  pub destroyed : Bool
  pub is_tls : Bool
  pub realname : String
  pub sessions : ℕ
  pub auto_away : Bool
  pub away : Bool

pub record Manager : Type 0 where
  pub by_nick : GoMap String ℕ
  pub by_skeleton : GoMap String ℕ
  pub clients : ℕ → Client

unfoldable pub set_client : (ℕ → Client) → ℕ → Client → ℕ → Client
set_client cs who c j = if who == j then c else cs j

-- Client.AddSession; `none` is a client that is being destroyed. The flag says whether the client comes
-- back from being away.
unfoldable pub add_session : Client → Option (Client × Bool)
add_session c =
    if c.destroyed
    then none
    else some (
      record c {
        sessions = c.sessions + 1;
        auto_away = false;
        away = if c.auto_away then false else c.away;
      },
      c.auto_away,
    )

-- Client.SetNick; `none` is failure.
unfoldable pub client_set_nick : Client → String → String → String → Option Client
client_set_nick c nick cf skeleton =
    if c.destroyed
    then none
    else some
        (record c { registered = true; nick = nick; nick_casefolded = cf; skeleton = skeleton })

-- Delete the entry if it is the client's.
unfoldable pub delete_own : GoMap String ℕ → String → ℕ → GoMap String ℕ
delete_own m k who = elim (lookup m k) [
  | none ↦ m
  | some holder ↦ if holder == who then delete m k else m
]

abbrev pub holds : GoMap String ℕ → String → ℕ → Bool
holds m k who = elim (lookup m k) [ none ↦ false | some holder ↦ holder == who ]

-- removeInternal; the flag says that all was in order (no errNickMissing).
unfoldable pub remove_internal : Manager → ℕ → String → String → Manager × Bool
unfolding delete_own
remove_internal m who cf skeleton = if cf == "*" || cf == "" then (m, false) else (
  record m {
    by_nick = delete_own m.by_nick cf who;
    by_skeleton = delete_own m.by_skeleton skeleton who;
  },
  holds m.by_nick cf who && holds m.by_skeleton skeleton who,
)

-- Remove
unfoldable pub remove : Manager → ℕ → Manager × Bool
unfolding remove_internal
remove m who = let c = m.clients who in remove_internal m who c.nick_casefolded c.skeleton

-- Get
unfoldable pub get : Names → Manager → String → Option ℕ
get names m nick = elim (names.casefold_name nick) [ none ↦ none | some cf ↦ lookup m.by_nick cf ]
