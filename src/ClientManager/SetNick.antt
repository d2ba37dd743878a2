-- ===== src/ClientManager/SetNick.antt =====
-- ClientManager.SetNick of irc/client_lookup_set.go: the choice of the name, then the claim.
use oragono.Prelude.{
  ℕ, String, Bool, true, false, not, ◌&&◌, ◌||◌, Option, none, some, ltb, if◌then◌else◌, ◌==◌, ◌!=◌,
  nat_eq, string_eq,
}
use oragono.Prelude.GoMap.{GoMap, lookup, insert}
use oragono.ClientManager.State.{
  MulticlientAllowed, disallowed_by_user, allowed_by_user, persistence_enabled, Config, Names,
  Client, Manager, set_client, add_session, client_set_nick, remove_internal,
}
use Prim.Native.String.{len}

pub data SetNickError : Type 0 where
  nick_account_mismatch nickname_invalid nick_missing nickname_reserved nickname_in_use :
      SetNickError
  insecure_reattach no_op client_destroyed : SetNickError

-- `reattached nick holder first back`: the session is now one of the client that holds the name, its
-- only one if `first`, and takes it back from being away if `back`.
pub data SetNickResult : Type 0 where
  failed : SetNickError → SetNickResult
  reattached : String → ℕ → Bool → Bool → SetNickResult
  dry_run_passed : SetNickResult
  changed : String → SetNickResult

-- The nickname, its casefolded form and its skeleton.
pub record Claim : Type 0 where
  pub nick : String
  pub cf : String
  pub skeleton : String

pub data Chosen : Type 0 where
  rejected : SetNickError → Chosen
  claim : Claim → Chosen

unfoldable pub same_bool : Bool → Bool → Bool
same_bool true b = b
same_bool false b = not b

unfoldable pub held_by_other : GoMap String ℕ → String → ℕ → Bool
held_by_other m k who = elim (lookup m k) [ none ↦ false | some holder ↦ not (holder == who) ]

module _ (cfg : Config) (names : Names) where
  open names use {
    casefold_name, skeleton_of, trim_space, matches_guest, as_guest, is_relaymsg_identifier,
    is_restricted_nick, is_restricted_skeleton, strictly_reserved_to,
  }

  unfoldable pub is_always_on : Client → Bool
  unfolding persistence_enabled
  is_always_on c = c.account != "" && persistence_enabled cfg.always_on c.always_on_setting

  unfoldable pub uses_account_name : Client → Bool
  unfolding is_always_on
  uses_account_name c = c.account != "" && (is_always_on c || cfg.force_nick_equals_account)

  unfoldable pub account_claim : Client → String → Chosen
  account_claim c new_nick =
      if c.registered && new_nick != c.account_name && new_nick != ""
      then rejected nick_account_mismatch
      else elim (skeleton_of c.account_name) [
        | none ↦ rejected nickname_invalid
        | some sk ↦ claim (record { nick = c.account_name; cf = c.account; skeleton = sk })
      ]

  -- The last tests on a name that is chosen freely.
  unfoldable pub free_checks : Client → String → String → String → Chosen
  free_checks c nick cf sk =
      if is_relaymsg_identifier nick
      then rejected nickname_invalid
      else if is_restricted_nick cf || is_restricted_skeleton sk
      then rejected nickname_invalid
      else let owner = strictly_reserved_to cf sk in
        if owner != "" && owner != c.account
        then rejected nickname_reserved
        else claim (record { nick = nick; cf = cf; skeleton = sk })

  unfoldable pub with_folded : Client → String → Option String → Chosen
  with_folded c nick none = rejected nickname_invalid
  with_folded c nick (some cf) =
      if ltb cfg.nick_len (len nick) || ltb cfg.nick_len (len cf)
      then rejected nickname_invalid
      else elim (skeleton_of nick) [
        | none ↦ rejected nickname_invalid
        | some sk ↦ free_checks c nick cf sk
      ]

  -- A guest's name that does not have the guests' format is put into it, and folded again.
  unfoldable pub guest_claim : Client → String → Option String → Chosen
  guest_claim c nick none = rejected nickname_invalid
  guest_claim c nick (some cf) =
      if not (matches_guest cf)
      then with_folded c (as_guest nick) (casefold_name (as_guest nick))
      else if cf == ""
      then with_folded c nick (casefold_name nick)
      else with_folded c nick (some cf)

  unfoldable pub choose : Client → String → Bool → Chosen
  unfolding account_claim free_checks with_folded guest_claim
  choose c new_nick dry_run =
      let nick = trim_space new_nick in
      if uses_account_name c
      then account_claim c new_nick
      else if len nick == 0
      then rejected nick_missing
      else if c.account == "" && cfg.force_guest_format && not dry_run
      then guest_claim c nick (casefold_name nick)
      else with_folded c nick (casefold_name nick)

  abbrev pub is_allowed : MulticlientAllowed → Bool
  is_allowed s = elim s [ allowed_by_user ↦ true | _ ↦ false ]

  abbrev pub is_disallowed : MulticlientAllowed → Bool
  is_disallowed s = elim s [ disallowed_by_user ↦ true | _ ↦ false ]

  unfoldable pub bouncer_allowed : Client → Bool
  unfolding uses_account_name
  bouncer_allowed c =
      cfg.multiclient_enabled
      && (uses_account_name c
          || (cfg.allowed_by_default && not (is_disallowed c.allow_bouncer))
          || is_allowed c.allow_bouncer)

  unfoldable pub after_session :
      Manager → ℕ → Client → Claim → Option (Client × Bool) → Manager × SetNickResult
  after_session m holder c k none = (m, failed nickname_in_use)
  after_session m holder c k (some (h, back)) =
      let h' = record h { realname = if h.realname == "" then c.realname else h.realname } in
      (
        record m { clients = set_client m.clients holder h' },
        reattached k.nick holder (h.sessions == 1) back,
      )

  -- Somebody else holds the name.
  unfoldable pub reattach : Manager → ℕ → Bool → Claim → ℕ → Bool → Manager × SetNickResult
  unfolding after_session bouncer_allowed add_session
  reattach m who has_session k holder dry_run =
      let c = m.clients who in
      let h = m.clients holder in
      if c.registered
        || not (bouncer_allowed c)
        || c.account == ""
        || c.account != h.account
        || dry_run
        || not has_session
      then (m, failed nickname_in_use)
      else if not (same_bool c.is_tls h.is_tls)
      then (m, failed (if uses_account_name c then insecure_reattach else nickname_in_use))
      else after_session m holder c k (add_session h)

  unfoldable pub take_name : Manager → ℕ → Claim → Option Client → Manager × SetNickResult
  take_name m who k none = (m, failed client_destroyed)
  take_name m who k (some c') =
      let c = m.clients who in
      let m' =
        (remove_internal (record m { clients = set_client m.clients who c' }) who c.nick_casefolded
          c.skeleton).0 in
      (
        record m' {
          by_nick = insert m'.by_nick k.cf who;
          by_skeleton = insert m'.by_skeleton k.skeleton who;
        },
        changed k.nick,
      )

  -- The name is free, or the client's own.
  unfoldable pub take : Manager → ℕ → Claim → Bool → Manager × SetNickResult
  unfolding take_name client_set_nick remove_internal
  take m who k dry_run =
      if held_by_other m.by_skeleton k.skeleton who
      then (m, failed nickname_in_use)
      else if dry_run
      then (m, dry_run_passed)
      else take_name m who k (client_set_nick (m.clients who) k.nick k.cf k.skeleton)

  unfoldable pub claim_name : Manager → ℕ → Bool → Bool → Claim → Option ℕ → Manager × SetNickResult
  claim_name m who has_session dry_run k none = take m who k dry_run
  claim_name m who has_session dry_run k (some holder) =
      if holder == who
      then (if (m.clients who).nick == k.nick then (m, failed no_op) else take m who k dry_run)
      else reattach m who has_session k holder dry_run

  unfoldable pub claim_chosen : Manager → ℕ → Bool → Bool → Chosen → Manager × SetNickResult
  claim_chosen m who has_session dry_run (rejected e) = (m, failed e)
  claim_chosen m who has_session dry_run (claim k) =
      claim_name m who has_session dry_run k (lookup m.by_nick k.cf)

  unfoldable pub set_nick : Manager → ℕ → Bool → String → Bool → Manager × SetNickResult
  unfolding claim_chosen claim_name
  set_nick m who has_session new_nick dry_run =
      claim_chosen m who has_session dry_run (choose (m.clients who) new_nick dry_run)
