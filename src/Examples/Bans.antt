-- ===== src/Examples/Bans.antt =====
-- Bans and resume tokens on which the theorems are run.
use oragono.Prelude.{
  ℕ, String, ◌≡◌, refl, ◌↔◌, inr, true, false, none, some, [], ◌∷◌, ◌++◌, arith, leb, replicate,
  nat_eq, string_eq,
}
use oragono.Prelude.GoMap.{lookup, insert, distinct}
use oragono.Masks.{Regexp, runes, compile_glob}
use oragono.Limits.Flatip.{Ip, IpNet, bytes_eq, contains}
use oragono.Bans.Info.{IpBanInfo, StoredBan, Returns, is_some}
use oragono.Bans.Dline.{
  DLineManager, net_eq, is_loopback, check_ip, new_dline_manager, add_network, process_expiration,
  remove_network,
}
use oragono.Bans.Dline.Check.{ban_lifecycle}
use oragono.Bans.Dline.Restart
use oragono.Bans.Dline.Stored.{named, outlasts}
use oragono.Bans.Dline.Restart.{Keeps, restart-networks}
use oragono.Bans.Kline.{
  KLineInfo, KLineManager, check_masks, matches_any, new_kline_manager, add_mask,
}
use oragono.Bans.Kline.Matching
use oragono.Bans.Kline.Matching.{check_masks_iff}
use oragono.Resume.{Bytes, ResumeManager, generate_token, verify_token}
use oragono.Resume.Tokens.{IsOwned, generates, Step-IsOwned, verify_token-once}
use oragono.Examples.Setting.{plain_text}

abbrev suspect : Ip
suspect = 0 ∷ 0 ∷ 0 ∷ 0 ∷ 0 ∷ 0 ∷ 0 ∷ 0 ∷ 0 ∷ 0 ∷ 255 ∷ 255 ∷ 192 ∷ 0 ∷ 2 ∷ 7 ∷ []

-- 192.0.2.0/24
abbrev bad_net : IpNet
bad_net = record {
  ip = 0 ∷ 0 ∷ 0 ∷ 0 ∷ 0 ∷ 0 ∷ 0 ∷ 0 ∷ 0 ∷ 0 ∷ 255 ∷ 255 ∷ 192 ∷ 0 ∷ 2 ∷ 0 ∷ [];
  prefix_len = 120;
}

abbrev no_dlines : DLineManager
no_dlines = record { networks = []; expiration_timers = []; store = [] }

abbrev spam_ban : IpBanInfo
spam_ban = record {
  reason = "spam";
  oper_reason = "";
  oper_name = "carol";
  time_created = 10;
  duration = 50;
}

nothing_banned : (k : IpNet) (i : IpBanInfo) → lookup no_dlines.networks k ≡ some i → k ≡ bad_net
unfolding lookup
nothing_banned k i p = ground (arith, p)

ban_lifecycle_example :
    let dm' = (add_network no_dlines bad_net 50 "spam" "" "carol" 10 11 12 true).0 in
    (is_some (check_ip dm' suspect) ≡ true)
    × (is_some (check_ip (process_expiration dm' bad_net 3) suspect) ≡ true)
    × (is_some (check_ip (process_expiration dm' bad_net 10) suspect) ≡ false)
    × (is_some (check_ip (remove_network dm' bad_net true).0 suspect) ≡ false)
unfolding is_loopback contains
ban_lifecycle_example =
    ban_lifecycle no_dlines bad_net suspect 50 "spam" "" "carol" 10 11 12 true 3 true
      (inr (ground arith)) refl refl (ground arith) (λ k i p q. nothing_banned k i p)

-- A database that returns an entry until the time at which it expires.
abbrev until_expired : Returns
until_expired s now = elim s.expires [ none ↦ true | some t ↦ leb now t ]

until_expired-Keeps : Keeps until_expired 5
until_expired-Keeps = record {
  permanent = λ s now e. ground (arith, e);
  temporary = λ s now t e later. ground (arith, e, later);
}

nothing_stored : (net : IpNet) (s : StoredBan) → lookup [] net ≡ some s → outlasts s ≡ true
unfolding lookup
nothing_stored net s p = ground (arith, p)

restart-networks_example :
    let dm =
      (add_network
        (new_dline_manager until_expired [] "irc.test" 5)
        bad_net
        50
        "spam"
        ""
        "carol"
        10
        11
        12
        true).0 in
    lookup (new_dline_manager until_expired dm.store "irc.test" 30).networks bad_net
    ≡ some (named "irc.test" spam_ban)
unfolding distinct add_network insert new_dline_manager
restart-networks_example =
    restart-networks {server = "irc.test"} until_expired 5 bad_net spam_ban 30 until_expired-Keeps
      (Restart.added bad_net 50 "spam" "" "carol" 10 11 12 (inr (ground arith)) (ground arith)
        (Restart.started until_expired [] 5 refl nothing_stored))
      refl refl

abbrev one_kline : KLineManager
one_kline =
    (add_mask plain_text (new_kline_manager plain_text until_expired [] "irc.test" 5) "bad" 0 "spam"
      "" "carol" 10 11 12 false).0

check_masks_iff_example : (is_some (check_masks plain_text one_kline ("^bad$" ∷ [])) ≡ true) ↔ (
    (mask : String) × (ban : KLineInfo) × (expr : Regexp) × (lookup one_kline.entries mask
      ≡ some ban)
    × (compile_glob plain_text (runes mask) false ≡ some expr)
    × (matches_any plain_text expr ("^bad$" ∷ []) ≡ true))
check_masks_iff_example =
    check_masks_iff plain_text {server = "irc.test"} ("^bad$" ∷ []) (
      Matching.added "bad" 0 "spam" "" "carol" 10 11 12 false (Matching.started until_expired [] 5))

abbrev nobody : ResumeManager
nobody = record { resume_id_to_creds = []; resume_ids = λ c. []; registered = λ c. true }

abbrev half : ℕ → Bytes
half b = replicate 26 b

abbrev issued : ResumeManager
issued = (generate_token nobody 1 (half 97) (half 98)).0

nobody-IsOwned : IsOwned nobody
unfolding lookup
nobody-IsOwned id pair p = ground (arith, p)

verify_token-once_example :
    (verify_token (verify_token issued 2 (half 97 ++ half 98)).0 3 (half 97 ++ half 98)).1 ≡ none
unfolding verify_token lookup generate_token insert
verify_token-once_example = verify_token-once issued 2 3 (half 97 ++ half 98) 1 refl

Step-IsOwned_example : IsOwned issued
Step-IsOwned_example =
    Step-IsOwned (generates {rm = nobody} 1 (half 97) (half 98) (λ e. ground (arith, e)))
      nobody-IsOwned
