-- ===== src/Channel/Membership/Admission.antt =====
-- Whom Join lets in.
use oragono.Prelude.{
  ℕ, zero, suc, ◌+◌, ◌<◌, String, ◌≡◌, refl, ◌≢◌, ◌↔◌, ◌⊎◌, inl, inr, Bool, true, false, not, ◌&&◌,
  ◌||◌, Option, none, some, arith, ltb, if◌then◌else◌, length, nat_eq, string_eq,
}
use oragono.Prelude.GoMap.{lookup, has}
use oragono.Prelude.Int.{ℤ, pos, negsuc}
use oragono.Modes.Letters.{voice, no_mode, invite_only, registered_only}
use oragono.Modes.ModeSet.{has_mode}
use oragono.Masks.{RegexpPackage, match}
use oragono.Channel.State.{Config, Client, ChannelInvite, Channel, Net, persistent_mode}
use oragono.Channel.Access.{has_client}
use oragono.Channel.Membership.{
  JoinError, JoinOutcome, refused, joined, already_joined, add_channel, over_limit, join_refusal,
  test_privs, admit, enter, join,
}

-- A limit of 0 is none; a negative one keeps everybody out.
abbrev pub HasRoom : ℤ → ℕ → Type 0
HasRoom (pos n) count = (n ≡ 0) ⊎ (count < n)
HasRoom (negsuc n) count = ⊥

over_limit-HasRoom : (l : ℤ) (count : ℕ) → (over_limit l count ≡ false) ↔ HasRoom l count
unfolding over_limit
over_limit-HasRoom (pos zero) count = ground arith
over_limit-HasRoom (pos (suc n)) count = ground arith
over_limit-HasRoom (negsuc n) count = ground arith

-- The conditions on a client without privileges: the channel is not full, the key is right, +i is
-- matched by an invite mask, a ban by an exception or an invite mask, and under +R, or in a defence
-- condition of 2 or less, the client is logged in.
pub record IsAdmissible (re : RegexpPackage) (cfg : Config) (ch : Channel) (c : Client)
    (key : String) : Type 0 where
  pub has_room : HasRoom ch.user_limit (length ch.members)
  pub right_key : (ch.key ≡ "") ⊎ (ch.key ≡ key)
  pub is_invited :
      has_mode ch.flags invite_only ≡ true → match re ch.invites c.nick_mask_casefolded ≡ true
  pub not_banned :
      match re ch.bans c.nick_mask_casefolded ≡ true
      → (match re ch.excepts c.nick_mask_casefolded ≡ true)
        ⊎ (match re ch.invites c.nick_mask_casefolded ≡ true)
  pub is_known : (c.account ≢ "") ⊎ ((has_mode ch.flags registered_only ≡ false) × (2 < cfg.defcon))

module _ (re : RegexpPackage) (cfg : Config) (self : ℕ) where
  -- The order of the checks does not matter for whether there is a refusal.
  refusal-IsAdmissible :
      (ch : Channel) (c : Client) (key : String)
      → join_refusal re cfg self ch c key ≡ none
      → IsAdmissible re cfg ch c key
  unfolding join_refusal
  refusal-IsAdmissible ch c key h = record {
    has_room = (over_limit-HasRoom ch.user_limit (length ch.members)).0 (ground arith);
    right_key = ground (arith, string_eq.equals_iff ch.key "", string_eq.equals_iff ch.key key);
    is_invited = ground arith;
    not_banned = ground arith;
    is_known = ground (arith, string_eq.equals_iff c.account "");
  }

  admissible-no_refusal :
      (ch : Channel) (c : Client) (key : String)
      → IsAdmissible re cfg ch c key
      → join_refusal re cfg self ch c key ≡ none
  unfolding join_refusal
  admissible-no_refusal ch c key a = ground (
    arith,
    (over_limit-HasRoom ch.user_limit (length ch.members)).1 a.has_room,
    string_eq.equals_iff ch.key "",
    string_eq.equals_iff ch.key key,
    string_eq.equals_iff c.account "",
    a.right_key,
    a.is_invited,
    a.not_banned,
    a.is_known,
  )

  -- What lets a client pass without the checks.
  abbrev pub passes : Channel → Client → Bool → ℕ → Bool
  passes ch c is_sajoin now = (test_privs re cfg self ch c is_sajoin now).1

  abbrev pub was_joined : JoinOutcome → Bool
  was_joined already_joined = false
  was_joined (refused e) = false
  was_joined (joined m l b) = true

  -- The client after the test for privileges.
  abbrev pub tested : Net → ℕ → Bool → ℕ → Client
  tested net who is_sajoin now =
      (test_privs re cfg self net.channel (net.clients who) is_sajoin now).0

  tested_same :
      (ch : Channel) (c : Client) (is_sajoin : Bool) (now : ℕ)
      → let t = (test_privs re cfg self ch c is_sajoin now).0 in
        (t.destroyed ≡ c.destroyed)
        × (t.is_oper ≡ c.is_oper)
        × (t.channels ≡ c.channels)
        × (t.account ≡ c.account)
  unfolding test_privs
  tested_same ch c is_sajoin now = ground arith

  -- Who passes without the checks is let in by SAJOIN, or is the founder of the registered channel, or is
  -- to be given halfop or more, or has an invitation that has not expired and is for this very channel.
  passes_lem :
      (ch : Channel) (c : Client) (is_sajoin : Bool) (now : ℕ)
      → passes ch c is_sajoin now ≡ true
      → (is_sajoin ≡ true)
        ⊎ ((ch.registered_founder ≢ "") × (ch.registered_founder ≡ c.account))
        ⊎ ((persistent_mode ch c.account ≢ no_mode) × (persistent_mode ch c.account ≢ voice))
        ⊎ ((inv : ChannelInvite) × (lookup c.invited_to ch.name_casefolded ≡ some inv)
            × (ch.created_time ≡ inv.channel_created_at)
            × ((cfg.invite_expiration ≡ 0) ⊎ (now < inv.invited_at + cfg.invite_expiration)))
  unfolding test_privs
  passes_lem ch c is_sajoin now h = ground (
    arith,
    string_eq.equals_iff ch.registered_founder "",
    string_eq.equals_iff ch.registered_founder c.account,
  )

  enter-joined :
      (net : Net) (who : ℕ) (simulated : Bool) (c : Client)
      → was_joined (enter re cfg self net who simulated c).1
        ≡ (not c.destroyed && (c.is_oper || ltb (length c.channels) cfg.max_channels_per_client))
  unfolding enter add_channel
  enter-joined net who simulated c = ground arith

  admit-joined :
      (net : Net) (who : ℕ) (simulated : Bool) (t : Client × Bool) (r : Option JoinError)
      → was_joined (admit re cfg self net who simulated t r).1 ≡ true
      → ((t.1 ≡ true) ⊎ (r ≡ none))
        × (admit re cfg self net who simulated t r ≡ enter re cfg self net who simulated t.0)
  unfolding admit
  admit-joined net who simulated (c, true) r h = (inl refl, refl)
  admit-joined net who simulated (c, false) none h = (inr refl, refl)
  admit-joined net who simulated (c, false) (some e) h = cc

  joined-admit :
      (net : Net) (who : ℕ) (simulated : Bool) (t : Client × Bool) (r : Option JoinError)
      → (t.1 ≡ true) ⊎ (r ≡ none)
      → admit re cfg self net who simulated t r ≡ enter re cfg self net who simulated t.0
  unfolding admit
  joined-admit net who simulated (c, true) r h = refl
  joined-admit net who simulated (c, false) none h = refl
  joined-admit net who simulated (c, false) (some e) h = ground arith

  pub join_lem :
      (net : Net) (who : ℕ) (key : String) (is_sajoin simulated : Bool) (now : ℕ)
      → let ch = net.channel in
        let c = net.clients who in
        join re cfg self net who key is_sajoin simulated now ≡ (
          if has ch.members who
          then (net, already_joined)
          else admit re cfg self net who simulated
              (test_privs re cfg self ch c is_sajoin now)
              (join_refusal re cfg self ch c key))
  unfolding join has_client
  join_lem net who key is_sajoin simulated now = refl

  -- A join that succeeds is an entry of the tested client.
  pub join-enter :
      (net : Net) (who : ℕ) (key : String) (is_sajoin simulated : Bool) (now : ℕ)
      → was_joined (join re cfg self net who key is_sajoin simulated now).1 ≡ true
      → (has net.channel.members who ≡ false)
        × ((passes net.channel (net.clients who) is_sajoin now ≡ true)
            ⊎ (join_refusal re cfg self net.channel (net.clients who) key ≡ none))
        × (join re cfg self net who key is_sajoin simulated now
            ≡ enter re cfg self net who simulated (tested net who is_sajoin now))
  join-enter net who key is_sajoin simulated now h =
      let t = test_privs re cfg self net.channel (net.clients who) is_sajoin now in
      let r = join_refusal re cfg self net.channel (net.clients who) key in
      ground
        (arith, join_lem net who key is_sajoin simulated now, admit-joined net who simulated t r)

  -- Nobody joins who is not let in: who joins has passed without the checks, or meets them all; he was
  -- no member, is not being disconnected, and is an operator or has a channel left.
  pub join-IsAdmissible :
      (net : Net) (who : ℕ) (key : String) (is_sajoin simulated : Bool) (now : ℕ)
      → was_joined (join re cfg self net who key is_sajoin simulated now).1 ≡ true
      → let c = net.clients who in
        (has net.channel.members who ≡ false)
        × ((passes net.channel c is_sajoin now ≡ true) ⊎ IsAdmissible re cfg net.channel c key)
        × (c.destroyed ≡ false)
        × ((c.is_oper ≡ true) ⊎ (length c.channels < cfg.max_channels_per_client))
  join-IsAdmissible net who key is_sajoin simulated now h =
      let (fresh, way, same) = join-enter net who key is_sajoin simulated now h in
      let entered = enter-joined net who simulated (tested net who is_sajoin now) in
      let fields = tested_same net.channel (net.clients who) is_sajoin now in
      (
        fresh,
        ground (arith, way, refusal-IsAdmissible net.channel (net.clients who) key),
        ground (arith, same, h, entered, fields),
        ground (arith, same, h, entered, fields),
      )

  -- Everybody joins who is let in: a client who is no member, passes without the checks or meets
  -- them all, is not being disconnected, and is an operator or has a channel left.
  pub admissible-join :
      (net : Net) (who : ℕ) (key : String) (is_sajoin simulated : Bool) (now : ℕ)
      → let c = net.clients who in
        has net.channel.members who ≡ false
        → (passes net.channel c is_sajoin now ≡ true) ⊎ IsAdmissible re cfg net.channel c key
        → c.destroyed ≡ false
        → (c.is_oper ≡ true) ⊎ (length c.channels < cfg.max_channels_per_client)
        → was_joined (join re cfg self net who key is_sajoin simulated now).1 ≡ true
  admissible-join net who key is_sajoin simulated now fresh way alive room =
      let t = test_privs re cfg self net.channel (net.clients who) is_sajoin now in
      let r = join_refusal re cfg self net.channel (net.clients who) key in
      let entry = joined-admit net who simulated t r (let_in way) in
      let entered = enter-joined net who simulated t.0 in
      let fields = tested_same net.channel (net.clients who) is_sajoin now in
      ground (arith, join_lem net who key is_sajoin simulated now, entry, entered, fields)
    where
      let_in :
          (passes net.channel (net.clients who) is_sajoin now ≡ true)
            ⊎ IsAdmissible re cfg net.channel (net.clients who) key
          → (passes net.channel (net.clients who) is_sajoin now ≡ true)
            ⊎ (join_refusal re cfg self net.channel (net.clients who) key ≡ none)
      let_in (inl p) = inl p
      let_in (inr a) = inr (admissible-no_refusal net.channel (net.clients who) key a)
