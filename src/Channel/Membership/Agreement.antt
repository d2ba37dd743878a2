-- ===== src/Channel/Membership/Agreement.antt =====
-- The channel's list of members, its cache, and the clients' lists of channels say the same.
use oragono.Prelude.{
  ℕ, String, ◌≡◌, refl, ◌≢◌, ◌⊎◌, inl, inr, Bool, true, false, Option, none, some, arith,
  if◌then◌else◌, nat_beq_iff, Bool-cases, ◌==◌, nat_eq, string_eq,
}
use oragono.Prelude.GoMap.{GoMap, has, insert, lookup-insert, lookup-delete, lookup-insert_self}
use oragono.Modes.Letters.{Mode}
use oragono.Modes.ModeSet.{new_mode_set}
use oragono.Masks.{RegexpPackage}
use oragono.Channel.State.{Config, Client, Channel, Net, set_client, keys, persistent_mode}
use oragono.Channel.Membership.Admission.{join_lem}
use oragono.Channel.Access.{has_client}
use oragono.Channel.Membership.{
  JoinError, test_privs, admit, add_channel, add_member, fresh_modes, enter, join, remove_channel,
  quit, part, kick,
}

pub record InSync (self : ℕ) (net : Net) : Type 0 where
  pub cached : net.channel.members_cache ≡ keys net.channel.members
  pub agreed : (who : ℕ) → has net.channel.members who ≡ has (net.clients who).channels self

has-insert :
    {V : Type 0} (m : GoMap ℕ V) (k j : ℕ) (v : V)
    → has (insert m k v) j ≡ (if k == j then true else has m j)
has-insert m k j v = ground (arith, lookup-insert m k j v)

module _ (re : RegexpPackage) (cfg : Config) (self : ℕ) where
  add_channel-channels :
      (c : Client) (simulated : Bool)
      → let (c', failure) = add_channel cfg c self simulated in
        (failure ≡ none → has c'.channels self ≡ true) × (failure ≢ none → c' ≡ c)
  unfolding add_channel
  add_channel-channels c simulated = ground (arith, lookup-insert_self c.channels self tt)

  add_member-members :
      (ch : Channel) (who j : ℕ) (m : Mode)
      → let ch' = (add_member re cfg self ch who m).0 in
        (has ch'.members j ≡ (if who == j then true else has ch.members j))
        × (ch'.members_cache ≡ keys ch'.members)
  unfolding add_member
  add_member-members ch who j m =
      let members = insert ch.members who new_mode_set in
      (
        ground (
          arith,
          has-insert members who j (fresh_modes (add_member re cfg self ch who m).1),
          has-insert ch.members who j new_mode_set,
        ),
        ground arith,
      )

  test_privs-channels :
      (ch : Channel) (c : Client) (is_sajoin : Bool) (now : ℕ)
      → (test_privs re cfg self ch c is_sajoin now).0.channels ≡ c.channels
  unfolding test_privs
  test_privs-channels ch c is_sajoin now = ground arith

  -- An entry that succeeds or fails.
  enter-InSync :
      (net : Net) (who : ℕ) (simulated : Bool) (c : Client)
      → c.channels ≡ (net.clients who).channels
      → InSync self net
      → InSync self (enter re cfg self net who simulated c).0
  unfolding enter set_client
  enter-InSync net who simulated c same s = record {
    cached = ground (
      arith,
      s.cached,
      add_member-members net.channel who who (persistent_mode net.channel c.account),
    );
    agreed = λ j. ground (
      arith,
      s.agreed j,
      add_channel-channels c simulated,
      add_member-members net.channel who j (persistent_mode net.channel c.account),
      nat_beq_iff who j,
    );
  }

  remove_channel-channels : (c : Client) → has (remove_channel c self).channels self ≡ false
  unfolding remove_channel
  remove_channel-channels c = ground (arith, lookup-delete c.channels self self)

  pub quit-InSync :
      (net : Net) (who : ℕ) → InSync self net → InSync self (quit re cfg self net who).0
  unfolding quit set_client
  quit-InSync net who s = record {
    cached = refl;
    agreed = λ j. ground (
      arith,
      s.agreed j,
      lookup-delete net.channel.members who j,
      remove_channel-channels (net.clients who),
      nat_beq_iff who j,
    );
  }

  admit-InSync :
      (net : Net) (who : ℕ) (simulated : Bool) (t : Client × Bool) (r : Option JoinError)
      → t.0.channels ≡ (net.clients who).channels
      → InSync self net
      → InSync self (admit re cfg self net who simulated t r).0
  unfolding admit set_client
  admit-InSync net who simulated (c, true) r e s = enter-InSync net who simulated c e s
  admit-InSync net who simulated (c, false) none e s = enter-InSync net who simulated c e s
  admit-InSync net who simulated (c, false) (some x) e s = record {
    cached = s.cached;
    agreed = λ j. ground (arith, s.agreed j, nat_beq_iff who j);
  }

  -- Join keeps the lists of members and of channels in agreement, whether it succeeds or not.
  pub join-InSync :
      (net : Net) (who : ℕ) (key : String) (is_sajoin simulated : Bool) (now : ℕ)
      → InSync self net
      → InSync self (join re cfg self net who key is_sajoin simulated now).0
  join-InSync net who key is_sajoin simulated now s =
      elim (Bool-cases (has net.channel.members who)) [
        | inl old ↦ rw (join_lem re cfg self net who key is_sajoin simulated now, old) s
        | inr fresh ↦
            rw (join_lem re cfg self net who key is_sajoin simulated now, fresh)
              (admit-InSync net who simulated _ _
                (test_privs-channels net.channel (net.clients who) is_sajoin now) s)
      ]

  pub part-InSync :
      (net : Net) (who : ℕ) → InSync self net → InSync self (part re cfg self net who).0
  unfolding part
  part-InSync net who s = elim (Bool-cases (has_client net.channel who)) [
    | inl old ↦ rw old (quit-InSync net who s)
    | inr fresh ↦ rw fresh s
  ]

  kick_cases :
      (net : Net) (who target : ℕ) (p : Bool)
      → ((kick re cfg self net who target p).0 ≡ net)
        ⊎ ((kick re cfg self net who target p).0 ≡ (quit re cfg self net target).0)
  unfolding kick
  kick_cases net who target p = ground arith

  pub kick-InSync :
      (net : Net) (who target : ℕ) (has_privs : Bool)
      → InSync self net
      → InSync self (kick re cfg self net who target has_privs).0
  kick-InSync net who target p s = elim (kick_cases net who target p) [
    | inl e ↦ rw e s
    | inr e ↦ rw e (quit-InSync net target s)
  ]

  -- What may happen to the members, in any order.
  pub data Step : Net → Net → Type 0 where
    joins :
        (net : Net) (who : ℕ) (key : String) (is_sajoin simulated : Bool) (now : ℕ)
        → Step net (join re cfg self net who key is_sajoin simulated now).0
    parts : (net : Net) (who : ℕ) → Step net (part re cfg self net who).0
    quits : (net : Net) (who : ℕ) → Step net (quit re cfg self net who).0
    kicks :
        (net : Net) (who target : ℕ) (has_privs : Bool)
        → Step net (kick re cfg self net who target has_privs).0

  pub data Reach (start : Net) : Net → Type 0 where
    here : Reach start start
    next : {net net' : Net} → Reach start net → Step net net' → Reach start net'

  Step-InSync : {net net' : Net} → Step net net' → InSync self net → InSync self net'
  Step-InSync (joins net who key is_sajoin simulated now) s =
      join-InSync net who key is_sajoin simulated now s
  Step-InSync (parts net who) s = part-InSync net who s
  Step-InSync (quits net who) s = quit-InSync net who s
  Step-InSync (kicks net who target has_privs) s = kick-InSync net who target has_privs s

  -- However clients join, leave, quit and are kicked, in whatever order and with whatever success: a
  -- client is on the channel's list of members exactly when the channel is on his list of channels, and
  -- the cache holds exactly the members, if this was so at the start.
  pub Reach-InSync : {start net : Net} → Reach start net → InSync self start → InSync self net
  Reach-InSync here s = s
  Reach-InSync (next r st) s = Step-InSync st (Reach-InSync r s)
