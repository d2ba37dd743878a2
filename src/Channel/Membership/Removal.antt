-- ===== src/Channel/Membership/Removal.antt =====
-- What a kick needs and does.
use oragono.Prelude.{
  ℕ, ◌≡◌, Bool, true, false, ◌&&◌, ◌||◌, none, arith, if◌then◌else◌, nat_beq_iff, ◌==◌, nat_eq,
  string_eq,
}
use oragono.Prelude.GoMap.{lookup, has, delete, lookup-delete}
use oragono.Modes.Letters.{operator}
use oragono.Modes.ModeSet.{has_mode}
use oragono.Masks.{RegexpPackage}
use oragono.Channel.State.{Config, Net, set_client}
use oragono.Channel.Access.{has_client, client_has_privs_over}
use oragono.Channel.Membership.{LeaveOutcome, left, quit, kick, remove_channel}

module _ (re : RegexpPackage) (cfg : Config) (self : ℕ) where
  -- May `who` kick at all: a member or a server operator with privileges over the target, or by order
  -- of a service.
  abbrev pub may_kick : Net → ℕ → ℕ → Bool → Bool
  may_kick net who target has_privs =
      has_privs
      || ((has_mode (net.clients who).modes operator || has net.channel.members who)
          && client_has_privs_over net who target)

  abbrev pub has_left : LeaveOutcome → Bool
  has_left (left l b e) = true
  has_left _ = false

  -- A kick succeeds exactly when the asker may kick and the target is a member. It then removes this
  -- member from the channel and the channel from his list; everybody else stays with the same modes.
  -- A kick that fails removes nobody.
  pub kick_lem :
      (net : Net) (who target j : ℕ) (has_privs : Bool)
      → let (net', outcome) = kick re cfg self net who target has_privs in
        let done = may_kick net who target has_privs && has net.channel.members target in
        (has_left outcome ≡ done)
        × (lookup net'.channel.members j
            ≡ (if done && target == j then none else lookup net.channel.members j))
        × ((net'.clients j).channels ≡ (
            if done && target == j
            then delete (net.clients j).channels self
            else (net.clients j).channels))
  unfolding kick quit set_client remove_channel has_client
  kick_lem net who target j has_privs = (
    ground arith,
    ground (arith, lookup-delete net.channel.members target j),
    ground (arith, nat_beq_iff target j),
  )
