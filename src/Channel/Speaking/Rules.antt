-- ===== src/Channel/Speaking/Rules.antt =====
-- Who may speak on a channel, and who hears it.
use oragono.Prelude.{
  ℕ, ◌≡◌, ◌≢◌, Bool, true, false, ◌&&◌, ◌||◌, none, some, List, arith, if◌then◌else◌, get_elem?,
  ◌==◌, nat_eq, string_eq,
}
use oragono.Modes.Letters.{Mode, no_mode, moderated, registered_only, registered_only_speak}
use oragono.Modes.ModeSet.{ModeSet, has_mode}
use oragono.Masks.{RegexpPackage}
use oragono.Channel.State.{Client, Channel, Net, highest_member_mode, holds}
use oragono.Channel.Access.{client_is_at_least}
use oragono.Channel.Speaking.{is_muted, can_speak, Session}

module _ (re : RegexpPackage) where
  -- Under +M, where a member is not logged in, is not muted, and the channel is neither +R nor +m:
  -- he is refused if he has a status, voice included, and may speak if he has none.
  pub registered_only_speak_inverted :
      (ch : Channel) (c : Client) (s : ModeSet)
      → has_mode ch.flags registered_only_speak ≡ true
      → has_mode ch.flags registered_only ≡ false
      → has_mode ch.flags moderated ≡ false
      → is_muted re ch c ≡ false
      → c.account ≡ ""
      → can_speak re ch c (some s)
        ≡ (if highest_member_mode (some s) == no_mode then none else some registered_only_speak)
  unfolding can_speak
  registered_only_speak_inverted ch c s m r o u a =
      ground (arith, string_eq.equals_iff c.account "")

-- A session of the list gets the message under its address.
abbrev pub Told : ℕ → Bool → List Session → ℕ → Type 0
Told own is_ctcp ss j =
    (i : ℕ) × (s : Session) × (get_elem? ss i ≡ some s)
    × (s.address ≡ j)
    × (j ≢ own)
    × ((is_ctcp && s.is_tor) ≡ false)

-- One of the members has at least the status `m`, or none is asked, and one of that member's sessions gets
-- the message.
abbrev pub Heard : Net → (ℕ → List Session) → ℕ → Mode → Bool → List ℕ → ℕ → Type 0
Heard net sessions own m is_ctcp ms j =
    (member : ℕ) × (holds member ms ≡ true)
    × ((m == no_mode || client_is_at_least net member m) ≡ true)
    × Told own is_ctcp (sessions member) j
