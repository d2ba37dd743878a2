-- ===== src/Channel/ModeChanges/Guards.antt =====
-- What the mode changes of a client may do to a channel, and what they leave alone.
use oragono.Prelude.{
  ℕ, String, ◌≡◌, refl, sym, subst, ◌∙◌, ◌⊎◌, inl, inr, true, false, ◌&&◌, none, some, List, [],
  ◌∷◌, arith, if◌then◌else◌, Bool-cases, Option-cases, ◌==◌, ◌!=◌, nat_eq, string_eq,
}
use oragono.Prelude.GoMap.{lookup, has}
use oragono.Modes.Letters.{
  Mode, ModeOp, add, list, remove, ModeChange, channel_operator, channel_user_modes, no_mode,
}
use oragono.Modes.Privileges.{has_privs_over}
use oragono.Masks.{RegexpPackage}
use oragono.Channel.State.{Net, Config, highest_member_mode, has_member_mode}
use oragono.Channel.Access.{client_is_at_least, is_founder, holds_down_to}
use oragono.Channel.ModeChanges.{
  Texts, is_op, is_member_mode, has_privs, apply_to_target, apply_mode_to_member, apply_user_limit,
  apply_key, apply_mask, apply_flag, apply_change, apply_changes, include_flags,
  apply_channel_mode_changes,
}

no_status_held : (p : Mode) (ms : List Mode) → holds_down_to none p ms ≡ false
unfolding holds_down_to has_member_mode
no_status_held p [] = refl
no_status_held p (m ∷ ms) = ground (arith, no_status_held p ms)

outsider_rank :
    (net : Net) (who : ℕ) (p : Mode)
    → has net.channel.members who ≡ false
    → is_founder net.channel (net.clients who) ≡ false
    → (client_is_at_least net who p ≡ false)
      × ((highest_member_mode (lookup net.channel.members who) ≡ no_mode)
          × (((net.clients who).account != ""
                && (net.clients who).account == net.channel.registered_founder)
              ≡ false))
unfolding client_is_at_least highest_member_mode is_founder
outsider_rank net who p outside other = elim (Option-cases (lookup net.channel.members who)) [
  | inl missing ↦ ground (
    arith,
    missing,
    other,
    no_status_held p channel_user_modes,
    string_eq.equals_iff (net.clients who).account net.channel.registered_founder,
    string_eq.equals_iff net.channel.registered_founder (net.clients who).account,
    string_eq.equals_iff net.channel.registered_founder "",
    string_eq.equals_iff (net.clients who).account "",
  )
  | inr (s, there) ↦ ground (arith, there, outside)
]

module _ (re : RegexpPackage) (env : Texts) (cfg : Config) where
  -- Someone who is no member, not the founder and not forcing the change, has no privileges but to list, or to
  -- ask for a status to be taken from oneself.
  outsider_privs :
      (net : Net) (who : ℕ) (change : ModeChange)
      → has net.channel.members who ≡ false
      → is_founder net.channel (net.clients who) ≡ false
      → has_privs env net who false change ≡ true
      → (is_op change.op list ≡ true)
        ⊎ ((is_member_mode change.mode ≡ true)
            × (env.casefold_name change.arg ≡ (net.clients who).nick_casefolded))
  unfolding has_privs has_privs_over
  outsider_privs net who change outside other privs =
      let r = outsider_rank net who channel_operator outside other in
      ground (
        arith,
        r.0,
        r.1.0,
        r.1.1,
        privs,
        string_eq.equals_iff (env.casefold_name change.arg) (net.clients who).nick_casefolded,
      )

  op_list : (o : ModeOp) → is_op o list ≡ true → (is_op o add ≡ false) × (is_op o remove ≡ false)
  op_list list lists = (refl, refl)
  op_list add lists = ground (arith, lists)
  op_list remove lists = ground (arith, lists)

  listing_changes_nothing :
      (net : Net) (who now : ℕ) (change : ModeChange)
      → is_op change.op list ≡ true
      → apply_change re env cfg net who now change ≡ (net, none)
  unfolding apply_change apply_mask apply_user_limit apply_key apply_flag
  listing_changes_nothing net who now change lists = ground (arith, lists, op_list change.op)

  -- A status is not taken from a client who is no member.
  absent_target :
      (net : Net) (who now : ℕ) (change : ModeChange)
      → is_member_mode change.mode ≡ true
      → ((t : ℕ) → env.client_named change.arg ≡ some t → has net.channel.members t ≡ false)
      → apply_change re env cfg net who now change ≡ (net, none)
  unfolding apply_change apply_mode_to_member apply_to_target
  absent_target net who now change member absent =
      elim (Option-cases (env.client_named change.arg)) [
        | inl missing ↦ ground (arith, member, missing)
        | inr (t, found) ↦ ground (arith, member, found, absent t found)
      ]

  -- One change that is asked for by someone who is no member.
  outsider_change :
      (net : Net) (who now : ℕ) (change : ModeChange)
      → has net.channel.members who ≡ false
      → is_founder net.channel (net.clients who) ≡ false
      → ((t : ℕ)
          → env.client_named change.arg ≡ some t
          → env.casefold_name change.arg ≡ (net.clients t).nick_casefolded)
      → ((t : ℕ) → (net.clients t).nick_casefolded ≡ (net.clients who).nick_casefolded → t ≡ who)
      → (if has_privs env net who false change
          then apply_change re env cfg net who now change
          else (net, none))
        ≡ (net, none)
  outsider_change net who now change outside other named unique =
      elim (Bool-cases (has_privs env net who false change)) [
        | inr refused ↦ rw refused refl
        | inl privs ↦ rw privs (elim (outsider_privs net who change outside other privs) [
          | inl lists ↦ listing_changes_nothing net who now change lists
          | inr (member, self) ↦ absent_target net who now change member (λ t found.
              subst (λ (w : ℕ). has net.channel.members w ≡ false)
                (sym (unique t (sym (named t found) ∙ self))) outside)
        ])
      ]

  outsider_changes :
      (net : Net) (who now : ℕ) (changes : List ModeChange)
      → has net.channel.members who ≡ false
      → is_founder net.channel (net.clients who) ≡ false
      → ((nick : String) (t : ℕ)
          → env.client_named nick ≡ some t
          → env.casefold_name nick ≡ (net.clients t).nick_casefolded)
      → ((t : ℕ) → (net.clients t).nick_casefolded ≡ (net.clients who).nick_casefolded → t ≡ who)
      → apply_changes re env cfg net who false now changes ≡ (net, [])
  unfolding apply_changes
  outsider_changes net who now [] outside other named unique = refl
  outsider_changes net who now (change ∷ changes) outside other named unique = ground (
    arith,
    outsider_change net who now change outside other (named change.arg) unique,
    outsider_changes net who now changes outside other named unique,
  )

  -- Whatever mode changes someone asks for who is no member of the channel, not its founder and not forcing
  -- them: nothing changes, and no change is reported, where names lead to the clients that have them and no
  -- two clients share a folded nickname.
  pub outsider_changes_nothing :
      (net : Net) (who now : ℕ) (changes : List ModeChange)
      → has net.channel.members who ≡ false
      → is_founder net.channel (net.clients who) ≡ false
      → ((nick : String) (t : ℕ)
          → env.client_named nick ≡ some t
          → env.casefold_name nick ≡ (net.clients t).nick_casefolded)
      → ((t : ℕ) → (net.clients t).nick_casefolded ≡ (net.clients who).nick_casefolded → t ≡ who)
      → apply_channel_mode_changes re env cfg net who false now changes ≡ (net, [])
  unfolding apply_channel_mode_changes include_flags
  outsider_changes_nothing net who now changes outside other named unique =
      rw (outsider_changes net who now changes outside other named unique) refl
