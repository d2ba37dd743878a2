-- ===== src/Channel/ModeChanges/Frame.antt =====
-- What mode changes never do to a channel.
use oragono.Prelude.{
  ℕ, ◌≡◌, refl, ◌∙◌, inl, inr, Bool, true, ◌||◌, Option, none, some, List, [], ◌∷◌, arith,
  if◌then◌else◌, nat_beq_iff, Bool-cases, Option-cases, ◌==◌, nat_eq, string_eq,
}
use oragono.Prelude.GoMap.{lookup, has, lookup-insert}
use oragono.Modes.Letters.{add, list, ModeChange, user_limit_mode, key_mode}
use oragono.Modes.ModeSet.{set_mode}
use oragono.Masks.{RegexpPackage}
use oragono.Channel.State.{Channel, Net, Config}
use oragono.Channel.ModeChanges.{
  include_flags, is_op, is_list_mode, is_member_mode, Texts, validate_channel_key, has_privs,
  apply_to_target, apply_mode_to_member, apply_user_limit, apply_key, apply_mask, apply_flag,
  apply_change, apply_changes, apply_channel_mode_changes,
}

-- A channel after mode changes: the same members, registration and names, and a valid key if it was valid.
pub record IsKept (before after : Channel) : Type 0 where
  pub members : (who : ℕ) → has after.members who ≡ has before.members who
  pub founder : after.registered_founder ≡ before.registered_founder
  pub name : after.name_casefolded ≡ before.name_casefolded
  pub statuses : after.account_to_umode ≡ before.account_to_umode
  pub keyed : validate_channel_key before.key ≡ true → validate_channel_key after.key ≡ true

same_channel : (ch : Channel) → IsKept ch ch
same_channel ch = record {
  members = λ who. refl;
  founder = refl;
  name = refl;
  statuses = refl;
  keyed = λ valid. valid;
}

two_steps : (a b c : Channel) → IsKept a b → IsKept b c → IsKept a c
two_steps a b c p q = record {
  members = λ who. q.members who ∙ p.members who;
  founder = q.founder ∙ p.founder;
  name = q.name ∙ p.name;
  statuses = q.statuses ∙ p.statuses;
  keyed = λ valid. q.keyed (p.keyed valid);
}

module _ (re : RegexpPackage) (env : Texts) (cfg : Config) where
  target-IsKept :
      (net : Net) (change : ModeChange) (o : Option ℕ)
      → IsKept net.channel (apply_to_target env net change o).0.channel
  unfolding apply_to_target
  target-IsKept net change none = same_channel net.channel
  target-IsKept net change (some target) = elim (Option-cases (lookup net.channel.members target)) [
    | inl missing ↦ record {
      members = λ who. ground (arith, missing);
      founder = ground (arith, missing);
      name = ground (arith, missing);
      statuses = ground (arith, missing);
      keyed = λ valid. ground (arith, missing, valid);
    }
    | inr (modes, there) ↦
        let put = λ (who : ℕ).
          lookup-insert net.channel.members target who
            (set_mode modes change.mode (is_op change.op add)).0 in
        record {
          members = λ who. ground (arith, there, put who, nat_beq_iff target who);
          founder = ground (arith, there);
          name = ground (arith, there);
          statuses = ground (arith, there);
          keyed = λ valid. ground (arith, there, valid);
        }
  ]

  mask-IsKept :
      (net : Net) (who now : ℕ) (change : ModeChange)
      → IsKept net.channel (apply_mask re env cfg net who now change).0.channel
  unfolding apply_mask
  mask-IsKept net who now change = record {
    members = λ k. ground arith;
    founder = ground arith;
    name = ground arith;
    statuses = ground arith;
    keyed = λ valid. ground (arith, valid);
  }

  limit-IsKept :
      (net : Net) (change : ModeChange)
      → IsKept net.channel (apply_user_limit env net change).0.channel
  unfolding apply_user_limit
  limit-IsKept net change = record {
    members = λ k. ground arith;
    founder = ground arith;
    name = ground arith;
    statuses = ground arith;
    keyed = λ valid. ground (arith, valid);
  }

  flag-IsKept :
      (net : Net) (change : ModeChange)
      → IsKept net.channel (apply_flag re env cfg net change).0.channel
  unfolding apply_flag
  flag-IsKept net change = record {
    members = λ k. ground arith;
    founder = ground arith;
    name = ground arith;
    statuses = ground arith;
    keyed = λ valid. ground (arith, valid);
  }

  no_key_valid : validate_channel_key "" ≡ true
  unfolding validate_channel_key
  no_key_valid = refl

  key-IsKept :
      (net : Net) (change : ModeChange) → IsKept net.channel (apply_key net change).0.channel
  unfolding apply_key
  key-IsKept net change = record {
    members = λ k. ground arith;
    founder = ground arith;
    name = ground arith;
    statuses = ground arith;
    keyed = λ valid. ground (arith, valid, no_key_valid);
  }

  status-IsKept :
      (net : Net) (change : ModeChange)
      → IsKept net.channel
          (if is_op change.op list || change.arg == ""
            then (net, none)
            else apply_mode_to_member env net change).0.channel
  unfolding apply_mode_to_member
  status-IsKept net change = elim (Bool-cases (is_op change.op list || change.arg == "")) [
    | inl idle ↦ rw idle (same_channel net.channel)
    | inr busy ↦ rw busy (target-IsKept net change (env.client_named change.arg))
  ]

  change-IsKept :
      (net : Net) (who now : ℕ) (change : ModeChange)
      → IsKept net.channel (apply_change re env cfg net who now change).0.channel
  unfolding apply_change
  change-IsKept net who now change = elim (Bool-cases (is_list_mode change.mode)) [
    | inl masks ↦ rw masks (mask-IsKept net who now change)
    | inr plain ↦ rw plain (elim (Bool-cases (change.mode == user_limit_mode)) [
      | inl limit ↦ rw limit (limit-IsKept net change)
      | inr unlimited ↦ rw unlimited (elim (Bool-cases (change.mode == key_mode)) [
        | inl keyed ↦ rw keyed (key-IsKept net change)
        | inr keyless ↦ rw keyless (elim (Bool-cases (is_member_mode change.mode)) [
          | inl status ↦ rw status (status-IsKept net change)
          | inr flag ↦ rw flag (flag-IsKept net change)
        ])
      ])
    ])
  ]

  changes-IsKept :
      (net : Net) (who : ℕ) (is_samode : Bool) (now : ℕ) (changes : List ModeChange)
      → IsKept net.channel (apply_changes re env cfg net who is_samode now changes).0.channel
  unfolding apply_changes
  changes-IsKept net who is_samode now [] = same_channel net.channel
  changes-IsKept net who is_samode now (change ∷ changes) =
      elim (Bool-cases (has_privs env net who is_samode change)) [
        | inl privs ↦ rw privs (
            two_steps net.channel (apply_change re env cfg net who now change).0.channel _
              (change-IsKept net who now change)
              (changes-IsKept (apply_change re env cfg net who now change).0 who is_samode now
                changes))
        | inr refused ↦ rw refused (changes-IsKept net who is_samode now changes)
      ]

  -- No mode changes, by whomever they are asked for, change who the members are, the founder, the name or the
  -- persistent statuses of the channel, and a key that is valid stays one.
  pub mode_changes-IsKept :
      (net : Net) (who : ℕ) (is_samode : Bool) (now : ℕ) (changes : List ModeChange)
      → IsKept net.channel
          (apply_channel_mode_changes re env cfg net who is_samode now changes).0.channel
  unfolding apply_channel_mode_changes
  mode_changes-IsKept net who is_samode now changes =
      let r = apply_changes re env cfg net who is_samode now changes in
      let k = changes-IsKept net who is_samode now changes in
      elim (Bool-cases (include_flags r.1 == 0)) [
        | inl unmarked ↦ rw unmarked k
        | inr marked ↦ rw marked (record {
          members = k.members;
          founder = k.founder;
          name = k.name;
          statuses = k.statuses;
          keyed = k.keyed;
        })
      ]
