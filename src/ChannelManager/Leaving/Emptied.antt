-- ===== src/ChannelManager/Leaving/Emptied.antt =====
-- A channel that is not registered, and whose name is no longer its first key in the table, as its members
-- quit.
use oragono.Prelude.{
  ℕ, String, ◌≡◌, refl, sym, ap, subst, ◌≢◌, inl, inr, Bool, true, false, none, some, List, [], ◌∷◌,
  arith, if◌then◌else◌, nat_beq_refl, Bool-cases, length, ◌==◌, nat_eq, string_eq, beq_refl,
}
use oragono.Prelude.GoMap.{GoMap, lookup, has, delete, lookup-delete, length-delete-le}
use oragono.Masks.{RegexpPackage}
use oragono.Channel.State
use oragono.Modes.ModeSet.{ModeSet}
use oragono.Channel.State.{Client, Channel}
use oragono.Channel.State.{regenerate_members_cache}
use oragono.Channel.Membership.{quit}
use oragono.Channel.State.{holds}
use oragono.Channel.Storage.{is_clean}
use oragono.ChannelManager.State.{ChannelManager, World}
use oragono.ChannelManager.Operations.{set_channel, maybe_cleanup, drop_clean}
use oragono.ChannelManager.Leaving.{quit_channel, quit_all}

-- The channel at `a` has the folded name `new_cf`, which leads to it as long as it has members, and `cf` leads
-- to it too.
pub record Lingers (cm : ChannelManager) (a : ℕ) (cf new_cf : String) : Type 0 where
  pub renamed : (cm.channels a).name_casefolded ≡ new_cf
  pub loose : (cm.channels a).registered_founder ≡ ""
  pub idle : (cm.entries a).pending_joins ≡ 0
  pub kept : lookup cm.chans cf ≡ some a
  pub found :
      lookup cm.chans new_cf ≡ (if length (cm.channels a).members == 0 then none else some a)

-- The channel is emptied, and maybe it is cleaned up.
cleanup_empty-Lingers :
    (world : World) (cm : ChannelManager) (a : ℕ) (cf new_cf : String)
    → new_cf ≢ cf
    → world.is_writing a ≡ false
    → (cm.channels a).name_casefolded ≡ new_cf
    → (cm.channels a).registered_founder ≡ ""
    → (cm.entries a).pending_joins ≡ 0
    → length (cm.channels a).members ≡ 0
    → lookup cm.chans cf ≡ some a
    → (b : Bool) → lookup cm.chans new_cf ≡ (if b then none else some a)
    → Lingers (maybe_cleanup world cm a false) a cf new_cf
      × ((maybe_cleanup world cm a false).channels ≡ cm.channels)
unfolding maybe_cleanup drop_clean is_clean
cleanup_empty-Lingers world cm a cf new_cf other unwritten renamed loose idle empty kept true gone =
    (
      record {
        renamed = ground (arith, renamed, gone);
        loose = ground (arith, renamed, gone, loose);
        idle = ground (arith, renamed, gone, idle);
        kept = ground (arith, renamed, gone, kept);
        found = ground (arith, renamed, gone, empty);
      },
      ground (arith, renamed, gone),
    )
cleanup_empty-Lingers world cm a cf new_cf other unwritten renamed loose idle empty kept false
      there =
    let clean : is_clean (cm.channels a) (world.is_writing a) (world.is_ephemeral a) ≡ true =
      ground (
        arith,
        unwritten,
        empty,
        loose,
        string_eq.equals_iff (cm.channels a).registered_founder "",
      ) in
    (
      record {
        renamed = ground (arith, renamed, there, idle, clean, nat_beq_refl a);
        loose = ground (arith, renamed, there, idle, clean, nat_beq_refl a, loose);
        idle = ground (arith, renamed, there, idle, clean, nat_beq_refl a);
        kept = ground (
          arith,
          renamed,
          there,
          idle,
          clean,
          nat_beq_refl a,
          kept,
          lookup-delete cm.chans (cm.channels a).name_casefolded cf,
          other,
          string_eq.equals_iff new_cf cf,
        );
        found = ground (
          arith,
          renamed,
          there,
          idle,
          clean,
          nat_beq_refl a,
          empty,
          lookup-delete cm.chans (cm.channels a).name_casefolded new_cf,
          beq_refl new_cf,
        );
      },
      ground (arith, renamed, there, idle, clean, nat_beq_refl a),
    )

module _ (re : RegexpPackage) (cfg : State.Config) (world : World) where
  quit_channel-Lingers :
      (cm : ChannelManager) (clients : ℕ → Client) (a who : ℕ) (cf new_cf : String)
      → new_cf ≢ cf
      → world.is_writing a ≡ false
      → Lingers cm a cf new_cf
      → Lingers (quit_channel re cfg world cm clients a who).0 a cf new_cf
        × (((quit_channel re cfg world cm clients a who).0.channels a).members
            ≡ delete (cm.channels a).members who)
  unfolding quit_channel quit set_channel regenerate_members_cache
  quit_channel-Lingers cm clients a who cf new_cf other unwritten l =
      let left = set_channel cm a (
        regenerate_members_cache
          (record (cm.channels a) { members = delete (cm.channels a).members who })) in
      elim (Bool-cases (length (delete (cm.channels a).members who) == 0)) [
        | inl e ↦
            (let (kept, same) =
                cleanup_empty-Lingers world left a cf new_cf other unwritten
                  (ground (arith, l.renamed, nat_beq_refl a))
                  (ground (arith, l.loose, nat_beq_refl a)) l.idle
                  (ground (arith, e, nat_beq_refl a)) l.kept (length (cm.channels a).members == 0)
                  l.found in
              (
                subst
                    (λ b.
                      Lingers (if b then maybe_cleanup world left a false else left) a cf new_cf)
                    (sym e) kept,
                ground (arith, e, same, nat_beq_refl a),
              ))
        | inr e ↦ (
          subst (λ b. Lingers (if b then maybe_cleanup world left a false else left) a cf new_cf)
              (sym e)
              (record {
                renamed = ground (arith, l.renamed, nat_beq_refl a);
                loose = ground (arith, l.loose, nat_beq_refl a);
                idle = l.idle;
                kept = l.kept;
                found = ground (
                  arith,
                  l.found,
                  e,
                  nat_beq_refl a,
                  length-delete-le (cm.channels a).members who,
                );
              }),
          ground (arith, e, nat_beq_refl a),
        )
      ]

  quit_all-Lingers :
      (cm : ChannelManager) (clients : ℕ → Client) (a : ℕ) (leavers : List ℕ) (cf new_cf : String)
      → new_cf ≢ cf
      → world.is_writing a ≡ false
      → Lingers cm a cf new_cf
      → Lingers (quit_all re cfg world cm clients a leavers) a cf new_cf
        × ((k : ℕ)
            → lookup ((quit_all re cfg world cm clients a leavers).channels a).members k
              ≡ (if holds k leavers then none else lookup (cm.channels a).members k))
  unfolding quit_all holds
  quit_all-Lingers cm clients a [] cf new_cf other unwritten l = (l, λ k. refl)
  quit_all-Lingers cm clients a (who ∷ leavers) cf new_cf other unwritten l =
      let (cm', clients') = quit_channel re cfg world cm clients a who in
      let (l', gone) = quit_channel-Lingers cm clients a who cf new_cf other unwritten l in
      let (kept, out) = quit_all-Lingers cm' clients' a leavers cf new_cf other unwritten l' in
      (
        kept,
        λ k.
            ground (
              arith,
              out k,
              ap (λ m. lookup m k) gone,
              lookup-delete (cm.channels a).members who k,
            ),
      )

nobody_left : (m : GoMap ℕ ModeSet) → ((k : ℕ) → lookup m k ≡ none) → length m ≡ 0
unfolding lookup
nobody_left [] none_there = refl
nobody_left ((k, s) ∷ m) none_there = ground (arith, none_there k, nat_beq_refl k)

module _ (re : RegexpPackage) (cfg : State.Config) (world : World) where
  -- After all members have quit, the new name leads nowhere, and the old name leads to the channel, which
  -- has nobody.
  pub quit_all_lem :
      (cm : ChannelManager) (clients : ℕ → Client) (a : ℕ) (leavers : List ℕ) (cf new_cf : String)
      → new_cf ≢ cf
      → world.is_writing a ≡ false
      → Lingers cm a cf new_cf
      → ((k : ℕ) → has (cm.channels a).members k ≡ true → holds k leavers ≡ true)
      → let cm' = quit_all re cfg world cm clients a leavers in
        (lookup cm'.chans new_cf ≡ none)
        × (lookup cm'.chans cf ≡ some a)
        × ((cm'.channels a).name_casefolded ≡ new_cf)
        × (length (cm'.channels a).members ≡ 0)
  quit_all_lem cm clients a leavers cf new_cf other unwritten l all =
      let cm' = quit_all re cfg world cm clients a leavers in
      let (l', out) =
        quit_all-Lingers re cfg world cm clients a leavers cf new_cf other unwritten l in
      let empty = nobody_left (cm'.channels a).members λ k. ground (arith, out k, all k) in
      (ground (arith, l'.found, empty), l'.kept, l'.renamed, empty)
