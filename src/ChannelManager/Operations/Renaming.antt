-- ===== src/ChannelManager/Operations/Renaming.antt =====
-- What Rename and SetUnregistered leave behind.
use oragono.Prelude.{
  ℕ, String, ◌≡◌, ◌∙◌, ◌≢◌, true, false, none, some, List, [], ◌∷◌, arith, nat_beq_refl, length,
  ◌==◌, nat_eq, string_eq, beq_refl,
}
use oragono.Prelude.GoMap.{GoMap, lookup, has, insert, delete, lookup-insert, lookup-delete}
use oragono.Channel.Storage.{rename_channel}
use oragono.Masks.{RegexpPackage}
use oragono.Modes.ModeSet.{ModeSet}
use oragono.Channel.State
use oragono.Channel.State.{Client}
use oragono.Channel.State.{holds}
use oragono.ChannelManager.Leaving.{quit_all}
use oragono.ChannelManager.Leaving.Emptied.{quit_all_lem}
use oragono.ChannelManager.State.{ChannelManager, World}
use oragono.ChannelManager.Operations.{get_folded}
use oragono.ChannelManager.Registry.{move_entry, rename_folded, unregister_entry, set_unregistered}

-- A rename to another name that succeeds moves the entry.
rename_moved :
    (world : World) (cm : ChannelManager) (cf name new_cf skeleton : String) (now a : ℕ)
    → new_cf ≢ cf
    → lookup cm.chans cf ≡ some a
    → (rename_folded world cm cf name new_cf skeleton now).1 ≡ none
    → (rename_folded world cm cf name new_cf skeleton now).0
      ≡ move_entry world cm a cf name new_cf skeleton now
unfolding rename_folded get_folded
rename_moved world cm cf name new_cf skeleton now a other found done =
    ground (arith, other, found, done, string_eq.equals_iff new_cf cf)

-- A registered channel that is renamed to another name is found under this name only, with it, and the
-- old name is free again.
rename-registered :
    (world : World) (cm : ChannelManager) (cf name new_cf skeleton : String) (now a : ℕ)
    → new_cf ≢ cf
    → lookup cm.chans cf ≡ some a
    → (cm.channels a).registered_founder ≢ ""
    → (rename_folded world cm cf name new_cf skeleton now).1 ≡ none
    → let cm' = (rename_folded world cm cf name new_cf skeleton now).0 in
      (lookup cm'.chans new_cf ≡ some a)
      × (lookup cm'.chans cf ≡ none)
      × ((cm'.channels a).name_casefolded ≡ new_cf)
      × (has cm'.registered_channels new_cf ≡ true)
      × (has cm'.registered_channels cf ≡ false)
unfolding move_entry rename_channel
rename-registered world cm cf name new_cf skeleton now a other found registered done =
    rw (rename_moved world cm cf name new_cf skeleton now a other found done) (
      ground (
        arith,
        string_eq.equals_iff (cm.channels a).registered_founder "",
        registered,
        other,
        string_eq.equals_iff new_cf cf,
        beq_refl new_cf,
        beq_refl cf,
        nat_beq_refl a,
        lookup-insert (delete cm.chans cf) new_cf new_cf a,
        lookup-insert (delete cm.chans cf) new_cf cf a,
        lookup-delete cm.chans cf cf,
        lookup-insert (delete cm.registered_channels cf) new_cf new_cf true,
        lookup-insert (delete cm.registered_channels cf) new_cf cf true,
        lookup-delete cm.registered_channels cf cf,
      ))

move-unregistered :
    (world : World) (cm : ChannelManager) (cf name new_cf skeleton : String) (now a : ℕ)
    → new_cf ≢ cf
    → (cm.channels a).registered_founder ≡ ""
    → let cm' = move_entry world cm a cf name new_cf skeleton now in
      (lookup cm'.chans new_cf ≡ some a)
      × (lookup cm'.chans cf ≡ some a)
      × ((cm'.channels a).name_casefolded ≡ new_cf)
      × ((cm'.entries a).pending_joins ≡ (cm.entries a).pending_joins)
      × ((cm'.channels a).members ≡ (cm.channels a).members)
      × ((cm'.channels a).registered_founder ≡ "")
unfolding move_entry rename_channel
move-unregistered world cm cf name new_cf skeleton now a other loose =
    let moved = insert (delete cm.chans cf) new_cf a in
    ground (
      arith,
      other,
      loose,
      string_eq.equals_iff (cm.channels a).registered_founder "",
      string_eq.equals_iff cf new_cf,
      beq_refl new_cf,
      beq_refl cf,
      nat_beq_refl a,
      lookup-insert moved cf new_cf a,
      lookup-insert moved cf cf a,
      lookup-insert (delete cm.chans cf) new_cf new_cf a,
    )

has-occupied : (m : GoMap ℕ ModeSet) (k : ℕ) → has m k ≡ true → (length m == 0) ≡ false
unfolding lookup
has-occupied [] k h = ground (arith, h)
has-occupied ((j, s) ∷ m) k h = ground arith

-- A channel that is not registered, that has members and nobody who is joining it, is renamed to another
-- name; then its members, and maybe others, quit one after the other, and whoever leaves it empty has it
-- cleaned up, while it is not being written. In the end nobody is in it and its new name leads nowhere, but
-- its old name still leads to it.
pub rename-unregistered :
    (re : RegexpPackage) (cfg : State.Config) (world : World) (cm : ChannelManager)
    (clients : ℕ → Client) (cf name new_cf skeleton : String) (now a member : ℕ) (leavers : List ℕ)
    → new_cf ≢ cf
    → lookup cm.chans cf ≡ some a
    → (cm.channels a).registered_founder ≡ ""
    → (cm.entries a).pending_joins ≡ 0
    → world.is_writing a ≡ false
    → has (cm.channels a).members member ≡ true
    → ((k : ℕ) → has (cm.channels a).members k ≡ true → holds k leavers ≡ true)
    → (rename_folded world cm cf name new_cf skeleton now).1 ≡ none
    → let cm' =
        quit_all re cfg world
          (rename_folded world cm cf name new_cf skeleton now).0
          clients
          a
          leavers in
      (lookup cm'.chans new_cf ≡ none)
      × (lookup cm'.chans cf ≡ some a)
      × ((cm'.channels a).name_casefolded ≡ new_cf)
      × (length (cm'.channels a).members ≡ 0)
rename-unregistered re cfg world cm clients cf name new_cf skeleton now a member leavers other found
      loose idle unwritten here all done =
    let m = move_entry world cm a cf name new_cf skeleton now in
    let (to_new, to_old, renamed, pending, members, unowned) =
      move-unregistered world cm cf name new_cf skeleton now a other loose in
    rw (rename_moved world cm cf name new_cf skeleton now a other found done) (
      quit_all_lem re cfg world m clients a leavers cf new_cf other unwritten
        (record {
          renamed = renamed;
          loose = unowned;
          idle = pending ∙ idle;
          kept = to_old;
          found = ground (arith, to_new, members, has-occupied (cm.channels a).members member here);
        })
        (λ k at. all k (ground (arith, at, members))))

-- If the channel is not there when its registration is dropped, its name stays among the registered ones.
pub set_unregistered-absent :
    (world : World) (cm : ChannelManager) (cf account : String)
    → lookup cm.chans cf ≡ none
    → has cm.registered_channels cf ≡ true
    → (set_unregistered world cm cf account).1 ≡ none
    → has (set_unregistered world cm cf account).0.registered_channels cf ≡ true
unfolding set_unregistered unregister_entry
set_unregistered-absent world cm cf account absent registered done =
    ground (arith, absent, registered, done)
