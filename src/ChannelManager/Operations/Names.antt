-- ===== src/ChannelManager/Operations/Names.antt =====
-- Under which name the manager finds a channel.
use oragono.Prelude.{
  ℕ, ◌<◌, String, ◌≡◌, refl, ◌∙◌, ◌≢◌, inl, inr, Bool, true, false, not, ◌&&◌, ◌||◌, Option, none,
  some, arith, if◌then◌else◌, nat_beq_iff, Bool-cases, nat_eq, string_eq,
}
use oragono.Prelude.GoMap.{lookup, has, delete, lookup-insert, lookup-delete}
use oragono.Masks.{RegexpPackage}
use oragono.Channel.State.{Channel}
use oragono.Channel.Storage.{RegisteredChannel, new_channel, rename_channel, load, apply_reg_info}
use oragono.Channel.Registration
use oragono.ChannelManager.State.{
  ChannelManager, World, Config, ManagerError, insufficient_privs, confusable_identifier,
}
use oragono.ChannelManager.Operations.{
  create, add_pending, claim_entry, load_channel_once, set_channel, drop_clean, maybe_cleanup,
}
use oragono.ChannelManager.Registry.{register_entry, unregister_entry, move_entry}

-- Every name leads to a channel of this name, whose address has been given out.
pub record IsNamed (cm : ChannelManager) : Type 0 where
  pub named :
      (k : String) (a : ℕ) → lookup cm.chans k ≡ some a → (cm.channels a).name_casefolded ≡ k
  pub known : (k : String) (a : ℕ) → lookup cm.chans k ≡ some a → a < cm.next_address

-- A change that leaves all names and the table of names alone.
pub same_names-IsNamed :
    (cm cm' : ChannelManager)
    → cm'.chans ≡ cm.chans
    → cm'.next_address ≡ cm.next_address
    → ((a : ℕ) → (cm'.channels a).name_casefolded ≡ (cm.channels a).name_casefolded)
    → IsNamed cm
    → IsNamed cm'
same_names-IsNamed cm cm' chans next names ok = record {
  named = λ k a h. names a ∙ ok.named k a (rw (← chans) h);
  known = λ k a h. rw next (ok.known k a (rw (← chans) h));
}

pub create-IsNamed :
    (cfg : Config) (cm : ChannelManager) (name cf skeleton : String) (registered : Bool) (now : ℕ)
    → IsNamed cm
    → IsNamed (create cfg cm name cf skeleton registered now)
unfolding create new_channel
create-IsNamed cfg cm name cf skeleton registered now ok = record {
  named = λ k a h. ground (
    arith,
    ok.named k a,
    ok.known k a,
    lookup-insert cm.chans cf k cm.next_address,
    nat_beq_iff cm.next_address a,
    string_eq.equals_iff cf k,
  );
  known = λ k a h. ground (arith, ok.known k a, lookup-insert cm.chans cf k cm.next_address);
}

pub claim_entry-IsNamed :
    (cfg : Config) (cm : ChannelManager) (name cf skeleton : String) (may_create : Bool) (now : ℕ)
    (o : Option ℕ)
    → IsNamed cm
    → IsNamed (claim_entry cfg cm name cf skeleton may_create now o).0
unfolding claim_entry add_pending
claim_entry-IsNamed cfg cm name cf skeleton may_create now (some a) ok =
    same_names-IsNamed cm _ refl refl (λ b. refl) ok
claim_entry-IsNamed cfg cm name cf skeleton may_create now none ok =
    when (not (has cm.registered_channels cf) && cfg.op_only_creation && not may_create)
      (cm, (some insufficient_privs, 0)) _ ok
      (when
        (has cm.chans_skeletons skeleton
          || (not (has cm.registered_channels cf) && has cm.registered_skeletons skeleton))
        (cm, (some confusable_identifier, 0))
        (
          add_pending (create cfg cm name cf skeleton (has cm.registered_channels cf) now)
              cm.next_address,
          (none, cm.next_address),
        )
        ok
        (same_names-IsNamed (create cfg cm name cf skeleton (has cm.registered_channels cf) now) _
          refl refl (λ b. refl)
          (create-IsNamed cfg cm name cf skeleton (has cm.registered_channels cf) now ok)))
  where
    when :
        (b : Bool) (x y : ChannelManager × (Option ManagerError × ℕ))
        → IsNamed x.0
        → IsNamed y.0
        → IsNamed (if b then x else y).0
    when true x y p q = p
    when false x y p q = q

pub name_casefolded-load :
    (re : RegexpPackage) (ch : Channel) (info : Option RegisteredChannel)
    → (load re ch info).name_casefolded ≡ ch.name_casefolded
unfolding load apply_reg_info
name_casefolded-load re ch none = refl
name_casefolded-load re ch (some info) = refl

pub set_channel-IsNamed :
    (cm : ChannelManager) (a : ℕ) (ch : Channel)
    → ch.name_casefolded ≡ (cm.channels a).name_casefolded
    → IsNamed cm
    → IsNamed (set_channel cm a ch)
unfolding set_channel
set_channel-IsNamed cm a ch same ok =
    same_names-IsNamed cm _ refl refl (λ b. ground (arith, same, nat_beq_iff a b)) ok

pub load_channel_once-IsNamed :
    (re : RegexpPackage) (world : World) (cm : ChannelManager) (a : ℕ)
    → IsNamed cm
    → IsNamed (load_channel_once re world cm a)
unfolding load_channel_once
load_channel_once-IsNamed re world cm a ok = elim (Bool-cases (cm.loaded a)) [
  | inl done ↦ rw done ok
  | inr fresh ↦ rw fresh (
      same_names-IsNamed cm _ refl refl
        (λ b. ground (
          arith,
          nat_beq_iff a b,
          name_casefolded-load re (cm.channels a)
              (world.load_channel (cm.channels a).name_casefolded),
        ))
        ok)
]

-- The table shrinks, and the names stay.
pub shrunk-IsNamed :
    (cm cm' : ChannelManager)
    → ((k : String) (a : ℕ) → lookup cm'.chans k ≡ some a → lookup cm.chans k ≡ some a)
    → cm'.next_address ≡ cm.next_address
    → cm'.channels ≡ cm.channels
    → IsNamed cm
    → IsNamed cm'
shrunk-IsNamed cm cm' less next channels ok = record {
  named = λ k a h. rw channels (ok.named k a (less k a h));
  known = λ k a h. rw next (ok.known k a (less k a h));
}

pub maybe_cleanup-IsNamed :
    (world : World) (cm : ChannelManager) (a : ℕ) (after_join : Bool)
    → IsNamed cm
    → IsNamed (maybe_cleanup world cm a after_join)
unfolding maybe_cleanup drop_clean
maybe_cleanup-IsNamed world cm a after_join ok =
    shrunk-IsNamed cm _
      (λ k b h. ground (arith, lookup-delete cm.chans (cm.channels a).name_casefolded k))
      (ground arith) (ground arith) ok

pub register_entry-IsNamed :
    (world : World) (cm : ChannelManager) (cf account : String) (now : ℕ) (o : Option ℕ)
    → IsNamed cm
    → IsNamed (register_entry world cm cf account now o).0
unfolding register_entry Registration.set_registered
register_entry-IsNamed world cm cf account now none ok = ok
register_entry-IsNamed world cm cf account now (some a) ok =
    same_names-IsNamed cm _ (ground arith) (ground arith) (λ b. ground (arith, nat_beq_iff a b)) ok

pub unregister_entry-IsNamed :
    (world : World) (cm : ChannelManager) (cf account : String) (o : Option ℕ)
    → IsNamed cm
    → IsNamed (unregister_entry world cm cf account o)
unfolding unregister_entry Registration.set_unregistered
unregister_entry-IsNamed world cm cf account none ok = ok
unregister_entry-IsNamed world cm cf account (some a) ok =
    same_names-IsNamed cm _ refl refl (λ b. ground (arith, nat_beq_iff a b)) ok

-- A registered channel that is moved is found under its new name, and no longer under the old one.
pub move_entry-IsNamed :
    (world : World) (cm : ChannelManager) (a : ℕ) (cf name new_cf skeleton : String) (now : ℕ)
    → (cm.channels a).registered_founder ≢ ""
    → lookup cm.chans cf ≡ some a
    → has cm.chans new_cf ≡ false
    → IsNamed cm
    → IsNamed (move_entry world cm a cf name new_cf skeleton now)
unfolding move_entry rename_channel
move_entry-IsNamed world cm a cf name new_cf skeleton now registered here free ok =
    let founder = string_eq.equals_iff (cm.channels a).registered_founder "" in
    record {
      named = λ k b h. ground (
        arith,
        registered,
        founder,
        ok.named k b,
        ok.named cf a here,
        nat_beq_iff a b,
        lookup-insert (delete cm.chans cf) new_cf k a,
        lookup-delete cm.chans cf k,
        string_eq.equals_iff new_cf k,
        string_eq.equals_iff cf k,
      );
      known = λ k b h. ground (
        arith,
        registered,
        founder,
        ok.known k b,
        ok.known cf a here,
        lookup-insert (delete cm.chans cf) new_cf k a,
        lookup-delete cm.chans cf k,
      );
    }
