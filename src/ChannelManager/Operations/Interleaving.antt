-- ===== src/ChannelManager/Operations/Interleaving.antt =====
-- The operations of many clients in any order: joins are begun and ended, channels loaded, changed,
-- registered, unregistered, renamed and cleaned up.
use oragono.Prelude.{
  ℕ, ◌<◌, String, ◌≡◌, refl, ap, subst, ◌≢◌, Bool, true, false, Option, none, some, List, ◌∷◌,
  arith, nat_beq_iff, nat_eq, string_eq,
}
use oragono.Prelude.GoMap.{lookup, has}
use oragono.Masks.{RegexpPackage}
use oragono.Channel.State.{Channel}
use oragono.Channel.Registration
use oragono.ChannelManager.State.{ChannelManager, World, Config}
use oragono.ChannelManager.Operations.{
  claim_entry, claim, load_channel_once, set_channel, maybe_cleanup,
}
use oragono.ChannelManager.Registry.{register_entry, unregister_entry, move_entry}
use oragono.ChannelManager.Operations.Names.{
  load_channel_once-IsNamed, set_channel-IsNamed, register_entry-IsNamed, unregister_entry-IsNamed,
  name_casefolded-load,
}
use oragono.ChannelManager.Operations.Pending.{
  count, remove_one, IsCounted, claim_entry-IsCounted, quiet-IsCounted, finish-IsCounted,
  clean-IsCounted, move-IsCounted,
}

module _ (re : RegexpPackage) (world : World) (cfg : Config) where
  -- The manager and the channels that the pending joins have claimed, before and after a step. A join is
  -- `claims`, then `loads` and `changes` on the channel, then `finishes`. Only registered channels are
  -- moved to another name.
  pub data Step : ChannelManager → List ℕ → ChannelManager → List ℕ → Type 0 where
    claims :
        {cm cm' : ChannelManager} {joining : List ℕ} (name : String) (cf skeleton : Option String)
        (may_create : Bool) (now a : ℕ)
        → claim cfg cm name cf skeleton may_create now ≡ (cm', (none, a))
        → Step cm joining cm' (a ∷ joining)
    loads :
        {cm : ChannelManager} {joining : List ℕ} (a : ℕ)
        → Step cm joining (load_channel_once re world cm a) joining
    changes :
        {cm : ChannelManager} {joining : List ℕ} (a : ℕ) (ch : Channel)
        → ch.name_casefolded ≡ (cm.channels a).name_casefolded
        → Step cm joining (set_channel cm a ch) joining
    finishes :
        {cm : ChannelManager} {joining : List ℕ} (a : ℕ)
        → 0 < count a joining
        → Step cm joining (maybe_cleanup world cm a true) (remove_one a joining)
    cleans :
        {cm : ChannelManager} {joining : List ℕ} (a : ℕ)
        → Step cm joining (maybe_cleanup world cm a false) joining
    registers :
        {cm : ChannelManager} {joining : List ℕ} (cf account : String) (now : ℕ)
        → Step cm joining (register_entry world cm cf account now (lookup cm.chans cf)).0 joining
    unregisters :
        {cm : ChannelManager} {joining : List ℕ} (cf account : String)
        → Step cm joining (unregister_entry world cm cf account (lookup cm.chans cf)) joining
    moves :
        {cm : ChannelManager} {joining : List ℕ} (a : ℕ) (cf name new_cf skeleton : String)
        (now : ℕ)
        → (cm.channels a).registered_founder ≢ ""
        → lookup cm.chans cf ≡ some a
        → has cm.chans new_cf ≡ false
        → Step cm joining (move_entry world cm a cf name new_cf skeleton now) joining

  pub data Reach (start : ChannelManager) (pending : List ℕ)
      : ChannelManager → List ℕ → Type 0 where
    here : Reach start pending start pending
    next :
        {cm cm' : ChannelManager} {joining joining' : List ℕ}
        → Reach start pending cm joining
        → Step cm joining cm' joining'
        → Reach start pending cm' joining'

  claim_claimed :
      (cm : ChannelManager) (name cf skeleton : String) (may_create : Bool) (now a : ℕ)
      → (claim cfg cm name (some cf) (some skeleton) may_create now).1 ≡ (none, a)
      → claim cfg cm name (some cf) (some skeleton) may_create now
        ≡ claim_entry cfg cm name cf skeleton may_create now (lookup cm.chans cf)
  unfolding claim
  claim_claimed cm name cf skeleton may_create now a e = ground (arith, e)

  claim-IsCounted :
      (cm : ChannelManager) (joining : List ℕ) (name : String) (cf skeleton : Option String)
      (may_create : Bool) (now a : ℕ)
      → (claim cfg cm name cf skeleton may_create now).1 ≡ (none, a)
      → IsCounted cm joining
      → IsCounted (claim cfg cm name cf skeleton may_create now).0 (a ∷ joining)
  unfolding claim
  claim-IsCounted cm joining name none skeleton may_create now a e ok = absurd (ground (arith, e))
  claim-IsCounted cm joining name (some cf) none may_create now a e ok = absurd (ground (arith, e))
  claim-IsCounted cm joining name (some cf) (some skeleton) may_create now a e ok =
      let same = claim_claimed cm name cf skeleton may_create now a e in
      rw same (
        claim_entry-IsCounted cfg cm name cf skeleton may_create now a (lookup cm.chans cf) joining
          refl (rw same at e) ok)

  load-IsCounted :
      (cm : ChannelManager) (joining : List ℕ) (a : ℕ)
      → IsCounted cm joining
      → IsCounted (load_channel_once re world cm a) joining
  unfolding load_channel_once
  load-IsCounted cm joining a ok =
      quiet-IsCounted cm _ joining (load_channel_once-IsNamed re world cm a ok.names) (ground arith)
        (ground arith)
        (λ b. ground (
          arith,
          nat_beq_iff a b,
          name_casefolded-load re (cm.channels a)
              (world.load_channel (cm.channels a).name_casefolded),
        ))
        (λ b. ground arith) ok

  register-IsCounted :
      (cm : ChannelManager) (joining : List ℕ) (cf account : String) (now : ℕ) (o : Option ℕ)
      → IsCounted cm joining
      → IsCounted (register_entry world cm cf account now o).0 joining
  unfolding register_entry Registration.set_registered
  register-IsCounted cm joining cf account now none ok = ok
  register-IsCounted cm joining cf account now (some a) ok =
      quiet-IsCounted cm _ joining
        (register_entry-IsNamed world cm cf account now (some a) ok.names) (ground arith)
        (ground arith) (λ b. ground (arith, nat_beq_iff a b)) (λ b. ground arith) ok

  unregister-IsCounted :
      (cm : ChannelManager) (joining : List ℕ) (cf account : String) (o : Option ℕ)
      → IsCounted cm joining
      → IsCounted (unregister_entry world cm cf account o) joining
  unfolding unregister_entry Registration.set_unregistered
  unregister-IsCounted cm joining cf account none ok = ok
  unregister-IsCounted cm joining cf account (some a) ok =
      quiet-IsCounted cm _ joining (unregister_entry-IsNamed world cm cf account (some a) ok.names)
        refl refl (λ b. ground (arith, nat_beq_iff a b)) (λ b. refl) ok

  change-IsCounted :
      (cm : ChannelManager) (joining : List ℕ) (a : ℕ) (ch : Channel)
      → ch.name_casefolded ≡ (cm.channels a).name_casefolded
      → IsCounted cm joining
      → IsCounted (set_channel cm a ch) joining
  unfolding set_channel
  change-IsCounted cm joining a ch same ok =
      quiet-IsCounted cm _ joining (set_channel-IsNamed cm a ch same ok.names) refl refl
        (λ b. ground (arith, same, nat_beq_iff a b)) (λ b. refl) ok

  Step-IsCounted :
      {cm cm' : ChannelManager} {joining joining' : List ℕ}
      → Step cm joining cm' joining'
      → IsCounted cm joining
      → IsCounted cm' joining'
  Step-IsCounted {cm} {cm'} {joining} (claims name cf skeleton may_create now a e) ok =
      subst (λ (m : ChannelManager). IsCounted m (a ∷ joining)) (ap (λ r. r.0) e)
        (claim-IsCounted cm joining name cf skeleton may_create now a (ap (λ r. r.1) e) ok)
  Step-IsCounted {cm} {cm'} {joining} (loads a) ok = load-IsCounted cm joining a ok
  Step-IsCounted {cm} {cm'} {joining} (changes a ch same) ok =
      change-IsCounted cm joining a ch same ok
  Step-IsCounted {cm} {cm'} {joining} (finishes a pending) ok =
      finish-IsCounted world cm a joining pending ok
  Step-IsCounted {cm} {cm'} {joining} (cleans a) ok = clean-IsCounted world cm a joining ok
  Step-IsCounted {cm} {cm'} {joining} (registers cf account now) ok =
      register-IsCounted cm joining cf account now (lookup cm.chans cf) ok
  Step-IsCounted {cm} {cm'} {joining} (unregisters cf account) ok =
      unregister-IsCounted cm joining cf account (lookup cm.chans cf) ok
  Step-IsCounted {cm} {cm'} {joining} (moves a cf name new_cf skeleton now owned found free) ok =
      move-IsCounted world cm a cf name new_cf skeleton now joining owned found free ok

  Reach-IsCounted :
      {start : ChannelManager} {pending : List ℕ} {cm : ChannelManager} {joining : List ℕ}
      → Reach start pending cm joining
      → IsCounted start pending
      → IsCounted cm joining
  Reach-IsCounted here ok = ok
  Reach-IsCounted (next r s) ok = Step-IsCounted s (Reach-IsCounted r ok)

  -- However the operations of the clients interleave: as long as some join that has claimed a channel is
  -- not over, the channel is found under its name, and its counter is the number of these joins. Every
  -- name leads to a channel of that name. This holds if it held at the start and where only registered
  -- channels are moved to another name.
  pub claimed-stays :
      {start cm : ChannelManager} {pending joining : List ℕ} (a : ℕ) (k : String) (b : ℕ)
      → IsCounted start pending
      → Reach start pending cm joining
      → 0 < count a joining
      → (lookup cm.chans (cm.channels a).name_casefolded ≡ some a)
        × ((cm.entries a).pending_joins ≡ count a joining)
        × ((lookup cm.chans k ≡ some b) → (cm.channels b).name_casefolded ≡ k)
  claimed-stays a k b ok r pending =
      let good = Reach-IsCounted r ok in (good.held a pending, good.counted a, good.names.named k b)
