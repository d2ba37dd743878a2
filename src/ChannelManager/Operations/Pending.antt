-- ===== src/ChannelManager/Operations/Pending.antt =====
-- The counters of pending joins: a channel that a join has claimed keeps its name and its place in the
-- table until the join is over, however the operations of other clients fall in between.
use oragono.Prelude.{
  ℕ, ◌+◌, ◌-◌, ◌<◌, String, ◌≡◌, ◌∙◌, ◌≢◌, Bool, true, false, Option, none, some, List, [], ◌∷◌,
  arith, if◌then◌else◌, nat_beq_iff, nat_beq_refl, ◌==◌, nat_eq, string_eq, beq_refl,
}
use oragono.Prelude.GoMap.{lookup, has, delete, lookup-insert, lookup-delete}
use oragono.Channel.Storage.{new_channel, rename_channel}
use oragono.ChannelManager.State.{ChannelManager, World, Config}
use oragono.ChannelManager.Operations.{create, add_pending, claim_entry, drop_clean, maybe_cleanup}
use oragono.ChannelManager.Registry.{move_entry}
use oragono.ChannelManager.Operations.Names.{
  IsNamed, claim_entry-IsNamed, maybe_cleanup-IsNamed, move_entry-IsNamed,
}

-- How many of the pending joins have claimed the channel.
abbrev pub count : ℕ → List ℕ → ℕ
count a [] = 0
count a (b ∷ bs) = (if b == a then 1 else 0) + count a bs

abbrev pub remove_one : ℕ → List ℕ → List ℕ
remove_one a [] = []
remove_one a (b ∷ bs) = let rest = remove_one a bs in if b == a then bs else b ∷ rest

count-remove_one :
    (a b : ℕ) (bs : List ℕ)
    → 0 < count a bs
    → count b (remove_one a bs) ≡ count b bs - (if a == b then 1 else 0)
count-remove_one a b [] h = absurd (omega arith)
count-remove_one a b (c ∷ bs) h =
    ground (arith, count-remove_one a b bs, nat_beq_iff c a, nat_beq_iff c b, nat_beq_iff a b)

-- `joining` are the channels that the pending joins have claimed.
pub record IsCounted (cm : ChannelManager) (joining : List ℕ) : Type 0 where
  pub names : IsNamed cm
  pub counted : (a : ℕ) → (cm.entries a).pending_joins ≡ count a joining
  pub allocated : (a : ℕ) → 0 < count a joining → a < cm.next_address
  pub held :
      (a : ℕ) → 0 < count a joining → lookup cm.chans (cm.channels a).name_casefolded ≡ some a

pub claim_entry-IsCounted :
    (cfg : Config) (cm : ChannelManager) (name cf skeleton : String) (may_create : Bool) (now a : ℕ)
    (o : Option ℕ) (joining : List ℕ)
    → lookup cm.chans cf ≡ o
    → (claim_entry cfg cm name cf skeleton may_create now o).1 ≡ (none, a)
    → IsCounted cm joining
    → IsCounted (claim_entry cfg cm name cf skeleton may_create now o).0 (a ∷ joining)
unfolding claim_entry add_pending create new_channel
claim_entry-IsCounted cfg cm name cf skeleton may_create now a (some b) joining found e ok =
    record {
      names = claim_entry-IsNamed cfg cm name cf skeleton may_create now (some b) ok.names;
      counted =
          λ c. ground (arith, e, ok.counted c, ok.counted b, nat_beq_iff b c, nat_beq_iff a c);
      allocated =
          λ c h. ground (arith, e, ok.allocated c, ok.names.known cf b found, nat_beq_iff a c);
      held = λ c h. ground (arith, e, ok.held c, ok.names.named cf b found, found, nat_beq_iff a c);
    }
claim_entry-IsCounted cfg cm name cf skeleton may_create now a none joining found e ok = record {
  names = claim_entry-IsNamed cfg cm name cf skeleton may_create now none ok.names;
  counted = λ c. ground (
    arith,
    e,
    ok.counted c,
    ok.counted cm.next_address,
    ok.allocated cm.next_address,
    nat_beq_iff cm.next_address c,
    nat_beq_iff a c,
    nat_beq_refl cm.next_address,
  );
  allocated = λ c h. ground (arith, e, ok.allocated c, nat_beq_iff a c);
  held = λ c h. ground (
    arith,
    e,
    found,
    ok.held c,
    ok.allocated c,
    nat_beq_iff cm.next_address c,
    nat_beq_iff a c,
    lookup-insert cm.chans cf (cm.channels c).name_casefolded cm.next_address,
    lookup-insert cm.chans cf cf cm.next_address,
    beq_refl cf,
    string_eq.equals_iff cf (cm.channels c).name_casefolded,
  );
}

-- A change that leaves the table, the names and the counters alone.
pub quiet-IsCounted :
    (cm cm' : ChannelManager) (joining : List ℕ)
    → IsNamed cm'
    → cm'.chans ≡ cm.chans
    → cm'.next_address ≡ cm.next_address
    → ((a : ℕ) → (cm'.channels a).name_casefolded ≡ (cm.channels a).name_casefolded)
    → ((a : ℕ) → (cm'.entries a).pending_joins ≡ (cm.entries a).pending_joins)
    → IsCounted cm joining
    → IsCounted cm' joining
quiet-IsCounted cm cm' joining named chans next names entries ok = record {
  names = named;
  counted = λ a. entries a ∙ ok.counted a;
  allocated = λ a h. rw next (ok.allocated a h);
  held = λ a h. rw (chans, names a) (ok.held a h);
}

pub finish-IsCounted :
    (world : World) (cm : ChannelManager) (a : ℕ) (joining : List ℕ)
    → 0 < count a joining
    → IsCounted cm joining
    → IsCounted (maybe_cleanup world cm a true) (remove_one a joining)
unfolding maybe_cleanup drop_clean
finish-IsCounted world cm a joining pending ok =
    let name = (cm.channels a).name_casefolded in
    record {
      names = maybe_cleanup-IsNamed world cm a true ok.names;
      counted = λ b. ground (
        arith,
        ok.counted b,
        ok.counted a,
        ok.held a pending,
        count-remove_one a b joining pending,
        nat_beq_iff a b,
        nat_beq_refl a,
      );
      allocated = λ b h. ground (arith, ok.allocated b, count-remove_one a b joining pending);
      held = λ b h. ground (
        arith,
        ok.held b,
        ok.held a pending,
        ok.counted a,
        count-remove_one a b joining pending,
        lookup-delete cm.chans name (cm.channels b).name_casefolded,
        nat_beq_iff a b,
        nat_beq_refl a,
        string_eq.equals_iff name (cm.channels b).name_casefolded,
      );
    }

pub clean-IsCounted :
    (world : World) (cm : ChannelManager) (a : ℕ) (joining : List ℕ)
    → IsCounted cm joining
    → IsCounted (maybe_cleanup world cm a false) joining
unfolding maybe_cleanup drop_clean
clean-IsCounted world cm a joining ok =
    let name = (cm.channels a).name_casefolded in
    record {
      names = maybe_cleanup-IsNamed world cm a false ok.names;
      counted = λ b. ground (arith, ok.counted b);
      allocated = λ b h. ground (arith, ok.allocated b);
      held = λ b h. ground (
        arith,
        ok.held b,
        ok.counted a,
        ok.counted b,
        lookup-delete cm.chans name (cm.channels b).name_casefolded,
        nat_beq_iff a b,
        string_eq.equals_iff name (cm.channels b).name_casefolded,
      );
    }

pub move-IsCounted :
    (world : World) (cm : ChannelManager) (a : ℕ) (cf name new_cf skeleton : String) (now : ℕ)
    (joining : List ℕ)
    → (cm.channels a).registered_founder ≢ ""
    → lookup cm.chans cf ≡ some a
    → has cm.chans new_cf ≡ false
    → IsCounted cm joining
    → IsCounted (move_entry world cm a cf name new_cf skeleton now) joining
unfolding move_entry rename_channel
move-IsCounted world cm a cf name new_cf skeleton now joining registered here free ok =
    let founder = string_eq.equals_iff (cm.channels a).registered_founder "" in
    record {
      names =
          move_entry-IsNamed world cm a cf name new_cf skeleton now registered here free ok.names;
      counted = λ b. ground (arith, ok.counted b, registered, founder);
      allocated = λ b h. ground (arith, ok.allocated b, registered, founder);
      held = λ b h.
          let old = (cm.channels b).name_casefolded in
          ground (
            arith,
            ok.held b,
            registered,
            founder,
            ok.names.named cf a here,
            nat_beq_iff a b,
            beq_refl new_cf,
            lookup-insert (delete cm.chans cf) new_cf old a,
            lookup-delete cm.chans cf old,
            lookup-insert (delete cm.chans cf) new_cf new_cf a,
            string_eq.equals_iff new_cf old,
            string_eq.equals_iff cf old,
          );
    }
