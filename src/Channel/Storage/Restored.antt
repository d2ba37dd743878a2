-- ===== src/Channel/Storage/Restored.antt =====
-- A channel that is written and read back is the channel that was written.
use oragono.Prelude.{
  ℕ, zero, suc, ◌+◌, ◌≤◌, String, ◌≡◌, refl, Bool, true, false, ◌&&◌, ◌||◌, none, some, List, [],
  ◌∷◌, arith, ltb, leb, nat_beq_iff, ◌==◌, nat_eq, string_eq,
}
use oragono.Prelude.GoMap.{GoMap, lookup, insert, distinct, distinct-insert, lookup-insert}
use oragono.Prelude.Bits.{bit-zero}
use oragono.Modes.Letters.{Mode}
use oragono.Modes.ModeSet.{ModeSet, new_mode_set, has_mode, set_mode, modes_from, all_modes}
use oragono.Modes.ModeSet.Laws.{IsModeLetter, has_mode-set_mode, has_mode-bit, offset_of}
use oragono.Masks.{RegexpPackage, UserMaskSet, new_user_mask_set, set_masks, set_regexp}
use oragono.Masks.Coherence.{IsCoherent}
use oragono.Channel.State.{Channel}
use oragono.Channel.Storage.{include_all_attrs}
use oragono.Channel.Storage.{
  set_modes, copy_into, new_channel, export_registration, apply_reg_info, load,
}

contains : List Mode → Mode → Bool
contains [] k = false
contains (m ∷ ms) k = m == k || contains ms k

AllLetters : List Mode → Type 0
AllLetters [] = Unit {0}
AllLetters (m ∷ ms) = IsModeLetter m × AllLetters ms

has_mode-set_modes :
    (s : ModeSet) (ms : List Mode) (k : Mode)
    → AllLetters ms
    → IsModeLetter k
    → has_mode (set_modes s ms) k ≡ (contains ms k || has_mode s k)
unfolding set_modes contains AllLetters
has_mode-set_modes s [] k all letter = refl
has_mode-set_modes s (m ∷ ms) k all letter = ground (
  arith,
  has_mode-set_modes (set_mode s m true).0 ms k all.1 letter,
  has_mode-set_mode s m k true all.0 letter,
)

-- The letters that the loop of AllModes reports are those that are set, from `i` on.
modes_from-AllLetters :
    (s : ModeSet) (n i : ℕ) → 65 ≤ i → i + n ≤ 129 → AllLetters (modes_from s n i)
unfolding modes_from AllLetters
modes_from-AllLetters s zero i low high = tt
modes_from-AllLetters s (suc n) i low high =
    ground (arith, modes_from-AllLetters s n (i + 1) (omega arith) (omega arith))

contains-modes_from :
    (s : ModeSet) (n i k : ℕ)
    → contains (modes_from s n i) k ≡ (leb i k && ltb k (i + n) && has_mode s k)
unfolding modes_from contains
contains-modes_from s zero i k = ground arith
contains-modes_from s (suc n) i k =
    ground (arith, contains-modes_from s n (i + 1) k, nat_beq_iff i k)

lookup-copy_into {ℓ} :
    {V : Type ℓ} (to m : GoMap String V) (k : String)
    → distinct m ≡ true
    → lookup (copy_into to m) k ≡ elim (lookup m k) [ none ↦ lookup to k | some v ↦ some v ]
unfolding distinct copy_into lookup
lookup-copy_into to [] k d = refl
lookup-copy_into to ((j, v) ∷ m) k d =
    ground (
      arith,
      lookup-copy_into (insert to j v) m k,
      lookup-insert to j k v,
      string_eq.equals_iff j k,
    )

distinct-copy_into {ℓ} :
    {V : Type ℓ} (to m : GoMap String V) → distinct to ≡ true → distinct (copy_into to m) ≡ true
unfolding copy_into
distinct-copy_into to [] d = d
distinct-copy_into to ((k, v) ∷ m) d =
    distinct-copy_into (insert to k v) m (distinct-insert to k v d)

blank_flag : (k : Mode) → IsModeLetter k → has_mode new_mode_set k ≡ false
blank_flag k letter = ground (arith, has_mode-bit new_mode_set k letter, bit-zero (offset_of k))

restored_flag :
    (s : ModeSet) (k : Mode)
    → 65 ≤ k
    → k ≤ 122
    → has_mode (set_modes new_mode_set (all_modes s)) k ≡ has_mode s k
unfolding all_modes has_mode
restored_flag s k low high = ground (
  arith,
  blank_flag k (omega arith, omega arith),
  has_mode-set_modes new_mode_set (modes_from s 58 65) k
      (modes_from-AllLetters s 58 65 (omega arith) (omega arith)) (omega arith, omega arith),
  contains-modes_from s 58 65 k,
)

restored_status :
    (m : GoMap String Mode) (account : String)
    → distinct m ≡ true
    → lookup (copy_into [] (copy_into [] m)) account ≡ lookup m account
unfolding distinct lookup
restored_status m account d = ground (
  arith,
  lookup-copy_into [] (copy_into [] m) account (distinct-copy_into [] m refl),
  lookup-copy_into [] m account d,
)

module _ (re : RegexpPackage) where
  restored_masks :
      (s : UserMaskSet) → IsCoherent re s → (t : UserMaskSet) → set_masks re t s.masks ≡ s
  unfolding set_masks set_regexp
  restored_masks s coherent t = coherent

  -- What is written of a channel with all its attributes restores it: a new channel that loads it has the
  -- founder, name, topic, key and limit, every flag that is a letter, every status and every mask.
  pub load-export_registration :
      (ch : Channel) (defaults : List Mode) (name cf account : String) (now : ℕ) (k : Mode)
      → 65 ≤ k
      → k ≤ 122
      → distinct ch.account_to_umode ≡ true
      → IsCoherent re ch.bans
      → IsCoherent re ch.excepts
      → IsCoherent re ch.invites
      → let ch' =
          load re
            (new_channel defaults name cf now true)
            (some (export_registration ch include_all_attrs)) in
        (ch'.registered_founder ≡ ch.registered_founder)
        × (ch'.name ≡ ch.name)
        × (ch'.topic ≡ ch.topic)
        × (ch'.key ≡ ch.key)
        × (ch'.user_limit ≡ ch.user_limit)
        × (has_mode ch'.flags k ≡ has_mode ch.flags k)
        × (lookup ch'.account_to_umode account ≡ lookup ch.account_to_umode account)
        × (ch'.bans ≡ ch.bans)
        × (ch'.excepts ≡ ch.excepts)
        × (ch'.invites ≡ ch.invites)
  unfolding load apply_reg_info export_registration new_channel all_modes
  load-export_registration ch defaults name cf account now k low high d b e i = (
    refl,
    refl,
    refl,
    refl,
    refl,
    restored_flag ch.flags k low high,
    restored_status ch.account_to_umode account d,
    restored_masks ch.bans b new_user_mask_set,
    restored_masks ch.excepts e new_user_mask_set,
    restored_masks ch.invites i new_user_mask_set,
  )
