-- ===== src/Examples/Modes.antt =====
-- The theorems on modes, masks and their texts.
use oragono.Prelude.{◌≡◌, refl, true, false, some, List, [], ◌∷◌, arith, nat_eq, string_eq}
use oragono.Prelude.GoMap.{has}
use oragono.Modes.Letters.{Mode, channel_operator, moderated, key_mode, add, remove, ModeChange}
use oragono.Modes.Privileges.{is_channel_user_mode}
use oragono.Modes.Parse.{parse_channel_mode_changes, channel_supports, strings}
use oragono.Modes.Parse.RoundTrip.{reparse, reparse-strings}
use oragono.Modes.Parse.Sound.{All, needs_arg, IsGiven, parse_channel_mode_changes_sound}
use oragono.Masks.{UserMaskSet, new_user_mask_set, MaskInfo, add_mask}
use oragono.Modes.Parse.RoundTrip.{has_right_arg}
use oragono.Modes.Parse.{is_mask_mode}
use oragono.Examples.Setting.{plain_text}

abbrev some_changes : List ModeChange
some_changes =
    record { mode = channel_operator; op = add; arg = "bob" }
    ∷ record { mode = key_mode; op = remove; arg = "*" }
    ∷ record { mode = moderated; op = remove; arg = "" }
    ∷ []

reparse-strings_example : reparse (strings some_changes) ≡ (some_changes, [])
unfolding channel_supports has_right_arg is_mask_mode is_channel_user_mode
reparse-strings_example = reparse-strings some_changes (
  record { signed = λ h. ground (arith, h); supported = refl; right_arg = refl },
  (
    record { signed = λ h. ground (arith, h); supported = refl; right_arg = refl },
    (record { signed = λ h. ground (arith, h); supported = refl; right_arg = refl }, tt),
  ),
)

parse_channel_mode_changes_sound_example :
    let (changes, unknown) = parse_channel_mode_changes (some (43 ∷ 111 ∷ [])) ("bob" ∷ []) in
    All
      (λ c. (channel_supports c.mode ≡ true) × (needs_arg c ≡ true → IsGiven ("bob" ∷ []) c))
      changes
    × ((m : Mode) → has unknown m ≡ true → channel_supports m ≡ false)
parse_channel_mode_changes_sound_example =
    parse_channel_mode_changes_sound (43 ∷ 111 ∷ []) ("bob" ∷ [])

abbrev by_alice : MaskInfo
by_alice = record { time_created = 1; creator_nickmask = "alice!a@host"; creator_account = "alice" }

abbrev one_ban : UserMaskSet
one_ban = (add_mask plain_text new_user_mask_set (some "bob!*@*") by_alice).0
