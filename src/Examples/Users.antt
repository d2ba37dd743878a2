-- ===== src/Examples/Users.antt =====
-- A client and counters on which the theorems on user modes are run.
use oragono.Prelude.{◌≡◌, refl, true, false, ◌||◌, List, [], ◌∷◌, arith, nat_eq, string_eq}
use oragono.Prelude.Int.{pos, ◌+ℤ◌}
use oragono.Modes.Letters.{ModeChange, add, remove, invisible, operator, local_operator}
use oragono.Modes.ModeSet.{new_mode_set, has_mode}
use oragono.Modes.ModeSet.Laws.{IsWords}
use oragono.Channel.State.{Client}
use oragono.UserModes.{Tallies, add_registered, remove_user, apply_user_mode_changes}
use oragono.UserModes.Counters.{AllLetters, IsBalanced, apply_user_mode_changes-IsBalanced}
use oragono.UserModes.Notices.{
  at_end, apply_user_mode_changes-not_opered, remove_user-register, detached_counted_twice,
}
use oragono.Modes.ModeSet.{set_mode}
use oragono.Examples.Setting.{alice}

abbrev plain_alice : Client
plain_alice = record alice { modes = new_mode_set }

abbrev tallies : Tallies
tallies = record {
  stats = record {
    unknown = pos 2;
    total = pos 5;
    highest = pos 9;
    invisibles = pos 1;
    operators = pos 1;
  };
  send_lists = [];
}

-- MODE alice +i-i+io
abbrev asked : List ModeChange
asked =
    (record { mode = invisible; op = add; arg = "" })
    ∷ (record { mode = invisible; op = remove; arg = "" })
    ∷ (record { mode = invisible; op = add; arg = "" })
    ∷ (record { mode = operator; op = add; arg = "" })
    ∷ []

asked_letters : AllLetters asked
asked_letters = (
  (ground arith, ground arith),
  (
    (ground arith, ground arith),
    ((ground arith, ground arith), ((ground arith, ground arith), tt)),
  ),
)

small_words : IsWords new_mode_set
small_words = record { lo_fits = ground arith; hi_fits = ground arith }

apply_user_mode_changes-IsBalanced_example :
    IsBalanced (plain_alice, tallies) (apply_user_mode_changes 1 true plain_alice tallies asked).0
apply_user_mode_changes-IsBalanced_example =
    apply_user_mode_changes-IsBalanced 1 true plain_alice tallies asked asked_letters small_words

apply_user_mode_changes-not_opered_example :
    has_mode (apply_user_mode_changes 1 false plain_alice tallies asked).0.0.modes operator ≡ false
unfolding has_mode
apply_user_mode_changes-not_opered_example =
    apply_user_mode_changes-not_opered 1 plain_alice tallies asked asked_letters refl

remove_user-register_example :
    let (c', t') = at_end 1 true plain_alice tallies asked in
    let s =
      remove_user t'.stats true
        (has_mode c'.modes invisible)
        (has_mode c'.modes local_operator || has_mode c'.modes operator) in
    (s.total ≡ pos 5) × (s.invisibles ≡ pos 1) × (s.operators ≡ pos 1)
unfolding has_mode apply_user_mode_changes set_mode
remove_user-register_example =
    remove_user-register 1 true plain_alice tallies asked asked_letters small_words refl refl refl

detached_counted_twice_example :
    let change : ModeChange = record { mode = invisible; op = add; arg = "" } in
    let ((c', t'), applied) = apply_user_mode_changes 1 false plain_alice tallies (change ∷ []) in
    (add_registered t'.stats (has_mode c'.modes invisible) false).invisibles
    ≡ tallies.stats.invisibles +ℤ pos 2
unfolding has_mode
detached_counted_twice_example =
    detached_counted_twice 1 false plain_alice tallies "" false small_words refl
