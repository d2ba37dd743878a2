-- ===== src/UserModes/Notices.antt =====
-- Nobody becomes an operator by a mode change alone, and how the counters end for a client that leaves.
use oragono.Prelude.{
  ℕ, String, ◌≡◌, refl, ap, ◌∙◌, Bool, true, false, ◌||◌, List, [], ◌∷◌, arith, nat_eq, string_eq,
}
use oragono.Prelude.Int.{ℤ, pos, ◌+ℤ◌, ◌-ℤ◌, pos_part, neg_part, int_laws}
use oragono.Modes.Letters.{ModeChange, add, invisible, operator, local_operator}
use oragono.Modes.ModeSet.{has_mode, set_mode}
use oragono.Modes.ModeSet.Laws.{IsModeLetter, IsWords, has_mode-set_mode, changed-set_mode}
use oragono.Channel.State.{Client}
use oragono.UserModes.{
  StatsValues, Tallies, UserState, one_if, change_invisible, counted, apply_add, apply_remove,
  apply_notices, apply_user_change, apply_user_changes, marked, apply_user_mode_changes, register,
  set_max, remove_user, add_registered,
}
use oragono.UserModes.Counters.{AllLetters, oper_weight, apply_user_mode_changes-IsBalanced}

module _ (who : ℕ) where
  change-not_opered :
      (c : Client) (t : Tallies) (change : ModeChange)
      → IsModeLetter change.mode
      → has_mode c.modes operator ≡ false
      → has_mode (apply_user_change who false c t change).0.0.modes operator ≡ false
  unfolding apply_user_change apply_add apply_remove apply_notices
  change-not_opered c t change letter plain = ground (
    arith,
    plain,
    has_mode-set_mode c.modes change.mode operator true letter (ground arith, ground arith),
    has_mode-set_mode c.modes change.mode operator false letter (ground arith, ground arith),
  )

  changes-not_opered :
      (c : Client) (t : Tallies) (changes : List ModeChange)
      → AllLetters changes
      → has_mode c.modes operator ≡ false
      → has_mode (apply_user_changes who false c t changes).0.0.modes operator ≡ false
  unfolding apply_user_changes
  changes-not_opered c t [] letters plain = plain
  changes-not_opered c t (change ∷ changes) (letter, letters) plain =
      let s = (apply_user_change who false c t change).0 in
      changes-not_opered s.0 s.1 changes letters (change-not_opered c t change letter plain)

  marked-modes : (r : UserState × List ModeChange) → (marked r).0.0.modes ≡ r.0.0.modes
  marked-modes (s, []) = refl
  marked-modes ((c, t), change ∷ changes) = refl

  -- Without force, or without an oper class, no mode changes of letters make an operator of a client that is
  -- none.
  pub apply_user_mode_changes-not_opered :
      (c : Client) (t : Tallies) (changes : List ModeChange)
      → AllLetters changes
      → has_mode c.modes operator ≡ false
      → has_mode (apply_user_mode_changes who false c t changes).0.0.modes operator ≡ false
  unfolding apply_user_mode_changes
  apply_user_mode_changes-not_opered c t changes letters plain =
      ap (λ s. has_mode s operator) (marked-modes (apply_user_changes who false c t changes))
      ∙ changes-not_opered c t changes letters plain

left_over : (a b f g : ℤ) → b +ℤ f ≡ a +ℤ f +ℤ g → b -ℤ g ≡ a
left_over a b f g p = omega (int_laws, ap pos_part p, ap neg_part p)

one_back : (a : ℤ) → a +ℤ pos 1 -ℤ pos 1 ≡ a
one_back a = omega int_laws

opers_left :
    (a b : ℤ) (o l o' l' : Bool)
    → o ≡ false
    → l ≡ false
    → l' ≡ false
    → b +ℤ (one_if o +ℤ one_if l) ≡ a +ℤ (one_if o' +ℤ one_if l')
    → b -ℤ one_if (l' || o') ≡ a
opers_left a b true l o' l' p q r e = ground (arith, p)
opers_left a b false true o' l' p q r e = ground (arith, q)
opers_left a b false false o' true p q r e = ground (arith, r)
opers_left a b false false true false p q r e = omega (int_laws, ap pos_part e, ap neg_part e)
opers_left a b false false false false p q r e = omega (int_laws, ap pos_part e, ap neg_part e)

register_counters :
    (s : StatsValues) (i : Bool)
    → ((register s i).total ≡ s.total +ℤ pos 1)
      × ((register s i).invisibles ≡ s.invisibles +ℤ one_if i)
      × ((register s i).operators ≡ s.operators)
unfolding register set_max
register_counters s i = (ground arith, ground arith, ground arith)

module _ (who : ℕ) (allowed : Bool) (c : Client) (t : Tallies) (changes : List ModeChange) where
  abbrev pub registered_tallies : Tallies
  registered_tallies = record t { stats = register t.stats (has_mode c.modes invisible) }

  abbrev pub at_end : UserState
  at_end = (apply_user_mode_changes who allowed c registered_tallies changes).0

  -- A client that is no operator is registered, its modes are changed, and it leaves: the counters of all
  -- users, of invisible users and of operators are what they were before it was registered, if it is not a
  -- local operator then.
  pub remove_user-register :
      AllLetters changes
      → IsWords c.modes
      → has_mode c.modes operator ≡ false
      → has_mode c.modes local_operator ≡ false
      → has_mode at_end.0.modes local_operator ≡ false
      → let (c', t') = at_end in
        let s =
          remove_user t'.stats true
            (has_mode c'.modes invisible)
            (has_mode c'.modes local_operator || has_mode c'.modes operator) in
        (s.total ≡ t.stats.total)
        × (s.invisibles ≡ t.stats.invisibles)
        × (s.operators ≡ t.stats.operators)
  unfolding remove_user
  remove_user-register letters w plain local end =
      let b =
        apply_user_mode_changes-IsBalanced who allowed c registered_tallies changes letters w in
      let r = register_counters t.stats (has_mode c.modes invisible) in
      (
        ap (λ x. x -ℤ pos 1) (b.others.1 ∙ r.0) ∙ one_back t.stats.total,
        left_over t.stats.invisibles at_end.1.stats.invisibles (one_if (has_mode c.modes invisible))
            (one_if (has_mode at_end.0.modes invisible))
            (b.by_invisible ∙ ap (λ x. x +ℤ one_if (has_mode at_end.0.modes invisible)) r.1),
        opers_left t.stats.operators at_end.1.stats.operators (has_mode c.modes operator)
            (has_mode c.modes local_operator) (has_mode at_end.0.modes operator)
            (has_mode at_end.0.modes local_operator) plain local end
            (b.by_operator ∙ ap (λ x. x +ℤ oper_weight at_end.0.modes) r.2),
      )

two : (a : ℤ) → a +ℤ pos 1 +ℤ pos 1 ≡ a +ℤ pos 2
two a = omega int_laws

attached_counter :
    (s : StatsValues) (i o : Bool) → (add_registered s i o).invisibles ≡ s.invisibles +ℤ one_if i
unfolding add_registered set_max
attached_counter s i o = ground arith

made_invisible :
    (who : ℕ) (allowed : Bool) (c : Client) (t : Tallies) (arg : String)
    → IsWords c.modes
    → has_mode c.modes invisible ≡ false
    → let change : ModeChange = record { mode = invisible; op = add; arg = arg } in
      let ((c', t'), applied) = apply_user_mode_changes who allowed c t (change ∷ []) in
      (has_mode c'.modes invisible ≡ true) × (t'.stats.invisibles ≡ t.stats.invisibles +ℤ pos 1)
unfolding apply_user_mode_changes apply_user_changes apply_user_change apply_add counted
    change_invisible
made_invisible who allowed c t arg w visible =
    let up : ((set_mode c.modes invisible true).1 ≡ true) =
      ground
        (arith, visible, changed-set_mode c.modes invisible true (ground arith, ground arith) w) in
    let flag : (has_mode (set_mode c.modes invisible true).0 invisible ≡ true) =
      has_mode-set_mode c.modes invisible invisible true (ground arith, ground arith)
        (ground arith, ground arith) in
    (ground (arith, up, flag), ground (arith, up))

-- A client that is always on, with no session, and so not counted: if it is made invisible and then a
-- session attaches, the counter of invisible users has gone up by two.
pub detached_counted_twice :
    (who : ℕ) (allowed : Bool) (c : Client) (t : Tallies) (arg : String) (is_oper : Bool)
    → IsWords c.modes
    → has_mode c.modes invisible ≡ false
    → let change : ModeChange = record { mode = invisible; op = add; arg = arg } in
      let ((c', t'), applied) = apply_user_mode_changes who allowed c t (change ∷ []) in
      (add_registered t'.stats (has_mode c'.modes invisible) is_oper).invisibles
      ≡ t.stats.invisibles +ℤ pos 2
detached_counted_twice who allowed c t arg is_oper w visible =
    let change : ModeChange = record { mode = invisible; op = add; arg = arg } in
    let s : UserState = (apply_user_mode_changes who allowed c t (change ∷ [])).0 in
    let (flag, count) = made_invisible who allowed c t arg w visible in
    attached_counter s.1.stats (has_mode s.0.modes invisible) is_oper
    ∙ ap (λ b. s.1.stats.invisibles +ℤ one_if b) flag
    ∙ ap (λ x. x +ℤ pos 1) count
    ∙ two t.stats.invisibles
