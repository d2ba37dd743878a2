-- ===== src/UserModes/Counters.antt =====
-- The counters of invisible users and operators follow the modes of the users.
use oragono.Prelude.{
  ℕ, String, ◌≡◌, refl, ap, ◌∙◌, inl, inr, Bool, true, false, List, [], ◌∷◌, arith, if◌then◌else◌,
  Bool-cases, ◌==◌, nat_eq, string_eq,
}
use oragono.Prelude.Int.{ℤ, pos, negsuc, ◌+ℤ◌, pos_part, neg_part, int_laws}
use oragono.Modes.Letters.{
  Mode, ModeOp, ModeChange, add, list, remove, invisible, operator, local_operator, server_notice,
}
use oragono.Modes.ModeSet.{ModeSet, has_mode, set_mode}
use oragono.Modes.ModeSet.Laws.{
  IsModeLetter, IsWords, has_mode-set_mode, changed-set_mode, set_mode-IsWords,
}
use oragono.Channel.State.{Client}
use oragono.UserModes.{
  Tallies, UserState, one_if, change_invisible, change_operators, counted, apply_add, drop_notices,
  apply_remove, apply_notices, apply_user_change, apply_user_changes, marked,
  apply_user_mode_changes,
}

-- How often a client counts as an operator.
abbrev pub oper_weight : ModeSet → ℤ
oper_weight s = one_if (has_mode s operator) +ℤ one_if (has_mode s local_operator)

-- The counters have moved by what the modes have changed, and the others have not moved.
pub record IsBalanced (before : UserState) (after : UserState) : Type 0 where
  pub by_invisible :
      after.1.stats.invisibles +ℤ one_if (has_mode before.0.modes invisible)
      ≡ before.1.stats.invisibles +ℤ one_if (has_mode after.0.modes invisible)
  pub by_operator :
      after.1.stats.operators +ℤ oper_weight before.0.modes
      ≡ before.1.stats.operators +ℤ oper_weight after.0.modes
  pub others :
      (after.1.stats.unknown ≡ before.1.stats.unknown)
      × (after.1.stats.total ≡ before.1.stats.total)
      × (after.1.stats.highest ≡ before.1.stats.highest)
  pub words : IsWords before.0.modes → IsWords after.0.modes

chain : (a b c d e f : ℤ) → b +ℤ d ≡ a +ℤ e → c +ℤ e ≡ b +ℤ f → c +ℤ d ≡ a +ℤ f
chain a b c d e f p q = omega (int_laws, ap pos_part p, ap neg_part p, ap pos_part q, ap neg_part q)

IsBalanced-refl : (s : UserState) → IsBalanced s s
IsBalanced-refl s = record {
  by_invisible = refl;
  by_operator = refl;
  others = (refl, refl, refl);
  words = λ w. w;
}

IsBalanced-trans : (r s t : UserState) → IsBalanced r s → IsBalanced s t → IsBalanced r t
IsBalanced-trans r s t p q = record {
  by_invisible =
      chain r.1.stats.invisibles s.1.stats.invisibles t.1.stats.invisibles
        (one_if (has_mode r.0.modes invisible)) (one_if (has_mode s.0.modes invisible))
        (one_if (has_mode t.0.modes invisible)) p.by_invisible q.by_invisible;
  by_operator =
      chain r.1.stats.operators s.1.stats.operators t.1.stats.operators (oper_weight r.0.modes)
        (oper_weight s.0.modes) (oper_weight t.0.modes) p.by_operator q.by_operator;
  others = (q.others.0 ∙ p.others.0, q.others.1 ∙ p.others.1, q.others.2 ∙ p.others.2);
  words = λ w. q.words (p.words w);
}

-- One flag goes up or down with its counter, alone or beside another flag.
up : (a : ℤ) → a +ℤ pos 1 +ℤ pos 0 ≡ a +ℤ pos 1
up a = omega int_laws

down : (a : ℤ) → a +ℤ negsuc 0 +ℤ pos 1 ≡ a +ℤ pos 0
down a = omega int_laws

up_left : (a b : ℤ) → a +ℤ pos 1 +ℤ (pos 0 +ℤ b) ≡ a +ℤ (pos 1 +ℤ b)
up_left a b = omega int_laws

up_right : (a b : ℤ) → a +ℤ pos 1 +ℤ (b +ℤ pos 0) ≡ a +ℤ (b +ℤ pos 1)
up_right a b = omega int_laws

down_left : (a b : ℤ) → a +ℤ negsuc 0 +ℤ (pos 1 +ℤ b) ≡ a +ℤ (pos 0 +ℤ b)
down_left a b = omega int_laws

down_right : (a b : ℤ) → a +ℤ negsuc 0 +ℤ (b +ℤ pos 1) ≡ a +ℤ (b +ℤ pos 0)
down_right a b = omega int_laws

abbrev step_of : Bool → ℤ
step_of true = pos 1
step_of false = negsuc 0

module _ (c : Client) (t : Tallies) (m : Mode) where
  abbrev new_modes : Bool → ModeSet
  new_modes on = (set_mode c.modes m on).0

  invisible_counted :
      (on : Bool)
      → IsModeLetter m
      → IsWords c.modes
      → (set_mode c.modes m on).1 ≡ true
      → (counted t.stats m (step_of on)).invisibles +ℤ one_if (has_mode c.modes invisible)
        ≡ t.stats.invisibles +ℤ one_if (has_mode (new_modes on) invisible)
  unfolding counted change_invisible change_operators
  invisible_counted true letter w changed = ground (
    arith,
    changed,
    changed-set_mode c.modes m true letter w,
    has_mode-set_mode c.modes m invisible true letter (ground arith, ground arith),
    up t.stats.invisibles,
  )
  invisible_counted false letter w changed = ground (
    arith,
    changed,
    changed-set_mode c.modes m false letter w,
    has_mode-set_mode c.modes m invisible false letter (ground arith, ground arith),
    down t.stats.invisibles,
  )

  operators_counted :
      (on : Bool)
      → IsModeLetter m
      → IsWords c.modes
      → (set_mode c.modes m on).1 ≡ true
      → (counted t.stats m (step_of on)).operators +ℤ oper_weight c.modes
        ≡ t.stats.operators +ℤ oper_weight (new_modes on)
  unfolding counted change_invisible change_operators
  operators_counted true letter w changed = ground (
    arith,
    changed,
    changed-set_mode c.modes m true letter w,
    has_mode-set_mode c.modes m operator true letter (ground arith, ground arith),
    has_mode-set_mode c.modes m local_operator true letter (ground arith, ground arith),
    up_left t.stats.operators (one_if (has_mode c.modes local_operator)),
    up_right t.stats.operators (one_if (has_mode c.modes operator)),
  )
  operators_counted false letter w changed = ground (
    arith,
    changed,
    changed-set_mode c.modes m false letter w,
    has_mode-set_mode c.modes m operator false letter (ground arith, ground arith),
    has_mode-set_mode c.modes m local_operator false letter (ground arith, ground arith),
    down_left t.stats.operators (one_if (has_mode c.modes local_operator)),
    down_right t.stats.operators (one_if (has_mode c.modes operator)),
  )

  others_counted :
      (on : Bool)
      → ((counted t.stats m (step_of on)).unknown ≡ t.stats.unknown)
        × ((counted t.stats m (step_of on)).total ≡ t.stats.total)
        × ((counted t.stats m (step_of on)).highest ≡ t.stats.highest)
  unfolding counted change_invisible change_operators
  others_counted on = (ground arith, ground arith, ground arith)

-- The changes that can be parsed are of letters.
abbrev pub AllLetters : List ModeChange → Type 0
AllLetters [] = Unit {0}
AllLetters (change ∷ changes) = IsModeLetter change.mode × AllLetters changes

apply_add-IsBalanced :
    (c : Client) (t : Tallies) (change : ModeChange) (allowed : Bool)
    → IsModeLetter change.mode
    → IsWords c.modes
    → IsBalanced (c, t) (apply_add c t change allowed).0
unfolding apply_add
apply_add-IsBalanced c t change allowed letter w =
    elim (Bool-cases (set_mode c.modes change.mode true).1) [
      | inl e ↦ record {
        by_invisible = ground (arith, e, invisible_counted c t change.mode true letter w e);
        by_operator = ground (arith, e, operators_counted c t change.mode true letter w e);
        others = (
          ground (arith, e, (others_counted c t change.mode true).0),
          ground (arith, e, (others_counted c t change.mode true).1),
          ground (arith, e, (others_counted c t change.mode true).2),
        );
        words = λ v. ground (arith, e, w, set_mode-IsWords c.modes change.mode true letter w);
      }
      | inr e ↦ record {
        by_invisible = ground (arith, e);
        by_operator = ground (arith, e);
        others = (ground (arith, e), ground (arith, e), ground (arith, e));
        words = λ v. ground (arith, e, w);
      }
    ]

apply_remove-IsBalanced :
    (who : ℕ) (c : Client) (t : Tallies) (change : ModeChange)
    → IsModeLetter change.mode
    → IsWords c.modes
    → IsBalanced (c, t) (apply_remove who c t change).0
unfolding apply_remove drop_notices
apply_remove-IsBalanced who c t change letter w =
    elim (Bool-cases (set_mode c.modes change.mode false).1) [
      | inl e ↦ record {
        by_invisible = ground (arith, e, invisible_counted c t change.mode false letter w e);
        by_operator = ground (arith, e, operators_counted c t change.mode false letter w e);
        others = (
          ground (arith, e, (others_counted c t change.mode false).0),
          ground (arith, e, (others_counted c t change.mode false).1),
          ground (arith, e, (others_counted c t change.mode false).2),
        );
        words = λ v. ground (arith, e, w, set_mode-IsWords c.modes change.mode false letter w);
      }
      | inr e ↦ record {
        by_invisible = ground (arith, e);
        by_operator = ground (arith, e);
        others = (ground (arith, e), ground (arith, e), ground (arith, e));
        words = λ v. ground (arith, e, w);
      }
    ]

apply_notices-IsBalanced :
    (who : ℕ) (c : Client) (t : Tallies) (change : ModeChange)
    → IsBalanced (c, t) (apply_notices who c t change).0
unfolding apply_notices
apply_notices-IsBalanced who c t change = record {
  by_invisible = ground arith;
  by_operator = ground arith;
  others = (ground arith, ground arith, ground arith);
  words = λ w. ground (arith, w);
}

either-IsBalanced :
    (s : UserState) (b : Bool) (x y : UserState × List ModeChange)
    → IsBalanced s x.0
    → IsBalanced s y.0
    → IsBalanced s (if b then x else y).0
either-IsBalanced s true x y p q = p
either-IsBalanced s false x y p q = q

by_op :
    (who : ℕ) (allowed : Bool) (c : Client) (t : Tallies) (m : Mode) (op : ModeOp) (arg : String)
    → IsModeLetter m
    → IsWords c.modes
    → let change : ModeChange = record { mode = m; op = op; arg = arg } in
      IsBalanced (c, t) (apply_user_change who allowed c t change).0
unfolding apply_user_change
by_op who allowed c t m add arg letter w =
    let change : ModeChange = record { mode = m; op = add; arg = arg } in
    either-IsBalanced (c, t) (m == server_notice) (apply_notices who c t change)
      (apply_add c t change allowed) (apply_notices-IsBalanced who c t change)
      (apply_add-IsBalanced c t change allowed letter w)
by_op who allowed c t m list arg letter w =
    let change : ModeChange = record { mode = m; op = list; arg = arg } in
    either-IsBalanced (c, t) (m == server_notice) (apply_notices who c t change) ((c, t), [])
      (apply_notices-IsBalanced who c t change) (IsBalanced-refl (c, t))
by_op who allowed c t m remove arg letter w =
    let change : ModeChange = record { mode = m; op = remove; arg = arg } in
    either-IsBalanced (c, t) (m == server_notice) (apply_notices who c t change)
      (apply_remove who c t change) (apply_notices-IsBalanced who c t change)
      (apply_remove-IsBalanced who c t change letter w)

apply_user_change-IsBalanced :
    (who : ℕ) (allowed : Bool) (c : Client) (t : Tallies) (change : ModeChange)
    → IsModeLetter change.mode
    → IsWords c.modes
    → IsBalanced (c, t) (apply_user_change who allowed c t change).0
apply_user_change-IsBalanced who allowed c t change letter w =
    by_op who allowed c t change.mode change.op change.arg letter w

apply_user_changes-IsBalanced :
    (who : ℕ) (allowed : Bool) (c : Client) (t : Tallies) (changes : List ModeChange)
    → AllLetters changes
    → IsWords c.modes
    → IsBalanced (c, t) (apply_user_changes who allowed c t changes).0
unfolding apply_user_changes
apply_user_changes-IsBalanced who allowed c t [] letters w = IsBalanced-refl (c, t)
apply_user_changes-IsBalanced who allowed c t (change ∷ changes) (letter, letters) w =
    let s = (apply_user_change who allowed c t change).0 in
    let p = apply_user_change-IsBalanced who allowed c t change letter w in
    IsBalanced-trans (c, t) s (apply_user_changes who allowed s.0 s.1 changes).0 p
      (apply_user_changes-IsBalanced who allowed s.0 s.1 changes letters (p.words w))

marked-IsBalanced :
    (b : UserState) (r : UserState × List ModeChange) → IsBalanced b r.0 → IsBalanced b (marked r).0
marked-IsBalanced b (s, []) p = p
marked-IsBalanced b ((c, t), change ∷ changes) p = record {
  by_invisible = p.by_invisible;
  by_operator = p.by_operator;
  others = p.others;
  words = p.words;
}

-- ApplyUserModeChanges, for changes of letters: the counters of invisible users and of operators move by
-- exactly what the flags of the client have changed, and no other counter moves. The operator counts once for
-- each of +o and +O.
pub apply_user_mode_changes-IsBalanced :
    (who : ℕ) (allowed : Bool) (c : Client) (t : Tallies) (changes : List ModeChange)
    → AllLetters changes
    → IsWords c.modes
    → IsBalanced (c, t) (apply_user_mode_changes who allowed c t changes).0
unfolding apply_user_mode_changes
apply_user_mode_changes-IsBalanced who allowed c t changes letters w =
    marked-IsBalanced (c, t) (apply_user_changes who allowed c t changes)
      (apply_user_changes-IsBalanced who allowed c t changes letters w)
