-- ===== src/Masks/Coherence.antt =====
-- The compiled expressions of a mask set are always those of its current masks.
use oragono.Prelude.{
  String, ◌≡◌, refl, inl, inr, Option, none, some, arith, if◌then◌else◌, Bool-cases, ◌==◌, nat_eq,
  string_eq,
}
use oragono.Prelude.GoMap.{lookup, has, insert, delete, lookup-insert, lookup-delete}
use oragono.Masks.{
  RegexpPackage, UserMaskSet, MaskInfo, new_user_mask_set, set_regexp, add_mask, remove_mask,
}

module _ (re : RegexpPackage) where
  abbrev pub IsCoherent : UserMaskSet → Type 0
  IsCoherent s = set_regexp re s ≡ s

  set_regexp_idem : (s : UserMaskSet) → set_regexp re (set_regexp re s) ≡ set_regexp re s
  unfolding set_regexp
  set_regexp_idem s = refl

  pub new-IsCoherent : IsCoherent new_user_mask_set
  unfolding set_regexp
  new-IsCoherent = refl

  pub add_mask-IsCoherent :
      (s : UserMaskSet) (canonical : Option String) (info : MaskInfo)
      → IsCoherent s
      → IsCoherent (add_mask re s canonical info).0
  unfolding add_mask
  add_mask-IsCoherent s none info h = h
  add_mask-IsCoherent s (some mask) info h = elim (Bool-cases (has s.masks mask)) [
    | inl old ↦ rw old h
    | inr new ↦ rw new (set_regexp_idem (record s { masks = insert s.masks mask info }))
  ]

  pub remove_mask-IsCoherent :
      (s : UserMaskSet) (canonical : Option String)
      → IsCoherent s
      → IsCoherent (remove_mask re s canonical).0
  unfolding remove_mask
  remove_mask-IsCoherent s none h = h
  remove_mask-IsCoherent s (some mask) h = elim (Bool-cases (has s.masks mask)) [
    | inl old ↦ rw old (set_regexp_idem (record s { masks = delete s.masks mask }))
    | inr new ↦ rw new h
  ]

  -- Where the expressions were up to date, the addition of an acceptable mask is reported exactly
  -- when it was not there; the set then holds it with the creator's information and is otherwise
  -- the same, and the expressions are up to date.
  add_mask_lem :
      (s : UserMaskSet) (mask j : String) (info : MaskInfo)
      → IsCoherent s
      → let (s', added) = add_mask re s (some mask) info in
        IsCoherent s'
        × (added ≡ (if has s.masks mask then none else some mask))
        × (lookup s'.masks j ≡ (
            if has s.masks mask
            then lookup s.masks j
            else if mask == j
            then some info
            else lookup s.masks j))
  unfolding add_mask set_regexp
  add_mask_lem s mask j info h = (
    add_mask-IsCoherent s (some mask) info h,
    ground arith,
    ground (arith, lookup-insert s.masks mask j info),
  )

  -- Where the expressions were up to date, the removal of an acceptable mask is reported exactly
  -- when it was there; it is then gone, all others stay, and the expressions are up to date.
  remove_mask_lem :
      (s : UserMaskSet) (mask j : String)
      → IsCoherent s
      → let (s', removed) = remove_mask re s (some mask) in
        IsCoherent s'
        × (removed ≡ (if has s.masks mask then some mask else none))
        × (lookup s'.masks j ≡ (if mask == j then none else lookup s.masks j))
  unfolding remove_mask set_regexp
  remove_mask_lem s mask j h = (
    remove_mask-IsCoherent s (some mask) h,
    ground arith,
    ground (arith, lookup-delete s.masks mask j, string_eq.equals_iff mask j),
  )
