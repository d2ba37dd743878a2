-- ===== src/ClientManager/Tables.antt =====
-- A table of names in which every entry stands under its holder's own name.
use oragono.Prelude.{
  ℕ, String, ◌≡◌, ◌∙◌, ◌↔◌, Bool, true, false, ◌&&◌, none, some, arith, if◌then◌else◌, nat_beq_iff,
  nat_beq_refl, ◌==◌, nat_eq, string_eq, beq_refl,
}
use oragono.Prelude.GoMap.{GoMap, lookup, insert, lookup-insert, lookup-delete}
use oragono.ClientManager.State.{delete_own, holds}

abbrev pub Owns : GoMap String ℕ → (ℕ → String) → Type 0
Owns m name = (k : String) (w : ℕ) → lookup m k ≡ some w → name w ≡ k

pub Owns-same :
    (m : GoMap String ℕ) (name name' : ℕ → String)
    → ((w : ℕ) → name' w ≡ name w)
    → Owns m name
    → Owns m name'
Owns-same m name name' same o k w h = same w ∙ o k w h

pub holds-lookup :
    (m : GoMap String ℕ) (k : String) (w : ℕ) → (holds m k w ≡ true) ↔ (lookup m k ≡ some w)
holds-lookup m k w = ground arith

lookup-delete_own :
    (m : GoMap String ℕ) (k j : String) (who : ℕ)
    → lookup (delete_own m k who) j ≡ (if holds m k who && k == j then none else lookup m j)
unfolding delete_own
lookup-delete_own m k j who = ground (arith, lookup-delete m k j)

-- The table after `who` has moved from the name `old` to `new`; nothing is removed if `old` is no name.
unfoldable pub move : GoMap String ℕ → String → String → ℕ → Bool → GoMap String ℕ
move m old new who named = insert (if named then delete_own m old who else m) new who

lookup-move :
    (m : GoMap String ℕ) (old new j : String) (who : ℕ) (named : Bool)
    → lookup (move m old new who named) j ≡ (
        if new == j
        then some who
        else if named && (holds m old who && old == j)
        then none
        else lookup m j)
unfolding move
lookup-move m old new j who true =
    ground (arith, lookup-insert (delete_own m old who) new j who, lookup-delete_own m old j who)
lookup-move m old new j who false = ground (arith, lookup-insert m new j who)

module _ (m : GoMap String ℕ) (name name' : ℕ → String) (new : String) (who : ℕ) (named : Bool)
    (owns : Owns m name) (renamed : (w : ℕ) → name' w ≡ (if who == w then new else name w))
    (unnamed : named ≡ false → holds m (name who) who ≡ false)
    (free : (w : ℕ) → lookup m new ≡ some w → w ≡ who) where
  -- Every entry still stands under its holder's name.
  pub move-Owns : Owns (move m (name who) new who named) name'
  move-Owns k w h = ground (
    arith,
    lookup-move m (name who) new k who named,
    owns k w,
    renamed w,
    free w,
    owns (name who) who,
    nat_beq_iff who w,
    nat_beq_refl who,
    beq_refl {A = String} new,
    holds-lookup m (name who) who,
    string_eq.equals_iff new k,
    string_eq.equals_iff (name who) k,
  )

  -- The others hold what they held, and `who` holds the new name.
  pub holds-move :
      (w : ℕ)
      → holds (move m (name who) new who named) (name' w) w
        ≡ (if who == w then true else holds m (name w) w)
  holds-move w = ground (
    arith,
    lookup-move m (name who) new (name' w) who named,
    owns (name w) w,
    owns (name who) w,
    renamed w,
    free w,
    nat_beq_iff who w,
    beq_refl {A = String} new,
    string_eq.equals_iff new (name w),
    string_eq.equals_iff (name who) (name w),
  )

pub delete_own-Owns :
    (m : GoMap String ℕ) (name : ℕ → String) (k : String) (who : ℕ)
    → Owns m name
    → Owns (delete_own m k who) name
delete_own-Owns m name k who o j w h = o j w (ground (arith, lookup-delete_own m k j who))

pub holds-delete_own :
    (m : GoMap String ℕ) (name : ℕ → String) (who w : ℕ)
    → Owns m name
    → holds (delete_own m (name who) who) (name w) w
      ≡ (if who == w then false else holds m (name w) w)
holds-delete_own m name who w o = ground (
  arith,
  lookup-delete_own m (name who) (name w) who,
  o (name who) w,
  o (name w) who,
  nat_beq_iff who w,
  beq_refl {A = String} (name who),
  string_eq.equals_iff (name who) (name w),
)
