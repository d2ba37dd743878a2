-- ===== src/ClientManager/Consistency.antt =====
-- The manager's invariant, and that a removal and a change of name keep it.

use oragono.Prelude.{
  ℕ, String, ◌≡◌, refl, sym, ap, ◌∙◌, ◌⊎◌, Bool, true, false, not, ◌||◌, some, arith, if◌then◌else◌,
  nat_beq_iff, ◌==◌, nat_eq, string_eq,
}
use oragono.Prelude.GoMap.{lookup}
use oragono.ClientManager.State.{
  Client, Manager, set_client, delete_own, holds, remove_internal, remove,
}
use oragono.ClientManager.SetNick.{Claim}
use oragono.ClientManager.Tables.{
  Owns, move, move-Owns, holds-move, delete_own-Owns, holds-delete_own, Owns-same,
}

-- Not one of the two marks of a client without a name.
abbrev pub is_name : String → Bool
is_name k = not (k == "*" || k == "")

-- Every entry of the two tables stands under its holder's name; a client is in both or in neither; and no
-- entry stands under a mark.
pub record IsConsistent (m : Manager) : Type 0 where
  pub nicks : Owns m.by_nick (λ (w : ℕ). (m.clients w).nick_casefolded)
  pub skeletons : Owns m.by_skeleton (λ (w : ℕ). (m.clients w).skeleton)
  pub both :
      (w : ℕ)
      → holds m.by_nick (m.clients w).nick_casefolded w
        ≡ holds m.by_skeleton (m.clients w).skeleton w
  pub named :
      (w : ℕ)
      → is_name (m.clients w).nick_casefolded ≡ false
      → holds m.by_nick (m.clients w).nick_casefolded w ≡ false

dropped-IsConsistent :
    (m : Manager) (who : ℕ)
    → IsConsistent m
    → IsConsistent (record m {
      by_nick = delete_own m.by_nick (m.clients who).nick_casefolded who;
      by_skeleton = delete_own m.by_skeleton (m.clients who).skeleton who;
    })
dropped-IsConsistent m who ok =
    let cf = λ (w : ℕ). (m.clients w).nick_casefolded in
    let sk = λ (w : ℕ). (m.clients w).skeleton in
    record {
      nicks = delete_own-Owns m.by_nick cf (cf who) who ok.nicks;
      skeletons = delete_own-Owns m.by_skeleton sk (sk who) who ok.skeletons;
      both = λ w.
          holds-delete_own m.by_nick cf who w ok.nicks
          ∙ ap (λ b. if who == w then false else b) (ok.both w)
          ∙ sym (holds-delete_own m.by_skeleton sk who w ok.skeletons);
      named = λ w unnamed.
          ground (arith, holds-delete_own m.by_nick cf who w ok.nicks, ok.named w unnamed);
    }

pub either-IsConsistent :
    {A : Type 0} (b : Bool) (r r' : Manager × A)
    → (b ≡ true → IsConsistent r.0)
    → (b ≡ false → IsConsistent r'.0)
    → IsConsistent (if b then r else r').0
either-IsConsistent true r r' ok ok' = ok refl
either-IsConsistent false r r' ok ok' = ok' refl

-- In consistent tables, two clients who stand there and share a folded nickname or a skeleton are
-- one client.
held_unique :
    (m : Manager) (v w : ℕ)
    → IsConsistent m
    → holds m.by_nick (m.clients v).nick_casefolded v ≡ true
    → holds m.by_nick (m.clients w).nick_casefolded w ≡ true
    → ((m.clients v).nick_casefolded ≡ (m.clients w).nick_casefolded)
      ⊎ ((m.clients v).skeleton ≡ (m.clients w).skeleton)
    → v ≡ w
held_unique m v w ok hv hw shared = ground (arith, ok.both v, ok.both w, nat_beq_iff v w)

-- Removing a client, whoever it is, keeps consistent tables consistent.
remove-IsConsistent : (m : Manager) (who : ℕ) → IsConsistent m → IsConsistent (remove m who).0
unfolding remove remove_internal
remove-IsConsistent m who ok =
    either-IsConsistent _ _ _ (λ _. ok) (λ _. dropped-IsConsistent m who ok)

-- The manager after the client has taken the claimed name.
unfoldable pub renamed : Manager → ℕ → Claim → Client → Bool → Manager
renamed m who k c' named = record {
  by_nick = move m.by_nick (m.clients who).nick_casefolded k.cf who named;
  by_skeleton = move m.by_skeleton (m.clients who).skeleton k.skeleton who named;
  clients = set_client m.clients who c';
}

module _ (m : Manager) (who : ℕ) (k : Claim) (c' : Client) (named : Bool) (ok : IsConsistent m)
    (is_named : is_name k.cf ≡ true) (was_named : is_name (m.clients who).nick_casefolded ≡ named)
    (nick : c'.nick_casefolded ≡ k.cf) (skel : c'.skeleton ≡ k.skeleton)
    (nick_free : (w : ℕ) → lookup m.by_nick k.cf ≡ some w → w ≡ who)
    (skel_free : (w : ℕ) → lookup m.by_skeleton k.skeleton ≡ some w → w ≡ who) where
  nick-renamed :
      (w : ℕ)
      → (set_client m.clients who c' w).nick_casefolded
        ≡ (if who == w then k.cf else (m.clients w).nick_casefolded)
  unfolding set_client
  nick-renamed w = ground (arith, nat_beq_iff who w)

  skeleton-renamed :
      (w : ℕ)
      → (set_client m.clients who c' w).skeleton
        ≡ (if who == w then k.skeleton else (m.clients w).skeleton)
  unfolding set_client
  skeleton-renamed w = ground (arith, nat_beq_iff who w)

  pub renamed-IsConsistent : IsConsistent (renamed m who k c' named)
  unfolding renamed
  renamed-IsConsistent =
      let cf = λ (w : ℕ). (m.clients w).nick_casefolded in
      let sk = λ (w : ℕ). (m.clients w).skeleton in
      let cf' = λ (w : ℕ). (set_client m.clients who c' w).nick_casefolded in
      let sk' = λ (w : ℕ). (set_client m.clients who c' w).skeleton in
      let unnamed = λ (n : named ≡ false). ok.named who (was_named ∙ n) in
      let unskeletoned = λ (n : named ≡ false). sym (ok.both who) ∙ unnamed n in
      let held =
        holds-move m.by_nick cf cf' k.cf who named ok.nicks nick-renamed unnamed nick_free in
      let held' =
        holds-move m.by_skeleton sk sk' k.skeleton who named ok.skeletons skeleton-renamed
          unskeletoned skel_free in
      record {
        nicks = move-Owns m.by_nick cf cf' k.cf who named ok.nicks nick-renamed unnamed nick_free;
        skeletons =
            move-Owns m.by_skeleton sk sk' k.skeleton who named ok.skeletons skeleton-renamed
              unskeletoned skel_free;
        both = λ w. held w ∙ ap (λ b. if who == w then true else b) (ok.both w) ∙ sym (held' w);
        named = λ w unnamed'. ground (arith, held w, ok.named w, nick-renamed w, nat_beq_iff who w);
      }

pub same-IsConsistent :
    (m : Manager) (cs : ℕ → Client)
    → ((w : ℕ) → (cs w).nick_casefolded ≡ (m.clients w).nick_casefolded)
    → ((w : ℕ) → (cs w).skeleton ≡ (m.clients w).skeleton)
    → IsConsistent m
    → IsConsistent (record m { clients = cs })
same-IsConsistent m cs nick skel ok = record {
  nicks =
      Owns-same m.by_nick (λ w. (m.clients w).nick_casefolded) (λ w. (cs w).nick_casefolded) nick
        ok.nicks;
  skeletons =
      Owns-same m.by_skeleton (λ w. (m.clients w).skeleton) (λ w. (cs w).skeleton) skel
        ok.skeletons;
  both = λ w. ground (arith, ok.both w, nick w, skel w);
  named = λ w unnamed. ground (arith, ok.named w, nick w);
}
