-- ===== src/ClientManager/Uniqueness.antt =====
-- The names that SetNick chooses, and that it keeps the tables consistent.

use oragono.Prelude.{
  ℕ, String, ◌≡◌, refl, sym, subst, Bool, true, false, not, ◌||◌, Option, none, some, arith,
  if◌then◌else◌, nat_beq_iff, ◌==◌, ◌!=◌, nat_eq, string_eq,
}
use oragono.Prelude.GoMap.{lookup}
use oragono.ClientManager.State.{
  Config, Names, Client, Manager, set_client, add_session, client_set_nick, remove_internal,
}
use oragono.ClientManager.SetNick.{
  nickname_in_use, insecure_reattach, same_bool, bouncer_allowed, SetNickResult, failed,
  dry_run_passed, Claim, Chosen, rejected, claim, held_by_other, account_claim, free_checks,
  with_folded, guest_claim, choose, uses_account_name, reattach, after_session, take, take_name,
  claim_name, claim_chosen, set_nick,
}
use oragono.ClientManager.Tables.{move}
use oragono.ClientManager.Consistency.{
  is_name, IsConsistent, same-IsConsistent, either-IsConsistent, renamed, renamed-IsConsistent,
}

module _ (cfg : Config) (names : Names) where
  open names use {casefold_name, as_guest, trim_space}

  abbrev chosen_name : Chosen → Bool
  chosen_name c = elim c [ rejected _ ↦ true | claim k ↦ is_name k.cf ]

  module _ (folds : (n k : String) → casefold_name n ≡ some k → is_name k ≡ true) where
    with_folded-named :
        (c : Client) (nick : String) (o : Option String)
        → ((k : String) → o ≡ some k → is_name k ≡ true)
        → chosen_name (with_folded cfg names c nick o) ≡ true
    unfolding with_folded free_checks
    with_folded-named c nick none named = refl
    with_folded-named c nick (some cf) named = ground (arith, named cf refl)

    guest_claim-named :
        (c : Client) (nick : String) (o : Option String)
        → ((k : String) → o ≡ some k → is_name k ≡ true)
        → chosen_name (guest_claim cfg names c nick o) ≡ true
    unfolding guest_claim
    guest_claim-named c nick none named = refl
    guest_claim-named c nick (some cf) named = ground (
      arith,
      with_folded-named c nick (casefold_name nick) (folds nick),
      with_folded-named c nick (some cf) named,
      with_folded-named c (as_guest nick) (casefold_name (as_guest nick)) (folds (as_guest nick)),
    )

    account_claim-named :
        (c : Client) (new_nick : String)
        → is_name c.account ≡ true
        → chosen_name (account_claim cfg names c new_nick) ≡ true
    unfolding account_claim
    account_claim-named c new_nick named = ground (arith)

    choose-named :
        (c : Client) (new_nick : String) (dry_run : Bool)
        → (c.account == "*") ≡ false
        → chosen_name (choose cfg names c new_nick dry_run) ≡ true
    unfolding choose uses_account_name
    choose-named c new_nick dry_run account =
        let nick = trim_space new_nick in
        ground (
          arith,
          with_folded-named c nick (casefold_name nick) (folds nick),
          guest_claim-named c nick (casefold_name nick) (folds nick),
          account_claim-named c new_nick,
        )

    take_name-renamed :
        (m : Manager) (who : ℕ) (k : Claim) (c' : Client)
        → (take_name cfg names m who k (some c')).0
          ≡ renamed m who k c' (is_name (m.clients who).nick_casefolded)
    unfolding take_name remove_internal renamed move
    take_name-renamed m who k c' = ground arith

    take_name-IsConsistent :
        (m : Manager) (who : ℕ) (k : Claim) (o : Option Client)
        → IsConsistent m
        → is_name k.cf ≡ true
        → ((c' : Client) → o ≡ some c' → c'.nick_casefolded ≡ k.cf)
        → ((c' : Client) → o ≡ some c' → c'.skeleton ≡ k.skeleton)
        → ((w : ℕ) → lookup m.by_nick k.cf ≡ some w → w ≡ who)
        → ((w : ℕ) → lookup m.by_skeleton k.skeleton ≡ some w → w ≡ who)
        → IsConsistent (take_name cfg names m who k o).0
    unfolding take_name
    take_name-IsConsistent m who k none ok named nick skel free free' = ok
    take_name-IsConsistent m who k (some c') ok named nick skel free free' =
        subst IsConsistent (sym (take_name-renamed m who k c'))
          (renamed-IsConsistent m who k c' _ ok named refl (nick c' refl) (skel c' refl) free free')

    take-IsConsistent :
        (m : Manager) (who : ℕ) (k : Claim) (dry_run : Bool)
        → IsConsistent m
        → is_name k.cf ≡ true
        → ((w : ℕ) → lookup m.by_nick k.cf ≡ some w → w ≡ who)
        → IsConsistent (take cfg names m who k dry_run).0
    unfolding take client_set_nick held_by_other
    take-IsConsistent m who k dry_run ok named free =
        either-IsConsistent {A = SetNickResult} (held_by_other m.by_skeleton k.skeleton who)
          (m, failed nickname_in_use)
          (if dry_run
            then (m, dry_run_passed)
            else take_name cfg names m who k
                (client_set_nick (m.clients who) k.nick k.cf k.skeleton))
          (λ _. ok)
          (λ unheld.
            either-IsConsistent dry_run (m, dry_run_passed) _ (λ _. ok)
              (λ _.
                take_name-IsConsistent m who k
                  (client_set_nick (m.clients who) k.nick k.cf k.skeleton) ok named
                  (λ c' h. ground (arith, h)) (λ c' h. ground (arith, h)) free
                  (λ w h. ground (arith, h, unheld, nat_beq_iff w who))))

    after_session-IsConsistent :
        (m : Manager) (holder : ℕ) (c : Client) (k : Claim) (o : Option (Client × Bool))
        → ((h : Client) (b : Bool)
            → o ≡ some (h, b)
            → h.nick_casefolded ≡ (m.clients holder).nick_casefolded)
        → ((h : Client) (b : Bool) → o ≡ some (h, b) → h.skeleton ≡ (m.clients holder).skeleton)
        → IsConsistent m
        → IsConsistent (after_session cfg names m holder c k o).0
    unfolding after_session set_client
    after_session-IsConsistent m holder c k none nick skel ok = ok
    after_session-IsConsistent m holder c k (some (h, back)) nick skel ok =
        same-IsConsistent m _ (λ w. ground (arith, nat_beq_iff holder w, nick h back refl))
          (λ w. ground (arith, nat_beq_iff holder w, skel h back refl)) ok

    reattach-IsConsistent :
        (m : Manager) (who : ℕ) (has_session : Bool) (k : Claim) (holder : ℕ) (dry_run : Bool)
        → IsConsistent m
        → IsConsistent (reattach cfg names m who has_session k holder dry_run).0
    unfolding reattach add_session
    reattach-IsConsistent m who has_session k holder dry_run ok =
        let c = m.clients who in
        let h = m.clients holder in
        either-IsConsistent {A = SetNickResult}
          (c.registered
            || not (bouncer_allowed cfg names c)
            || c.account == ""
            || c.account != h.account
            || dry_run
            || not has_session)
          (m, failed nickname_in_use)
          (if not (same_bool c.is_tls h.is_tls)
            then (
              m,
              failed (if uses_account_name cfg names c then insecure_reattach else nickname_in_use),
            )
            else after_session cfg names m holder c k (add_session h))
          (λ _. ok)
          (λ _.
            either-IsConsistent (not (same_bool c.is_tls h.is_tls)) (m, _)
              (after_session cfg names m holder c k (add_session h)) (λ _. ok)
              (λ _.
                after_session-IsConsistent m holder c k (add_session h)
                  (λ h' b e. ground (arith, e)) (λ h' b e. ground (arith, e)) ok))

    claim_name-IsConsistent :
        (m : Manager) (who : ℕ) (has_session dry_run : Bool) (k : Claim) (o : Option ℕ)
        → IsConsistent m
        → is_name k.cf ≡ true
        → lookup m.by_nick k.cf ≡ o
        → IsConsistent (claim_name cfg names m who has_session dry_run k o).0
    unfolding claim_name
    claim_name-IsConsistent m who has_session dry_run k none ok named found =
        take-IsConsistent m who k dry_run ok named (λ w h. ground (arith, found, h))
    claim_name-IsConsistent m who has_session dry_run k (some holder) ok named found =
        either-IsConsistent (holder == who) _ _
          (λ same.
            either-IsConsistent _ _ _ (λ _. ok)
              (λ _.
                take-IsConsistent m who k dry_run ok named
                  (λ w h. ground (arith, found, h, same, nat_beq_iff holder who))))
          (λ _. reattach-IsConsistent m who has_session k holder dry_run ok)

    claim_chosen-IsConsistent :
        (m : Manager) (who : ℕ) (has_session dry_run : Bool) (ch : Chosen)
        → IsConsistent m
        → chosen_name ch ≡ true
        → IsConsistent (claim_chosen cfg names m who has_session dry_run ch).0
    unfolding claim_chosen
    claim_chosen-IsConsistent m who has_session dry_run (rejected e) ok named = ok
    claim_chosen-IsConsistent m who has_session dry_run (claim k) ok named =
        claim_name-IsConsistent m who has_session dry_run k _ ok named refl

    -- Whatever name a client asks for, and in whichever way the request ends, consistent tables
    -- stay consistent, where no name folds to a mark of a client without a name, and the account
    -- of the client is not `*`.
    pub set_nick-IsConsistent :
        (m : Manager) (who : ℕ) (has_session : Bool) (new_nick : String) (dry_run : Bool)
        → ((m.clients who).account == "*") ≡ false
        → IsConsistent m
        → IsConsistent (set_nick cfg names m who has_session new_nick dry_run).0
    unfolding set_nick
    set_nick-IsConsistent m who has_session new_nick dry_run account ok =
        claim_chosen-IsConsistent m who has_session dry_run _ ok
          (choose-named (m.clients who) new_nick dry_run account)
