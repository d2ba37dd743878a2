-- ===== src/Resume/Tokens.antt =====
-- A token resumes its client once, and no token leads to a client that is deleted.
use oragono.Prelude.{
  ℕ, zero, suc, ◌≡◌, refl, ap, ◌≢◌, inl, inr, true, ◌&&◌, Option, none, some, [], ◌∷◌, ◌++◌, arith,
  if◌then◌else◌, nat_beq_iff, Option-cases, length, length-append, take, drop, ◌==◌, nat_eq,
  string_eq, beq_refl,
}
use oragono.Prelude.GoMap.{lookup, delete, lookup-insert, lookup-delete, lookup-insert_self}
use oragono.Limits.Flatip.{bytes_eq, same_bytes_iff}
use oragono.Resume.{
  Bytes, ResumeTokenPair, ResumeManager, secret_token_length, secret_tokens_match, set_resume_id,
  generate_token, consume, verify_pair, verify_token, delete_client,
}

-- A token that the manager knows is that of the client to which it leads, and is not empty.
abbrev pub IsOwned : ResumeManager → Type 0
IsOwned rm =
    (id : Bytes) (pair : ResumeTokenPair)
    → lookup rm.resume_id_to_creds id ≡ some pair
    → (rm.resume_ids pair.client ≡ id) × (id ≢ [])

generate_token-IsOwned :
    (rm : ResumeManager) (c : ℕ) (id secret : Bytes)
    → id ≢ []
    → IsOwned rm
    → IsOwned (generate_token rm c id secret).0
unfolding generate_token set_resume_id
generate_token-IsOwned rm c id secret some_id owned i pair p =
    let fresh : ResumeTokenPair = record { client = c; secret = secret } in
    ground (
      arith,
      some_id,
      p,
      owned i pair,
      lookup-insert rm.resume_id_to_creds id i fresh,
      same_bytes_iff id i,
      same_bytes_iff (rm.resume_ids c) [],
      nat_beq_iff c pair.client,
    )

-- What VerifyToken leaves of the table: the token that is used is gone.
creds_after :
    (rm : ResumeManager) (old new : ℕ) (id i : Bytes)
    → lookup (consume rm old new id).resume_id_to_creds i ≡ (
        if id == i then none else elim (lookup rm.resume_id_to_creds i) [
          | none ↦ none
          | some pair ↦ some (
              if rm.resume_ids new == []
              then pair
              else if rm.resume_ids new == i
              then record pair { client = old }
              else pair)
        ])
unfolding consume set_resume_id
creds_after rm old new id i =
    elim (Option-cases (lookup (delete rm.resume_id_to_creds id) (rm.resume_ids new))) [
      | inl e ↦ ground (
        arith,
        e,
        lookup-delete rm.resume_id_to_creds id i,
        lookup-delete rm.resume_id_to_creds id (rm.resume_ids new),
        same_bytes_iff (rm.resume_ids new) i,
        same_bytes_iff id i,
        same_bytes_iff id (rm.resume_ids new),
      )
      | inr (pair, e) ↦ ground (
        arith,
        e,
        lookup-delete rm.resume_id_to_creds id i,
        lookup-delete rm.resume_id_to_creds id (rm.resume_ids new),
        lookup-insert (delete rm.resume_id_to_creds id) (rm.resume_ids new) i
            (record pair { client = old }),
        same_bytes_iff (rm.resume_ids new) i,
        same_bytes_iff id i,
        same_bytes_iff id (rm.resume_ids new),
      )
    ]

consume-IsOwned :
    (rm : ResumeManager) (old new : ℕ) (id : Bytes)
    → rm.resume_ids old ≡ id
    → IsOwned rm
    → IsOwned (consume rm old new id)
unfolding consume set_resume_id
consume-IsOwned rm old new id own owned i pair p =
    elim (Option-cases (lookup rm.resume_id_to_creds i)) [
      | inl e ↦ ground (arith, p, e, creds_after rm old new id i)
      | inr (q, e) ↦ ground (
        arith,
        own,
        p,
        e,
        owned i q e,
        creds_after rm old new id i,
        same_bytes_iff id i,
        same_bytes_iff (rm.resume_ids new) i,
        same_bytes_iff (rm.resume_ids new) [],
        nat_beq_iff old q.client,
        nat_beq_iff new q.client,
        nat_beq_iff new old,
      )
    ]

verify_pair-IsOwned :
    (rm : ResumeManager) (new : ℕ) (id secret : Bytes) (o : Option ResumeTokenPair)
    → lookup rm.resume_id_to_creds id ≡ o
    → IsOwned rm
    → IsOwned (verify_pair rm new id secret o).0
unfolding verify_pair
verify_pair-IsOwned rm new id secret none e owned i pair p = owned i pair p
verify_pair-IsOwned rm new id secret (some q) e owned i pair p =
    ground
      (arith, p, owned i pair, consume-IsOwned rm q.client new id (owned id q e).0 owned i pair)

verify_token-IsOwned :
    (rm : ResumeManager) (new : ℕ) (token : Bytes)
    → IsOwned rm
    → IsOwned (verify_token rm new token).0
unfolding verify_token
verify_token-IsOwned rm new token owned i pair p =
    let id = take secret_token_length token in
    ground (
      arith,
      p,
      owned i pair,
      verify_pair-IsOwned rm new id (drop secret_token_length token)
          (lookup rm.resume_id_to_creds id) refl owned i pair,
    )

delete_client-IsOwned : (rm : ResumeManager) (c : ℕ) → IsOwned rm → IsOwned (delete_client rm c)
unfolding delete_client
delete_client-IsOwned rm c owned i pair p =
    ground (arith, p, owned i pair, lookup-delete rm.resume_id_to_creds (rm.resume_ids c) i)

-- What the manager can do.
pub data Step : ResumeManager → ResumeManager → Type 0 where
  generates :
      {rm : ResumeManager} (c : ℕ) (id secret : Bytes)
      → id ≢ []
      → Step rm (generate_token rm c id secret).0
  verifies : {rm : ResumeManager} (new : ℕ) (token : Bytes) → Step rm (verify_token rm new token).0
  deletes : {rm : ResumeManager} (c : ℕ) → Step rm (delete_client rm c)

-- GenerateToken with an id that is not empty, VerifyToken and Delete keep the tokens in agreement with the
-- clients: each token of the table is the one, and so the only one, that its client has.
pub Step-IsOwned : {rm rm' : ResumeManager} → Step rm rm' → IsOwned rm → IsOwned rm'
Step-IsOwned {rm} (generates c id secret some_id) owned =
    generate_token-IsOwned rm c id secret some_id owned
Step-IsOwned {rm} (verifies new token) owned = verify_token-IsOwned rm new token owned
Step-IsOwned {rm} (deletes c) owned = delete_client-IsOwned rm c owned

take_prefix : (n : ℕ) (xs ys : Bytes) → length xs ≡ n → take n (xs ++ ys) ≡ xs
take_prefix zero [] ys e = refl
take_prefix zero (x ∷ xs) ys e = ground (arith, e)
take_prefix (suc n) [] ys e = ground (arith, e)
take_prefix (suc n) (x ∷ xs) ys e = ap (λ t. x ∷ t) (take_prefix n xs ys (ground (arith, e)))

drop_prefix : (n : ℕ) (xs ys : Bytes) → length xs ≡ n → drop n (xs ++ ys) ≡ ys
drop_prefix zero [] ys e = refl
drop_prefix zero (x ∷ xs) ys e = ground (arith, e)
drop_prefix (suc n) [] ys e = ground (arith, e)
drop_prefix (suc n) (x ∷ xs) ys e = drop_prefix n xs ys (ground (arith, e))

-- A token whose id is known resumes the client if the secret is right.
verify_known :
    (rm : ResumeManager) (new : ℕ) (id secret : Bytes) (pair : ResumeTokenPair)
    → length id ≡ secret_token_length
    → lookup rm.resume_id_to_creds id ≡ some pair
    → rm.registered pair.client ≡ true
    → (verify_token rm new (id ++ secret)).1 ≡ (
        if length secret == secret_token_length && secret_tokens_match pair.secret secret
        then some pair.client
        else none)
unfolding verify_token verify_pair
verify_known rm new id secret pair long found known = ground (
  arith,
  long,
  found,
  known,
  take_prefix 26 id secret long,
  drop_prefix 26 id secret long,
  length-append id secret,
)

resumed_from :
    (rm : ResumeManager) (new : ℕ) (token : Bytes) (c : ℕ)
    → (verify_token rm new token).1 ≡ some c
    → (pair : ResumeTokenPair) × (lookup rm.resume_id_to_creds (take secret_token_length token)
        ≡ some pair)
      × (pair.client ≡ c)
unfolding verify_token verify_pair
resumed_from rm new token c e =
    elim (Option-cases (lookup rm.resume_id_to_creds (take secret_token_length token))) [
      | inl q ↦ ground (arith, e, q)
      | inr (pair, q) ↦ (pair, q, ground (arith, e, q))
    ]

unknown_token :
    (rm : ResumeManager) (new : ℕ) (token : Bytes)
    → lookup rm.resume_id_to_creds (take secret_token_length token) ≡ none
    → (verify_token rm new token).1 ≡ none
unfolding verify_token verify_pair
unknown_token rm new token e = ground (arith, e)

used_token :
    (rm : ResumeManager) (new : ℕ) (token : Bytes) (c : ℕ)
    → (verify_token rm new token).1 ≡ some c
    → lookup (verify_token rm new token).0.resume_id_to_creds (take secret_token_length token)
      ≡ none
unfolding verify_token verify_pair
used_token rm new token c e =
    let id = take secret_token_length token in
    ground (arith, e, creds_after rm c new id id, beq_refl id)

-- A token that has resumed a client, whoever presented it, resumes nobody when it is presented again, by
-- whomever.
pub verify_token-once :
    (rm : ResumeManager) (new again : ℕ) (token : Bytes) (c : ℕ)
    → (verify_token rm new token).1 ≡ some c
    → (verify_token (verify_token rm new token).0 again token).1 ≡ none
verify_token-once rm new again token c e =
    unknown_token (verify_token rm new token).0 again token (used_token rm new token c e)

-- A client that has no token and is registered gets a token of two halves of the right length, and whoever
-- presents it resumes that client; a token that differs in the secret half resumes nobody.
verify-generate_token :
    (rm : ResumeManager) (c new : ℕ) (id secret wrong : Bytes)
    → rm.resume_ids c ≡ []
    → rm.registered c ≡ true
    → length id ≡ secret_token_length
    → length secret ≡ secret_token_length
    → wrong ≢ secret
    → let (rm', token, i) = generate_token rm c id secret in
      ((verify_token rm' new token).1 ≡ some c) × ((verify_token rm' new (id ++ wrong)).1 ≡ none)
unfolding generate_token set_resume_id secret_tokens_match
verify-generate_token rm c new id secret wrong none_yet known long_id long_secret differs =
    let pair : ResumeTokenPair = record { client = c; secret = secret } in
    let rm' : ResumeManager = (generate_token rm c id secret).0 in
    let found : (lookup rm'.resume_id_to_creds id ≡ some pair) =
      ground (arith, none_yet, lookup-insert_self rm.resume_id_to_creds id pair) in
    (
      ground (
        arith,
        none_yet,
        known,
        long_secret,
        verify_known rm' new id secret pair long_id found (ground (arith, none_yet, known)),
        same_bytes_iff secret secret,
      ),
      ground (
        arith,
        none_yet,
        known,
        differs,
        verify_known rm' new id wrong pair long_id found (ground (arith, none_yet, known)),
        same_bytes_iff secret wrong,
      ),
    )

-- After Delete no token resumes the client, if the tokens agreed with the clients before.
delete_client-forgotten :
    (rm : ResumeManager) (c new : ℕ) (token : Bytes)
    → IsOwned rm
    → (verify_token (delete_client rm c) new token).1 ≢ some c
unfolding delete_client
delete_client-forgotten rm c new token owned e =
    let id = take secret_token_length token in
    let (pair, q, same) = resumed_from (delete_client rm c) new token c e in
    ground (
      arith,
      q,
      same,
      owned id pair,
      lookup-delete rm.resume_id_to_creds (rm.resume_ids c) id,
      same_bytes_iff (rm.resume_ids c) id,
      same_bytes_iff (rm.resume_ids c) [],
    )
