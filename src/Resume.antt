-- ===== src/Resume.antt =====
-- ResumeManager of irc/resume.go: tokens of two halves, an id that leads to a client and a secret. A client
-- is known by its address, a number; a token is its bytes. The random halves that GenerateSecretToken
-- (irc/utils/crypto.go) makes are arguments.
pub mod Tokens
use oragono.Prelude.{
  ℕ, zero, suc, ◌+◌, ◌-◌, ◌*◌, ◌/◌, ◌%◌, ◌^◌, ◌≤◌, ◌<◌, min, max, bit_and, bit_or, String, ◌≡◌,
  refl, sym, ap, subst, ◌∙◌, fun_ext, ◌≢◌, ◌↔◌, ◌⊎◌, inl, inr, Bool, true, false, not, ◌&&◌, ◌||◌,
  Option, none, some, List, [], ◌∷◌, ◌++◌, map, reverse, arith, ltb, leb, nat_beq, if◌then◌else◌,
  ltb→lt, lt→ltb, leb→le, nat_beq_iff, nat_beq_refl, Bool-cases, Option-cases, length, get_elem?,
  set, length-append, length-set, get_elem?-set_self, get_elem?-set_ne, get_or, take, drop,
  replicate, take-append-drop, length-take, length-drop, length-replicate, length-map, Eq, ◌==◌,
  ◌!=◌, nat_eq, string_eq, beq_refl, beq_ne, beq→eq, beq→ne,
}
use oragono.Prelude.GoMap.{
  GoMap, lookup, has, insert, delete, distinct, distinct-insert, distinct-delete, lookup-insert,
  lookup-delete, length-insert, length-delete-le, lookup-insert_self,
}
use oragono.Limits.Flatip.{bytes_eq}

abbrev pub Bytes : Type 0
Bytes = List ℕ

pub record ResumeTokenPair : Type 0 where
  pub client : ℕ
  pub secret : Bytes

-- The manager, and of each client the id of its token, empty if there is none, and whether it is registered.
pub record ResumeManager : Type 0 where
  pub resume_id_to_creds : GoMap Bytes ResumeTokenPair
  pub resume_ids : ℕ → Bytes
  pub registered : ℕ → Bool

abbrev pub secret_token_length : ℕ
secret_token_length = 26

unfoldable pub secret_tokens_match : Bytes → Bytes → Bool
secret_tokens_match stored supplied = if length stored == 0 then false else stored == supplied

unfoldable pub set_resume_id : ResumeManager → ℕ → Bytes → ResumeManager
set_resume_id rm c id = record rm { resume_ids = λ j. if c == j then id else rm.resume_ids j }

-- GenerateToken, with the halves that it draws: the token and its id, which are empty for a client that
-- has a token.
unfoldable pub generate_token : ResumeManager → ℕ → Bytes → Bytes → ResumeManager × Bytes × Bytes
unfolding set_resume_id
generate_token rm c id secret =
    if rm.resume_ids c == []
    then (
      record (set_resume_id rm c id) {
        resume_id_to_creds =
            insert rm.resume_id_to_creds id (record { client = c; secret = secret });
      },
      id ++ secret,
      id,
    )
    else (rm, [], id)

-- What VerifyToken does when the secret is right: the token is consumed, and the old client gets what the
-- new one had.
unfoldable pub consume : ResumeManager → ℕ → ℕ → Bytes → ResumeManager
unfolding set_resume_id
consume rm old new id =
    let creds = delete rm.resume_id_to_creds id in
    let new_id = rm.resume_ids new in
    let handed : GoMap Bytes ResumeTokenPair = elim (lookup creds new_id) [
      | none ↦ creds
      | some pair ↦ insert creds new_id (record pair { client = old })
    ] in
    let given = record (set_resume_id rm old new_id) {
      resume_id_to_creds = if new_id == [] then creds else handed;
    } in
    set_resume_id given new []

unfoldable pub verify_pair :
    ResumeManager → ℕ → Bytes → Bytes → Option ResumeTokenPair → ResumeManager × Option ℕ
unfolding consume secret_tokens_match
verify_pair rm new id secret none = (rm, none)
verify_pair rm new id secret (some pair) =
    if not (rm.registered pair.client)
    then (rm, none)
    else if secret_tokens_match pair.secret secret
    then (consume rm pair.client new id, some pair.client)
    else (rm, none)

-- VerifyToken: the manager, and the client that is resumed.
unfoldable pub verify_token : ResumeManager → ℕ → Bytes → ResumeManager × Option ℕ
unfolding verify_pair
verify_token rm new token =
    let id = take secret_token_length token in
    if length token != 2 * secret_token_length
    then (rm, none)
    else verify_pair rm new id (drop secret_token_length token) (lookup rm.resume_id_to_creds id)

-- Delete
unfoldable pub delete_client : ResumeManager → ℕ → ResumeManager
delete_client rm c =
    if rm.resume_ids c == []
    then rm
    else record rm { resume_id_to_creds = delete rm.resume_id_to_creds (rm.resume_ids c) }
