-- ===== src/Auth/Manager/Access.antt =====
-- Who gets in, and what the count of failed attempts decides.
use aero_nyx_private_ed.Base.HashMap
use aero_nyx_private_ed.Base.HashMap.{HashMap, get-insert, get-remove}
use aero_nyx_private_ed.Base.{
  ℕ, ◌+◌, ◌%◌, ◌^◌, ◌≤◌, ◌≡◌, ◌↔◌, ◌⊎◌, true, List, none, some, Text, text_eq, text_iff, text_self,
  ◌==◌, if◌then◌else◌, Result, ok, err, add_u64, arith, Bool-cases, Option-cases, inl, inr,
}
use aero_nyx_private_ed.Auth.Solana.{Solana, Sockets}
use aero_nyx_private_ed.Auth.Acl
use aero_nyx_private_ed.Auth.Challenge
use aero_nyx_private_ed.Auth.Challenge.{Challenge, ChallengeError, ChallengeManager}
use aero_nyx_private_ed.Auth.Challenge.Verify.{Proven, verify_challenge-Proven}
use aero_nyx_private_ed.Auth.Manager.{
  AuthManager, AuthError, access_denied, challenge_error, too_many_attempts, invalid_format,
  attempts, max_auth_attempts, or_insert_zero, record_failed_attempt, reset_failed_attempts,
  challenge_answered, challenge_issued, generate_challenge, verify_challenge,
}
use aero_nyx_private_ed.Utils.Validator.{is_valid_solana_pubkey}

attempts-insert :
    (m : HashMap Text ℕ) (k j : Text) (n : ℕ)
    → attempts (HashMap.insert m k n) j ≡ (if k == j then n else attempts m j)
unfolding attempts
attempts-insert m k j n = ground (arith, get-insert m k j n, text_iff k j)

attempts-remove :
    (m : HashMap Text ℕ) (k j : Text)
    → attempts (HashMap.remove m k) j ≡ (if k == j then 0 else attempts m j)
unfolding attempts
attempts-remove m k j = ground (arith, get-remove m k j, text_iff k j)

-- `entry(key).or_insert(0)` reads the count and changes none.
or_insert_zero-count : (m : HashMap Text ℕ) (k : Text) → (or_insert_zero m k).0 ≡ attempts m k
unfolding attempts or_insert_zero
or_insert_zero-count m k = ground arith

or_insert_zero-attempts :
    (m : HashMap Text ℕ) (k j : Text) → attempts (or_insert_zero m k).1 j ≡ attempts m j
unfolding attempts or_insert_zero
or_insert_zero-attempts m k j = ground (arith, get-insert m k j 0, text_iff k j)

-- The count of an address after a verification with this result: one more, in 64 bits, where the
-- challenge had expired or its signature is wrong.
abbrev pub attempts_after : Result AuthError (Unit {0}) → ℕ → ℕ
attempts_after (ok _) n = 0
attempts_after (err (access_denied _)) n = 0
attempts_after (err (challenge_error Challenge.expired)) n = (n + 1) % 2 ^ 64
attempts_after (err (challenge_error Challenge.signature_verification_failed)) n = (n + 1) % 2 ^ 64
attempts_after (err _) n = n

module _ {A : Type 0} where
  record_failed_attempt-attempts :
      (m : AuthManager A) (addr k : Text)
      → attempts (record_failed_attempt m addr).failed_attempts k ≡ (
          if addr == k
          then add_u64 (attempts m.failed_attempts addr) 1
          else attempts m.failed_attempts k)
  unfolding record_failed_attempt
  record_failed_attempt-attempts m addr k =
      let (count, held) = or_insert_zero m.failed_attempts addr in
      ground (
        arith,
        or_insert_zero-count m.failed_attempts addr,
        or_insert_zero-attempts m.failed_attempts addr k,
        attempts-insert (or_insert_zero m.failed_attempts addr).1 addr k
            (add_u64 (or_insert_zero m.failed_attempts addr).0 1),
      )

  challenge_answered-attempts :
      (m : AuthManager A) (public_key addr k : Text) (r : Result ChallengeError (Unit {0}))
      → attempts (challenge_answered m public_key addr r).1.failed_attempts k ≡ (
          if addr == k
          then attempts_after
              (challenge_answered m public_key addr r).0
              (attempts m.failed_attempts addr)
          else attempts m.failed_attempts k)
  unfolding challenge_answered reset_failed_attempts
  challenge_answered-attempts m public_key addr k (ok u) =
      ground (arith, attempts-remove m.failed_attempts addr k)
  challenge_answered-attempts m public_key addr k (err (Challenge.not_found id)) =
      ground (arith, text_iff addr k)
  challenge_answered-attempts m public_key addr k (err Challenge.expired) =
      ground (arith, record_failed_attempt-attempts m addr k, text_iff addr k)
  challenge_answered-attempts m public_key addr k (err Challenge.address_mismatch) =
      ground (arith, text_iff addr k)
  challenge_answered-attempts m public_key addr k (err Challenge.signature_verification_failed) =
      ground (arith, record_failed_attempt-attempts m addr k, text_iff addr k)
  challenge_answered-attempts m public_key addr k (err Challenge.creation_failed) =
      ground (arith, text_iff addr k)
  challenge_answered-attempts m public_key addr k (err Challenge.too_many_challenges) =
      ground (arith, text_iff addr k)

  challenge_answered-ok :
      (m t : AuthManager A) (public_key addr : Text) (r : Result ChallengeError (Unit {0}))
      → challenge_answered m public_key addr r ≡ (ok tt, t)
      → (r ≡ ok tt) × (Acl.is_allowed m.acl public_key ≡ true) × (t ≡ reset_failed_attempts m addr)
  unfolding challenge_answered
  challenge_answered-ok m t public_key addr (ok tt) h = ground arith
  challenge_answered-ok m t public_key addr (err e) h = cc

module _ (sol : Solana) (sock : Sockets) where
  open sol use {pubkey_from_str, signature_from_str}
  open sock use {SocketAddr, addr_from_str}

  -- A malformed argument is refused before any state is read; all else is up to the challenge
  -- manager.
  verify_challenge-cases :
      (m : AuthManager SocketAddr) (id signature public_key addr : Text) (now : ℕ)
      → ((bad : Text) × (verify_challenge sol sock m id signature public_key addr now
            ≡ (err (invalid_format bad), m)))
        ⊎ ((client_addr : SocketAddr) × (addr_from_str addr ≡ some client_addr)
            × (verify_challenge sol sock m id signature public_key addr now ≡ (
                let (result, left) =
                  Challenge.verify_challenge sol sock m.challenges id client_addr signature
                    public_key now in
                challenge_answered (record m { challenges = left }) public_key addr result)))
  unfolding verify_challenge
  verify_challenge-cases m id signature public_key addr now =
      elim (Bool-cases (is_valid_solana_pubkey public_key)) [
        | inr bad ↦ inl (public_key, rw bad)
        | inl valid ↦ elim (Option-cases (pubkey_from_str public_key)) [
          | inl bad ↦ inl (public_key, rw (valid, bad))
          | inr (key, read) ↦ elim (Option-cases (signature_from_str signature)) [
            | inl bad ↦ inl (signature, rw (valid, read, bad))
            | inr (sig, scanned) ↦ elim (Option-cases (addr_from_str addr)) [
              | inl bad ↦ inl (addr, rw (valid, read, scanned, bad))
              | inr (client_addr, parsed) ↦
                  inr (client_addr, parsed, rw (valid, read, scanned, parsed))
            ]
          ]
        ]
      ]

  -- A verification counts one failed attempt for its address when the challenge manager finds the
  -- challenge expired or the signature wrong, clears the count when it finds the response right,
  -- allowed or not, and leaves the count of its address in every other case and that of every
  -- other address in all.
  pub verify_challenge-attempts :
      (m : AuthManager SocketAddr) (id signature public_key addr k : Text) (now : ℕ)
      → attempts (verify_challenge sol sock m id signature public_key addr now).1.failed_attempts k
        ≡ (if addr == k
            then attempts_after
                (verify_challenge sol sock m id signature public_key addr now).0
                (attempts m.failed_attempts addr)
            else attempts m.failed_attempts k)
  unfolding verify_challenge
  verify_challenge-attempts m id signature public_key addr k now =
      elim (verify_challenge-cases m id signature public_key addr now) [
        | inl (bad, e) ↦ ground (arith, e, text_iff addr k)
        | inr (client_addr, parsed, e) ↦
            let (result, left) =
              Challenge.verify_challenge sol sock m.challenges id client_addr signature public_key
                now in
            rw (
              e,
              challenge_answered-attempts (record m { challenges = left }) public_key addr k result,
            )
      ]

  -- A response is accepted only if its address parses, it proves a challenge that was stored, and
  -- the access list allows its key; then the challenge is spent, the list is as before and the
  -- count of the address is zero.
  pub verify_challenge-authenticated :
      (m t : AuthManager SocketAddr) (id signature public_key addr : Text) (now : ℕ)
      → verify_challenge sol sock m id signature public_key addr now ≡ (ok tt, t)
      → (client_addr : SocketAddr) × (c : Challenge SocketAddr) × (addr_from_str addr
          ≡ some client_addr)
        × (HashMap.get m.challenges.challenges id ≡ some c)
        × Proven sol sock c client_addr signature public_key now
        × (Acl.is_allowed m.acl public_key ≡ true)
        × (HashMap.get t.challenges.challenges id ≡ none)
        × (t.acl ≡ m.acl)
        × (attempts t.failed_attempts addr ≡ 0)
  unfolding reset_failed_attempts
  verify_challenge-authenticated m t id signature public_key addr now h =
      elim (verify_challenge-cases m id signature public_key addr now) [
        | inl (bad, e) ↦ cc e
        | inr (client_addr, parsed, e) ↦
            let (result, left) =
              Challenge.verify_challenge sol sock m.challenges id client_addr signature public_key
                now in
            let answered : challenge_answered (record m { challenges = left }) public_key addr
                  result
                ≡ (ok tt, t) =
              cc (e, h) in
            let (good, allowed, state) =
              challenge_answered-ok (record m { challenges = left }) t public_key addr result
                answered in
            let (c, found, proof, spent) =
              verify_challenge-Proven sol sock m.challenges left id client_addr signature public_key
                now (cc good) in
            (
              client_addr,
              c,
              parsed,
              found,
              proof,
              allowed,
              ground (arith, state, spent, get-remove m.challenges.challenges id id, text_self id),
              ground (arith, state),
              ground (arith, state, attempts-remove m.failed_attempts addr addr, text_self addr),
            )
      ]

  -- A challenge is refused for too many attempts just when the address has used up its attempts,
  -- and no answer of `generate_challenge` changes a count.
  pub generate_challenge-locked_iff :
      (m : AuthManager SocketAddr) (addr id : Text) (payload : List ℕ) (created now : ℕ) (k : Text)
      → (((generate_challenge sol sock m addr id payload created now).0 ≡ err too_many_attempts)
          ↔ (max_auth_attempts ≤ attempts m.failed_attempts addr))
        × (attempts (generate_challenge sol sock m addr id payload created now).1.failed_attempts k
            ≡ attempts m.failed_attempts k)
  unfolding generate_challenge challenge_issued
  generate_challenge-locked_iff m addr id payload created now k = ground (
    arith,
    or_insert_zero-count m.failed_attempts addr,
    or_insert_zero-attempts m.failed_attempts addr k,
  )

  -- The lock stops no verification: its answer does not depend on the counts.
  pub verify_challenge-ignores_attempts :
      (m : AuthManager SocketAddr) (counts : HashMap Text ℕ) (id signature public_key addr : Text)
      (now : ℕ)
      → (verify_challenge sol sock
          (record m { failed_attempts = counts })
          id
          signature
          public_key
          addr
          now).0
        ≡ (verify_challenge sol sock m id signature public_key addr now).0
  unfolding verify_challenge challenge_answered
  verify_challenge-ignores_attempts m counts id signature public_key addr now = ground arith
