-- ===== src/Auth/Manager.antt =====
-- src/auth/manager.rs: `AuthManager`. `created` and `now` are the clock readings of the challenge
-- manager; an address is the text that the caller passes. The challenges, the access list and the counts
-- have locks of their own, which a call takes one after another; here a call is one step, so that two
-- calls do not interleave.
pub mod Access
mod Tests
use aero_nyx_private_ed.Base.HashMap
use aero_nyx_private_ed.Base.HashMap.{HashMap}
use aero_nyx_private_ed.Base.{
  ℕ, Bool, true, false, not, List, Option, none, some, Text, text_eq, leb, if◌then◌else◌, Result,
  ok, err, add_u64,
}
use aero_nyx_private_ed.Auth.Solana.{Solana, Sockets}
use aero_nyx_private_ed.Auth.Acl
use aero_nyx_private_ed.Auth.Acl.{AclError, AccessControlEntry, AccessControlList}
use aero_nyx_private_ed.Auth.Challenge
use aero_nyx_private_ed.Auth.Challenge.{Challenge, ChallengeError, ChallengeManager}
use aero_nyx_private_ed.Utils.Validator.{is_valid_solana_pubkey}

pub data AuthError : Type 0 where
  access_denied : Text → AuthError
  challenge_error : ChallengeError → AuthError
  acl_error : AclError → AuthError
  invalid_format : Text → AuthError
  too_many_attempts : AuthError

pub record AuthManager (A : Type 0) : Type 0 where
  pub acl : AccessControlList
  pub challenges : ChallengeManager A
  pub failed_attempts : HashMap Text ℕ

-- `MAX_AUTH_ATTEMPTS` of src/config/constants.rs.
abbrev pub max_auth_attempts : ℕ
max_auth_attempts = 3

-- `entry(key).or_insert(0)`: the count, and the map that holds it.
or_insert_zero : HashMap Text ℕ → Text → ℕ × HashMap Text ℕ
or_insert_zero m k = elim (HashMap.get m k) [ none ↦ (0, HashMap.insert m k 0) | some n ↦ (n, m) ]

pub attempts : HashMap Text ℕ → Text → ℕ
attempts m k = elim (HashMap.get m k) [ none ↦ 0 | some n ↦ n ]

-- Which errors of a verification count as a failed attempt.
abbrev pub counts_as_failure : ChallengeError → Bool
counts_as_failure Challenge.expired = true
counts_as_failure Challenge.signature_verification_failed = true
counts_as_failure _ = false

module _ {A : Type 0} where
  pub record_failed_attempt : AuthManager A → Text → AuthManager A
  unfolding or_insert_zero
  record_failed_attempt m client_addr =
      let (count, held) = or_insert_zero m.failed_attempts client_addr in
      record m { failed_attempts = HashMap.insert held client_addr (add_u64 count 1) }

  pub reset_failed_attempts : AuthManager A → Text → AuthManager A
  reset_failed_attempts m client_addr = record m {
    failed_attempts = HashMap.remove m.failed_attempts client_addr;
  }

  pub add_client : AuthManager A → AccessControlEntry → ℕ → AuthManager A
  add_client m entry now = record m { acl = Acl.add_entry m.acl entry now }

  removed :
      AuthManager A
      → Result AclError AccessControlList
      → Result AuthError (Unit {0}) × AuthManager A
  removed m (ok acl) = (ok tt, record m { acl = acl })
  removed m (err e) = (err (acl_error e), m)

  pub remove_client : AuthManager A → Text → ℕ → Result AuthError (Unit {0}) × AuthManager A
  unfolding removed
  remove_client m public_key now = removed m (Acl.remove_entry m.acl public_key now)

  pub is_client_allowed : AuthManager A → Text → Bool
  is_client_allowed m public_key = Acl.is_allowed m.acl public_key

  pub get_client_info : AuthManager A → Text → Option AccessControlEntry
  get_client_info m public_key = Acl.get_entry m.acl public_key

  pub cleanup_expired_challenges : AuthManager A → ℕ → ℕ × AuthManager A
  cleanup_expired_challenges m now =
      let (count, left) = Challenge.cleanup_expired m.challenges now in
      (count, record m { challenges = left })

  pub cleanup_failed_attempts : AuthManager A → AuthManager A
  cleanup_failed_attempts m = record m { failed_attempts = HashMap.empty }

  -- The result of the challenge manager, with its state put back.
  challenge_issued :
      AuthManager A
      → Result ChallengeError (Challenge A) × ChallengeManager A
      → Result AuthError (Text × List ℕ) × AuthManager A
  challenge_issued m (err e, left) = (err (challenge_error e), record m { challenges = left })
  challenge_issued m (ok c, left) = (ok (c.id, c.payload), record m { challenges = left })

  -- `verify_challenge` from the result of the challenge manager on.
  challenge_answered :
      AuthManager A
      → Text
      → Text
      → Result ChallengeError (Unit {0})
      → Result AuthError (Unit {0}) × AuthManager A
  unfolding record_failed_attempt reset_failed_attempts
  challenge_answered m public_key client_addr (err e) = (
    err (challenge_error e),
    if counts_as_failure e then record_failed_attempt m client_addr else m,
  )
  challenge_answered m public_key client_addr (ok _) =
      let reset = reset_failed_attempts m client_addr in
      if not (Acl.is_allowed m.acl public_key)
      then (err (access_denied public_key), reset)
      else (ok tt, reset)

module _ (sol : Solana) (sock : Sockets) where
  open sol use {pubkey_from_str, signature_from_str}
  open sock use {SocketAddr, addr_from_str}

  pub generate_challenge :
      AuthManager SocketAddr
      → Text
      → Text
      → List ℕ
      → ℕ
      → ℕ
      → Result AuthError (Text × List ℕ) × AuthManager SocketAddr
  unfolding or_insert_zero challenge_issued
  generate_challenge m client_addr id payload created now =
      let (count, held) = or_insert_zero m.failed_attempts client_addr in
      let entered = record m { failed_attempts = held } in
      if leb max_auth_attempts count
      then (err too_many_attempts, entered)
      else elim (addr_from_str client_addr) [
        | none ↦ (err (invalid_format client_addr), entered)
        | some socket_addr ↦
            challenge_issued entered
              (Challenge.generate_challenge m.challenges socket_addr id payload created now)
      ]

  pub verify_challenge :
      AuthManager SocketAddr
      → Text
      → Text
      → Text
      → Text
      → ℕ
      → Result AuthError (Unit {0}) × AuthManager SocketAddr
  unfolding challenge_answered
  verify_challenge m id signature public_key client_addr now =
      if not (is_valid_solana_pubkey public_key)
      then (err (invalid_format public_key), m)
      else elim (pubkey_from_str public_key) [
        | none ↦ (err (invalid_format public_key), m)
        | some _ ↦ elim (signature_from_str signature) [
          | none ↦ (err (invalid_format signature), m)
          | some _ ↦ elim (addr_from_str client_addr) [
            | none ↦ (err (invalid_format client_addr), m)
            | some socket_addr ↦
                let (result, left) =
                  Challenge.verify_challenge sol sock m.challenges id socket_addr signature
                    public_key now in
                challenge_answered (record m { challenges = left }) public_key client_addr result
          ]
        ]
      ]
