-- ===== src/Auth/Challenge.antt =====
-- src/auth/challenge.rs: `ChallengeManager`. The identifier and the bytes that
-- `generate_challenge` draws at random are its arguments; `created` is the clock reading of
-- `Challenge::new`, `now` the one of the expiry tests. Instants and durations count one unit.
pub mod Verify
pub mod Capacity
mod Tests
use aero_nyx_private_ed.Base.HashMap
use aero_nyx_private_ed.Base.HashMap.{HashMap}
use aero_nyx_private_ed.Base.{
  ℕ, ◌+◌, ◌-◌, Bool, true, false, not, List, Option, none, some, Text, text_eq, ltb, leb,
  if◌then◌else◌, length, Result, ok, err, Equality, ◌==◌,
}
use aero_nyx_private_ed.Auth.Solana.{Solana, Sockets}

pub data ChallengeError : Type 0 where
  not_found : Text → ChallengeError
  expired address_mismatch signature_verification_failed : ChallengeError
  creation_failed too_many_challenges : ChallengeError

pub record Challenge (A : Type 0) : Type 0 where
  pub id : Text
  pub payload : List ℕ
  pub created_at : ℕ
  pub expires_at : ℕ
  pub client_addr : A

pub record ChallengeManager (A : Type 0) : Type 0 where
  pub challenges : HashMap Text (Challenge A)
  pub timeout : ℕ
  pub max_challenges : ℕ

module _ {A : Type 0} where
  abbrev pub issue : Text → List ℕ → A → ℕ → ℕ → Challenge A
  issue id payload client_addr timeout created = record {
    id = id;
    payload = payload;
    created_at = created;
    expires_at = created + timeout;
    client_addr = client_addr;
  }

  abbrev pub is_expired : Challenge A → ℕ → Bool
  is_expired c now = ltb c.expires_at now

  unfoldable pub time_remaining : Challenge A → ℕ → ℕ
  time_remaining c now = if is_expired c now then 0 else c.expires_at - now

  -- `ChallengeManager::new`.
  pub empty : ℕ → ℕ → ChallengeManager A
  empty timeout max_challenges = record {
    challenges = HashMap.empty;
    timeout = timeout;
    max_challenges = max_challenges;
  }

  -- `cleanup_expired_challenges`, with the map locked by the caller.
  pub cleanup_expired_challenges : HashMap Text (Challenge A) → ℕ → HashMap Text (Challenge A)
  cleanup_expired_challenges m now = HashMap.retain (λ _ c. not (is_expired c now)) m

  store :
      ChallengeManager A
      → HashMap Text (Challenge A)
      → Challenge A
      → Result ChallengeError (Challenge A) × ChallengeManager A
  store m held c = (ok c, record m { challenges = HashMap.insert held c.id c })

  pub generate_challenge :
      ChallengeManager A
      → A
      → Text
      → List ℕ
      → ℕ
      → ℕ
      → Result ChallengeError (Challenge A) × ChallengeManager A
  unfolding store cleanup_expired_challenges
  generate_challenge m client_addr id payload created now =
      let challenge = issue id payload client_addr m.timeout created in
      let cleaned = cleanup_expired_challenges m.challenges now in
      if leb m.max_challenges (length m.challenges)
      then (if leb m.max_challenges (length cleaned)
          then (err too_many_challenges, record m { challenges = cleaned })
          else store m cleaned challenge)
      else store m m.challenges challenge

  -- `cleanup_expired`, with the number of challenges that it removed.
  pub cleanup_expired : ChallengeManager A → ℕ → ℕ × ChallengeManager A
  unfolding cleanup_expired_challenges
  cleanup_expired m now =
      let cleaned = cleanup_expired_challenges m.challenges now in
      (length m.challenges - length cleaned, record m { challenges = cleaned })

  pub challenge_count : ChallengeManager A → ℕ
  challenge_count m = length m.challenges

module _ (sol : Solana) (sock : Sockets) where
  open sol use {pubkey_from_str, signature_from_str, verify}
  open sock use {SocketAddr, addr_eq}

  -- The part of `verify_challenge` behind the expiry test.
  check_signature : Challenge SocketAddr → Text → Text → Result ChallengeError (Unit {0})
  check_signature c signature public_key = elim (pubkey_from_str public_key) [
    | none ↦ err signature_verification_failed
    | some pubkey ↦ elim (signature_from_str signature) [
      | none ↦ err signature_verification_failed
      | some sig ↦
          if not (verify pubkey c.payload sig) then err signature_verification_failed else ok tt
    ]
  ]

  on_success :
      Result ChallengeError (Unit {0})
      → ChallengeManager SocketAddr
      → Text
      → Result ChallengeError (Unit {0}) × ChallengeManager SocketAddr
  on_success (err e) m id = (err e, m)
  on_success (ok _) m id = (ok tt, record m { challenges = HashMap.remove m.challenges id })

  verify_found :
      Option (Challenge SocketAddr)
      → ChallengeManager SocketAddr
      → Text
      → SocketAddr
      → Text
      → Text
      → ℕ
      → Result ChallengeError (Unit {0}) × ChallengeManager SocketAddr
  unfolding on_success
  verify_found none m id client_addr signature public_key now = (err (not_found id), m)
  verify_found (some c) m id client_addr signature public_key now =
      if not (addr_eq.equal c.client_addr client_addr)
      then (err address_mismatch, m)
      else if is_expired c now
      then (err expired, record m { challenges = HashMap.remove m.challenges id })
      else on_success (check_signature c signature public_key) m id

  pub verify_challenge :
      ChallengeManager SocketAddr
      → Text
      → SocketAddr
      → Text
      → Text
      → ℕ
      → Result ChallengeError (Unit {0}) × ChallengeManager SocketAddr
  unfolding verify_found
  verify_challenge m id client_addr signature public_key now =
      verify_found (HashMap.get m.challenges id) m id client_addr signature public_key now
