-- ===== src/Crypto/SecretKeyCache.antt =====
-- src/crypto/keys.rs: `SecretKeyCache`, and of `KeyManager` the calls that use it. The cache is told a
-- local key pair with each call, and stores by the remote key alone. `generate_shared_secret` is a
-- parameter, since its steps are curve arithmetic of other crates; `none` is its error. A new key pair
-- is drawn outside, and so is whether its file could be written.
pub mod Entries
mod Tests
use aero_nyx_private_ed.Base.HashMap
use aero_nyx_private_ed.Base.HashMap.{HashMap}
use aero_nyx_private_ed.Base.{
  ℕ, ◌-◌, Bool, true, false, not, List, Option, none, some, ltb, leb, if◌then◌else◌, length,
  Equality, ◌==◌,
}

pub record CachedSecretKey (K : Type 0) : Type 0 where
  pub public_key : K
  pub shared_secret : List ℕ
  pub last_used : ℕ

pub record SecretKeyCache (K : Type 0) : Type 0 where
  pub cache : HashMap K (CachedSecretKey K)
  pub ttl : ℕ
  pub max_size : ℕ

module _ {K : Type 0} where
  abbrev pub is_expired : CachedSecretKey K → ℕ → ℕ → Bool
  is_expired c now ttl = ltb ttl (now - c.last_used)

  abbrev pub touch : CachedSecretKey K → ℕ → CachedSecretKey K
  touch c now = record c { last_used = now }

  pub new : ℕ → ℕ → SecretKeyCache K
  new ttl max_size = record { cache = HashMap.empty; ttl = ttl; max_size = max_size }

  pub clear : SecretKeyCache K → SecretKeyCache K
  clear m = record m { cache = HashMap.empty }

  cleanup_expired_keys : HashMap K (CachedSecretKey K) → ℕ → ℕ → HashMap K (CachedSecretKey K)
  cleanup_expired_keys m now ttl = HashMap.retain (λ _ c. not (is_expired c now ttl)) m

module _ {K : Type 0} ⦃eq : Equality K⦄ where
  pub invalidate : SecretKeyCache K → K → SecretKeyCache K
  invalidate m remote_public = record m { cache = HashMap.remove m.cache remote_public }

-- The key file is left out.
pub record KeyManager (L : Type 0) (K : Type 0) : Type 0 where
  pub keypair : L
  pub secret_cache : SecretKeyCache K

module _ {L : Type 0} {K : Type 0} where
  pub new_manager : L → ℕ → ℕ → KeyManager L K
  new_manager keypair ttl max_cache = record { keypair = keypair; secret_cache = new ttl max_cache }

  -- The new key pair in the place of the old one: the first of two locks that a rotation takes.
  abbrev pub replaced : KeyManager L K → L → KeyManager L K
  replaced m new_keypair = record m { keypair = new_keypair }

  -- Without a saved file, nothing changes. Between the two locks another call may come.
  pub rotate_keypair : KeyManager L K → Bool → L → KeyManager L K
  rotate_keypair m saved new_keypair =
      if saved then record (replaced m new_keypair) { secret_cache = clear m.secret_cache } else m

module _ {L : Type 0} {K : Type 0} ⦃eq : Equality K⦄
    (generate_shared_secret : L → K → Option (List ℕ)) where
  -- The part of `get_or_compute` behind the lookup. The second test of the size has an empty body.
  compute :
      SecretKeyCache K
      → HashMap K (CachedSecretKey K)
      → L
      → K
      → ℕ
      → Option (List ℕ) × SecretKeyCache K
  unfolding cleanup_expired_keys
  compute m held local_keypair remote_public now =
      elim (generate_shared_secret local_keypair remote_public) [
        | none ↦ (none, record m { cache = held })
        | some secret ↦
            let room =
              if leb m.max_size (length held) then cleanup_expired_keys held now m.ttl else held in
            (
              some secret,
              record m {
                cache = HashMap.insert room remote_public (record {
                  public_key = remote_public;
                  shared_secret = secret;
                  last_used = now;
                });
              },
            )
      ]

  pub get_or_compute : SecretKeyCache K → L → K → ℕ → Option (List ℕ) × SecretKeyCache K
  unfolding compute
  get_or_compute m local_keypair remote_public now = elim (HashMap.get m.cache remote_public) [
    | none ↦ compute m m.cache local_keypair remote_public now
    | some c ↦
        if not (is_expired c now m.ttl)
        then (
          some c.shared_secret,
          record m { cache = HashMap.modify m.cache remote_public (λ c. touch c now) },
        )
        else compute m (HashMap.remove m.cache remote_public) local_keypair remote_public now
  ]

  pub get_shared_secret : KeyManager L K → K → ℕ → Option (List ℕ) × KeyManager L K
  get_shared_secret m client_pubkey now =
      let (secret, cache) = get_or_compute m.secret_cache m.keypair client_pubkey now in
      (secret, record m { secret_cache = cache })
