-- ===== src/Crypto/SecretKeyCache/Tests.antt =====
-- A key manager and a client, with a rotation of the key pair.
use aero_nyx_private_ed.Base.HashMap
use aero_nyx_private_ed.Base.{ℕ, ◌≡◌, refl, true, List, [], ◌∷◌, Option, some, nat_eq, length}
use aero_nyx_private_ed.Crypto.SecretKeyCache.{
  SecretKeyCache, new_manager, get_or_compute, get_shared_secret,
}
use aero_nyx_private_ed.Crypto.SecretKeyCache.Entries.{
  Call, get_shared_secret_call, rotate_keypair_call, invalidate_call, run, run-transparent,
  get_or_compute_overflow,
}

abbrev secret_of : ℕ → ℕ → Option (List ℕ)
secret_of l k = some (l ∷ k ∷ [])

abbrev calls : List (Call secret_of)
calls =
    get_shared_secret_call 3 0
    ∷ get_shared_secret_call 4 0
    ∷ rotate_keypair_call true 8
    ∷ invalidate_call 3
    ∷ get_shared_secret_call 4 1
    ∷ []

run-transparent_example :
    (get_shared_secret secret_of (run secret_of (new_manager 7 10 1) calls) 4 2).0
    ≡ some (8 ∷ 4 ∷ [])
run-transparent_example = run-transparent secret_of 7 10 1 calls 4 2

abbrev full : SecretKeyCache ℕ
full = record {
  cache = (3, record { public_key = 3; shared_secret = 3 ∷ []; last_used = 0 }) ∷ [];
  ttl = 10;
  max_size = 1;
}

get_or_compute_overflow_example : length (get_or_compute secret_of full 7 4 5).1.cache ≡ 2
unfolding HashMap.get HashMap.retain
get_or_compute_overflow_example =
    get_or_compute_overflow secret_of 7 full 4 5 (7 ∷ 4 ∷ []) refl refl refl
