-- ===== src/Crypto/SecretKeyCache/Entries.antt =====
-- The cache is transparent to the key manager: it answers as computing afresh would.
use aero_nyx_private_ed.Base.HashMap
use aero_nyx_private_ed.Base.HashMap.{
  HashMap, Distinct, get-insert, get-modify, get-remove, get-retain, insert-Distinct,
  modify-Distinct, remove-Distinct, retain-Distinct, length-insert, length-retain-le,
  length-remove-le, length-modify,
}
use aero_nyx_private_ed.Base.{
  ℕ, ◌+◌, ◌≡◌, refl, ap, ◌∙◌, Bool, true, false, not, List, [], ◌∷◌, Option, none, some, Equality,
  leb, if◌then◌else◌, length, arith, Option-cases, Bool-cases, inl, inr,
}
use aero_nyx_private_ed.Crypto.SecretKeyCache.{
  CachedSecretKey, SecretKeyCache, new, is_expired, touch, cleanup_expired_keys, compute,
  get_or_compute, invalidate, clear, KeyManager, new_manager, replaced, rotate_keypair,
  get_shared_secret,
}

module _ {L : Type 0} {K : Type 0} ⦃eq : Equality K⦄
    (generate_shared_secret : L → K → Option (List ℕ)) (local : L) where
  -- Every cached secret is the one that the local key pair gives, and no key stands twice.
  pub record IsSound (m : SecretKeyCache K) : Type 0 where
    pub secrets :
        (k : K) (c : CachedSecretKey K)
        → HashMap.get m.cache k ≡ some c
        → generate_shared_secret local k ≡ some c.shared_secret
    pub distinct : Distinct m.cache

  new-IsSound : (ttl max_size : ℕ) → IsSound (new ttl max_size)
  unfolding new HashMap.get
  new-IsSound ttl max_size = record { secrets = λ k c h. cc; distinct = tt }

  -- The map that `compute` starts from holds entries of the sound map only.
  abbrev Within : HashMap K (CachedSecretKey K) → Type 0
  Within held =
      (k : K) (c : CachedSecretKey K)
      → HashMap.get held k ≡ some c
      → generate_shared_secret local k ≡ some c.shared_secret

  insert-Within :
      (held : HashMap K (CachedSecretKey K)) (k : K) (c : CachedSecretKey K)
      → Within held
      → generate_shared_secret local k ≡ some c.shared_secret
      → Within (HashMap.insert held k c)
  insert-Within held k c w made j d h =
      ground (arith, w j d, get-insert held k j c, eq.equal_iff k j, made)

  retain-Within :
      (p : K → CachedSecretKey K → Bool) (held : HashMap K (CachedSecretKey K))
      → Distinct held
      → Within held
      → Within (HashMap.retain p held)
  retain-Within p held d w j c h = ground (arith, w j c, get-retain p held j d)

  remove-Within :
      (held : HashMap K (CachedSecretKey K)) (k : K) → Within held → Within (HashMap.remove held k)
  remove-Within held k w j c h = ground (arith, w j c, get-remove held k j, eq.equal_iff k j)

  touch-Within :
      (held : HashMap K (CachedSecretKey K)) (k : K) (now : ℕ)
      → Within held
      → Within (HashMap.modify held k (λ c. touch c now))
  touch-Within held k now w j c h = elim (Option-cases (HashMap.get held j)) [
    | inl gone ↦ absurd (ground (arith, get-modify held k j (λ x. touch x now)))
    | inr (d, found) ↦
        ground (arith, w j d found, get-modify held k j (λ x. touch x now), eq.equal_iff k j)
  ]

  -- The map that the new entry is put into.
  room-Within :
      (full : Bool) (p : K → CachedSecretKey K → Bool) (held : HashMap K (CachedSecretKey K))
      → Distinct held
      → Within held
      → Within (if full then HashMap.retain p held else held)
        × Distinct (if full then HashMap.retain p held else held)
  room-Within true p held d w = (retain-Within p held d w, retain-Distinct p held d)
  room-Within false p held d w = (w, d)

  compute-IsSound :
      (m : SecretKeyCache K) (held : HashMap K (CachedSecretKey K)) (k : K) (now : ℕ)
      → Within held
      → Distinct held
      → IsSound (compute generate_shared_secret m held local k now).1
        × ((compute generate_shared_secret m held local k now).0 ≡ generate_shared_secret local k)
  unfolding compute cleanup_expired_keys
  compute-IsSound m held k now w d = elim (Option-cases (generate_shared_secret local k)) [
    | inl failed ↦ rw (failed, compute) (record { secrets = w; distinct = d }, refl)
    | inr (secret, made) ↦
        let live = λ (_ : K) (c : CachedSecretKey K). not (is_expired c now m.ttl) in
        let fresh : CachedSecretKey K = record {
          public_key = k;
          shared_secret = secret;
          last_used = now;
        } in
        let full = leb m.max_size (length held) in
        let room = if full then HashMap.retain live held else held in
        let (within, distinct) = room-Within full live held d w in
        rw (made, compute)
          (
            record {
              secrets = insert-Within room k fresh within made;
              distinct = insert-Distinct room k fresh distinct;
            },
            refl,
          )
  ]

  -- On a sound cache, `get_or_compute` answers what computing the secret gives, be it cached, expired
  -- or absent, and the cache stays sound.
  pub get_or_compute-IsSound :
      (m : SecretKeyCache K) (k : K) (now : ℕ)
      → IsSound m
      → ((get_or_compute generate_shared_secret m local k now).0 ≡ generate_shared_secret local k)
        × IsSound (get_or_compute generate_shared_secret m local k now).1
  unfolding get_or_compute
  get_or_compute-IsSound m k now s = elim (Option-cases (HashMap.get m.cache k)) [
    | inl absent ↦
        let (sound, answer) = compute-IsSound m m.cache k now s.secrets s.distinct in
        rw (absent, get_or_compute) (answer, sound)
    | inr (c, found) ↦
        let touched : IsSound (record m { cache = HashMap.modify m.cache k (λ x. touch x now) }) =
          record {
            secrets = touch-Within m.cache k now s.secrets;
            distinct = modify-Distinct m.cache k (λ x. touch x now) s.distinct;
          } in
        let (sound, answer) =
          compute-IsSound m (HashMap.remove m.cache k) k now (remove-Within m.cache k s.secrets)
            (remove-Distinct m.cache k s.distinct) in
        elim (Bool-cases (is_expired c now m.ttl)) [
          | inl old ↦ rw (found, old, get_or_compute) (answer, sound)
          | inr young ↦
              rw (found, young, get_or_compute) (ground (arith, s.secrets k c found), touched)
        ]
  ]

  get_or_compute-unexpired :
      (m : SecretKeyCache K) (k : K) (now : ℕ) (c : CachedSecretKey K)
      → HashMap.get m.cache k ≡ some c
      → is_expired c now m.ttl ≡ false
      → (get_or_compute generate_shared_secret m local k now).0 ≡ some c.shared_secret
  unfolding get_or_compute
  get_or_compute-unexpired m k now c found young = ground (arith, found, young)

  -- A cache full of secrets in use grows past its limit: the test for room leads nowhere.
  pub get_or_compute_overflow :
      (m : SecretKeyCache K) (k : K) (now : ℕ) (secret : List ℕ)
      → HashMap.get m.cache k ≡ none
      → generate_shared_secret local k ≡ some secret
      → HashMap.retain (λ _ c. not (is_expired c now m.ttl)) m.cache ≡ m.cache
      → length (get_or_compute generate_shared_secret m local k now).1.cache ≡ length m.cache + 1
  unfolding get_or_compute compute cleanup_expired_keys
  get_or_compute_overflow m k now secret absent made live =
      let fresh : CachedSecretKey K = record {
        public_key = k;
        shared_secret = secret;
        last_used = now;
      } in
      ground (arith, absent, made, live, length-insert m.cache k fresh)

module _ {L : Type 0} {K : Type 0} ⦃eq : Equality K⦄
    (generate_shared_secret : L → K → Option (List ℕ)) where
  -- A sequence of calls: those of the key manager, and those that drop secrets from its cache.
  pub data Call : Type 0 where
    get_shared_secret_call : K → ℕ → Call
    rotate_keypair_call : Bool → L → Call
    invalidate_call : K → Call
    clear_call : Call

  pub step : KeyManager L K → Call → KeyManager L K
  step m (get_shared_secret_call k now) = (get_shared_secret generate_shared_secret m k now).1
  step m (rotate_keypair_call saved new_keypair) = rotate_keypair m saved new_keypair
  step m (invalidate_call k) = record m { secret_cache = invalidate m.secret_cache k }
  step m clear_call = record m { secret_cache = clear m.secret_cache }

  pub run : KeyManager L K → List Call → KeyManager L K
  run m [] = m
  run m (c ∷ cs) = run (step m c) cs

  -- The key pair that was saved last.
  abbrev pub current : L → List Call → L
  current l [] = l
  current l (rotate_keypair_call true new_keypair ∷ cs) = current new_keypair cs
  current l (rotate_keypair_call false new_keypair ∷ cs) = current l cs
  current l (get_shared_secret_call k now ∷ cs) = current l cs
  current l (invalidate_call k ∷ cs) = current l cs
  current l (clear_call ∷ cs) = current l cs

  -- The cache is sound for the key pair that the manager has.
  abbrev IsCoherent : KeyManager L K → Type 0
  IsCoherent m = IsSound generate_shared_secret m.keypair m.secret_cache

  run-IsCoherent :
      (m : KeyManager L K) (cs : List Call)
      → IsCoherent m
      → IsCoherent (run m cs) × ((run m cs).keypair ≡ current m.keypair cs)
  unfolding run step rotate_keypair get_shared_secret invalidate clear new
  run-IsCoherent m [] s = (s, refl)
  run-IsCoherent m (get_shared_secret_call k now ∷ cs) s =
      run-IsCoherent (get_shared_secret generate_shared_secret m k now).1 cs
        (get_or_compute-IsSound generate_shared_secret m.keypair m.secret_cache k now s).1
  run-IsCoherent m (rotate_keypair_call true new_keypair ∷ cs) s =
      run-IsCoherent (rotate_keypair m true new_keypair) cs
        (new-IsSound generate_shared_secret new_keypair m.secret_cache.ttl m.secret_cache.max_size)
  run-IsCoherent m (rotate_keypair_call false new_keypair ∷ cs) s = run-IsCoherent m cs s
  run-IsCoherent m (invalidate_call k ∷ cs) s =
      run-IsCoherent (record m { secret_cache = invalidate m.secret_cache k }) cs
        (record {
          secrets = remove-Within generate_shared_secret m.keypair m.secret_cache.cache k s.secrets;
          distinct = remove-Distinct m.secret_cache.cache k s.distinct;
        })
  run-IsCoherent m (clear_call ∷ cs) s =
      run-IsCoherent (record m { secret_cache = clear m.secret_cache }) cs
        (new-IsSound generate_shared_secret m.keypair m.secret_cache.ttl m.secret_cache.max_size)

  -- After every sequence of calls on a new key manager, of which none runs while a rotation is between
  -- its two locks, a secret is answered as computing it from the key pair that was saved last gives
  -- it.
  pub run-transparent :
      (keypair : L) (ttl max_size : ℕ) (cs : List Call) (k : K) (now : ℕ)
      → (get_shared_secret generate_shared_secret
          (run (new_manager keypair ttl max_size) cs)
          k
          now).0
        ≡ generate_shared_secret (current keypair cs) k
  unfolding get_shared_secret new_manager
  run-transparent keypair ttl max_size cs k now =
      let m = run (new_manager keypair ttl max_size) cs in
      let (sound, saved) =
        run-IsCoherent (new_manager keypair ttl max_size) cs
          (new-IsSound generate_shared_secret keypair ttl max_size) in
      (get_or_compute-IsSound generate_shared_secret m.keypair m.secret_cache k now sound).0
      ∙ ap (λ l. generate_shared_secret l k) saved

  -- Between the two locks of a rotation, the cache answers with the old key pair's secret.
  pub get_shared_secret-replaced :
      (m : KeyManager L K) (new_keypair : L) (k : K) (now : ℕ) (c : CachedSecretKey K)
      → HashMap.get m.secret_cache.cache k ≡ some c
      → is_expired c now m.secret_cache.ttl ≡ false
      → (get_shared_secret generate_shared_secret (replaced m new_keypair) k now).0
        ≡ some c.shared_secret
  unfolding get_shared_secret
  get_shared_secret-replaced m new_keypair k now c found young =
      get_or_compute-unexpired generate_shared_secret new_keypair m.secret_cache k now c found young
