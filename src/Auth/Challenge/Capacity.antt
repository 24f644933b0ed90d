-- ===== src/Auth/Challenge/Capacity.antt =====
-- The number of stored challenges.
use aero_nyx_private_ed.Base.HashMap
use aero_nyx_private_ed.Base.HashMap.{
  HashMap, get-insert, get-retain, length-insert, length-remove-le, length-retain-le,
  insert-Distinct, remove-Distinct, retain-Distinct, keep_if,
}
use aero_nyx_private_ed.Base.{
  ℕ, ◌≤◌, ◌<◌, ◌≡◌, Bool, not, List, [], ◌∷◌, Option, none, some, Text, text_eq, text_self, ltb,
  leb, if◌then◌else◌, length, ok, err, arith, Bool-cases, inl, inr,
}
use aero_nyx_private_ed.Auth.Solana.{Solana, Sockets}
use aero_nyx_private_ed.Auth.Challenge.{
  Challenge, ChallengeManager, too_many_challenges, is_expired, issue, empty, generate_challenge,
  store, cleanup_expired, cleanup_expired_challenges, on_success, verify_found, verify_challenge,
}

-- The map is one, and no more challenges are stored than allowed.
pub record IsBounded {A : Type 0} (m : ChallengeManager A) : Type 0 where
  pub distinct : HashMap.Distinct m.challenges
  pub within : length m.challenges ≤ m.max_challenges

module _ {A : Type 0} where
  abbrev live : ℕ → Text → Challenge A → Bool
  live now id c = not (is_expired c now)

  empty-IsBounded : (timeout limit : ℕ) → IsBounded {A = A} (empty timeout limit)
  unfolding empty
  empty-IsBounded timeout limit = record { distinct = tt; within = omega arith }

  store-IsBounded :
      (m : ChallengeManager A) (held : HashMap Text (Challenge A)) (c : Challenge A)
      → HashMap.Distinct held
      → length held < m.max_challenges
      → IsBounded (store m held c).1
  unfolding store
  store-IsBounded m held c d h = record {
    distinct = insert-Distinct held c.id c d;
    within = ground (arith, length-insert held c.id c);
  }

  cleaned-IsBounded :
      (m : ChallengeManager A) (now : ℕ)
      → IsBounded m
      → IsBounded (record m { challenges = cleanup_expired_challenges m.challenges now })
  unfolding cleanup_expired_challenges
  cleaned-IsBounded m now b = record {
    distinct = retain-Distinct (live now) m.challenges b.distinct;
    within = omega (arith, b.within, length-retain-le (live now) m.challenges);
  }

  generate_challenge-IsBounded :
      (m : ChallengeManager A) (client_addr : A) (id : Text) (payload : List ℕ) (created now : ℕ)
      → IsBounded m
      → IsBounded (generate_challenge m client_addr id payload created now).1
  unfolding generate_challenge
  generate_challenge-IsBounded m client_addr id payload created now b =
      let cleaned = cleanup_expired_challenges m.challenges now in
      let c = issue id payload client_addr m.timeout created in
      elim (Bool-cases (leb m.max_challenges (length m.challenges))) [
        | inr room ↦ rw room (store-IsBounded m m.challenges c b.distinct (ground arith))
        | inl full ↦ rw full (elim (Bool-cases (leb m.max_challenges (length cleaned))) [
          | inl still ↦ rw still (cleaned-IsBounded m now b)
          | inr room ↦
              rw room
                (store-IsBounded m cleaned c (cleaned-IsBounded m now b).distinct (ground arith))
        ])
      ]

  abbrev live_count : ChallengeManager A → ℕ → ℕ
  live_count m now = length (HashMap.retain (λ _ c. not (is_expired c now)) m.challenges)

  -- `generate_challenge` refuses exactly when as many challenges as allowed are stored that have
  -- not expired, and returns the new challenge otherwise.
  pub generate_challenge-result :
      (m : ChallengeManager A) (client_addr : A) (id : Text) (payload : List ℕ) (created now : ℕ)
      → (generate_challenge m client_addr id payload created now).0 ≡ (
          if ltb (live_count m now) m.max_challenges
          then ok (issue id payload client_addr m.timeout created)
          else err too_many_challenges)
  unfolding generate_challenge store cleanup_expired_challenges
  generate_challenge-result m client_addr id payload created now =
      ground (arith, length-retain-le (live now) m.challenges)

  -- A challenge that `generate_challenge` returns is stored under its identifier.
  pub generate_challenge-stored :
      (m t : ChallengeManager A) (client_addr : A) (id : Text) (payload : List ℕ) (created now : ℕ)
      (c : Challenge A)
      → generate_challenge m client_addr id payload created now ≡ (ok c, t)
      → HashMap.get t.challenges c.id ≡ some c
  unfolding generate_challenge store
  generate_challenge-stored m t client_addr id payload created now c h =
      let new = issue id payload client_addr m.timeout created in
      ground (
        arith,
        text_self id,
        get-insert m.challenges id id new,
        get-insert (cleanup_expired_challenges m.challenges now) id id new,
      )

  pub cleanup_expired-IsBounded :
      (m : ChallengeManager A) (now : ℕ) → IsBounded m → IsBounded (cleanup_expired m now).1
  unfolding cleanup_expired
  cleanup_expired-IsBounded m now b = cleaned-IsBounded m now b

  removed-IsBounded :
      (m : ChallengeManager A) (id : Text)
      → IsBounded m
      → IsBounded (record m { challenges = HashMap.remove m.challenges id })
  removed-IsBounded m id b = record {
    distinct = remove-Distinct m.challenges id b.distinct;
    within = omega (arith, b.within, length-remove-le m.challenges id);
  }

module _ (sol : Solana) (sock : Sockets) where
  open sock use {SocketAddr, addr_eq}

  verify_found-IsBounded :
      (o : Option (Challenge SocketAddr)) (m : ChallengeManager SocketAddr) (id : Text)
      (client_addr : SocketAddr) (signature public_key : Text) (now : ℕ)
      → IsBounded m
      → IsBounded (verify_found sol sock o m id client_addr signature public_key now).1
  unfolding verify_found on_success
  verify_found-IsBounded none m id client_addr signature public_key now b = b
  verify_found-IsBounded (some c) m id client_addr signature public_key now b =
      let removed = removed-IsBounded m id b in
      record {
        distinct = ground (arith, removed.distinct, b.distinct);
        within = ground (arith, removed.within, b.within);
      }

  verify_challenge-IsBounded :
      (m : ChallengeManager SocketAddr) (id : Text) (client_addr : SocketAddr)
      (signature public_key : Text) (now : ℕ)
      → IsBounded m
      → IsBounded (verify_challenge sol sock m id client_addr signature public_key now).1
  unfolding verify_challenge
  verify_challenge-IsBounded m id client_addr signature public_key now b =
      verify_found-IsBounded (HashMap.get m.challenges id) m id client_addr signature public_key now
        b

  -- The calls that change the manager, with what they draw and read.
  pub data Call : Type 0 where
    generates : SocketAddr → Text → List ℕ → ℕ → ℕ → Call
    verifies : Text → SocketAddr → Text → Text → ℕ → Call
    cleans : ℕ → Call

  pub run : ChallengeManager SocketAddr → List Call → ChallengeManager SocketAddr
  run m [] = m
  run m (generates client_addr id payload created now ∷ cs) =
      run (generate_challenge m client_addr id payload created now).1 cs
  run m (verifies id client_addr signature public_key now ∷ cs) =
      run (verify_challenge sol sock m id client_addr signature public_key now).1 cs
  run m (cleans now ∷ cs) = run (cleanup_expired m now).1 cs

  run-IsBounded :
      (m : ChallengeManager SocketAddr) (cs : List Call) → IsBounded m → IsBounded (run m cs)
  unfolding run
  run-IsBounded m [] b = b
  run-IsBounded m (generates client_addr id payload created now ∷ cs) b =
      run-IsBounded (generate_challenge m client_addr id payload created now).1 cs
        (generate_challenge-IsBounded m client_addr id payload created now b)
  run-IsBounded m (verifies id client_addr signature public_key now ∷ cs) b =
      run-IsBounded (verify_challenge sol sock m id client_addr signature public_key now).1 cs
        (verify_challenge-IsBounded m id client_addr signature public_key now b)
  run-IsBounded m (cleans now ∷ cs) b =
      run-IsBounded (cleanup_expired m now).1 cs (cleanup_expired-IsBounded m now b)

  -- After any history of calls on a new manager, no identifier is stored twice, and never more
  -- challenges than allowed.
  pub run-empty-IsBounded :
      (timeout limit : ℕ) (cs : List Call) → IsBounded (run (empty timeout limit) cs)
  run-empty-IsBounded timeout limit cs =
      run-IsBounded (empty timeout limit) cs (empty-IsBounded timeout limit)
