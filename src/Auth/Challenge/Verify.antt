-- ===== src/Auth/Challenge/Verify.antt =====
-- What a successful verification has tested, and that it cannot be repeated.
use aero_nyx_private_ed.Base.HashMap
use aero_nyx_private_ed.Base.HashMap.{get-remove}
use aero_nyx_private_ed.Base.{
  ℕ, ◌≤◌, ◌≡◌, true, none, some, Text, text_eq, text_self, ok, err, arith, Option-cases, inl, inr,
}
use aero_nyx_private_ed.Auth.Solana.{Solana, Sockets}
use aero_nyx_private_ed.Auth.Challenge.{
  Challenge, ChallengeManager, not_found, check_signature, on_success, verify_found,
  verify_challenge,
}

module _ (sol : Solana) (sock : Sockets) where
  open sol use {Pubkey, Signature, pubkey_from_str, signature_from_str, verify}
  open sock use {SocketAddr, addr_eq}

  -- The stored challenge was issued to this address, has not expired, and the signature of its
  -- bytes is valid for the key.
  pub record Proven (c : Challenge SocketAddr) (client_addr : SocketAddr)
      (signature public_key : Text) (now : ℕ) : Type 0 where
    pub address : c.client_addr ≡ client_addr
    pub in_time : now ≤ c.expires_at
    pub key : sol.Pubkey
    pub sig : sol.Signature
    pub key_parsed : pubkey_from_str public_key ≡ some key
    pub sig_parsed : signature_from_str signature ≡ some sig
    pub signed : verify key c.payload sig ≡ true

  check_signature-ok :
      (c : Challenge SocketAddr) (signature public_key : Text)
      → check_signature sol sock c signature public_key ≡ ok tt
      → (key : Pubkey) × (sig : Signature) × (pubkey_from_str public_key ≡ some key)
        × (signature_from_str signature ≡ some sig)
        × (verify key c.payload sig ≡ true)
  unfolding check_signature
  check_signature-ok c signature public_key h = elim (Option-cases (pubkey_from_str public_key)) [
    | inl bad ↦ absurd (ground arith)
    | inr (key, parsed) ↦ elim (Option-cases (signature_from_str signature)) [
      | inl bad ↦ absurd (ground arith)
      | inr (sig, read) ↦ (key, sig, parsed, read, ground arith)
    ]
  ]

  -- The two states after a verification: the challenge is spent, or all is as before.
  abbrev spent : ChallengeManager SocketAddr → Text → ChallengeManager SocketAddr
  spent m id = record m { challenges = HashMap.remove m.challenges id }

  verify_found-Proven :
      (c : Challenge SocketAddr) (m t : ChallengeManager SocketAddr) (id : Text)
      (client_addr : SocketAddr) (signature public_key : Text) (now : ℕ)
      → verify_found sol sock (some c) m id client_addr signature public_key now ≡ (ok tt, t)
      → Proven c client_addr signature public_key now × (t ≡ spent m id)
  unfolding verify_found on_success
  verify_found-Proven c m t id client_addr signature public_key now h =
      let tested : check_signature sol sock c signature public_key ≡ ok tt = ground arith in
      let (key, sig, parsed, read, signed) = check_signature-ok c signature public_key tested in
      (
        record {
          address = (addr_eq.equal_iff c.client_addr client_addr).0 (ground arith);
          in_time = ground arith;
          key = key;
          sig = sig;
          key_parsed = parsed;
          sig_parsed = read;
          signed = signed;
        },
        ground arith,
      )

  pub verify_challenge_missing :
      (m : ChallengeManager SocketAddr) (id : Text) (client_addr : SocketAddr)
      (signature public_key : Text) (now : ℕ)
      → HashMap.get m.challenges id ≡ none
      → verify_challenge sol sock m id client_addr signature public_key now
        ≡ (err (not_found id), m)
  unfolding verify_challenge verify_found
  verify_challenge_missing m id client_addr signature public_key now e = rw e

  -- A verification that succeeds found a challenge under the identifier that was issued to this
  -- address, had not expired, and whose bytes the signature signs for the key; it removes it.
  pub verify_challenge-Proven :
      (m t : ChallengeManager SocketAddr) (id : Text) (client_addr : SocketAddr)
      (signature public_key : Text) (now : ℕ)
      → verify_challenge sol sock m id client_addr signature public_key now ≡ (ok tt, t)
      → (c : Challenge SocketAddr) × (HashMap.get m.challenges id ≡ some c)
        × Proven c client_addr signature public_key now
        × (t ≡ record m { challenges = HashMap.remove m.challenges id })
  unfolding verify_challenge
  verify_challenge-Proven m t id client_addr signature public_key now h =
      elim (Option-cases (HashMap.get m.challenges id)) [
        | inl missing ↦
            cc (verify_challenge_missing m id client_addr signature public_key now missing)
        | inr (c, found) ↦
            let (proof, state) =
              verify_found-Proven c m t id client_addr signature public_key now (rw found at h) in
            (c, found, proof, state)
      ]

  -- Every response that meets the tests is accepted.
  pub verify_challenge_complete :
      (m : ChallengeManager SocketAddr) (id : Text) (c : Challenge SocketAddr)
      (client_addr : SocketAddr) (signature public_key : Text) (now : ℕ)
      → HashMap.get m.challenges id ≡ some c
      → Proven c client_addr signature public_key now
      → verify_challenge sol sock m id client_addr signature public_key now
        ≡ (ok tt, record m { challenges = HashMap.remove m.challenges id })
  unfolding verify_challenge verify_found on_success check_signature
  verify_challenge_complete m id c client_addr signature public_key now found p = ground (
    arith,
    (addr_eq.equal_iff c.client_addr client_addr).1 p.address,
    p.in_time,
    p.key_parsed,
    p.sig_parsed,
    p.signed,
  )

  -- A challenge answers one verification: after a success the identifier is unknown, whoever asks,
  -- with whatever signature and key, at whatever time.
  pub verify_challenge-once :
      (m t : ChallengeManager SocketAddr) (id : Text) (client_addr other : SocketAddr)
      (signature public_key signature' public_key' : Text) (now later : ℕ)
      → verify_challenge sol sock m id client_addr signature public_key now ≡ (ok tt, t)
      → verify_challenge sol sock t id other signature' public_key' later ≡ (err (not_found id), t)
  unfolding verify_challenge
  verify_challenge-once m t id client_addr other signature public_key signature' public_key' now
        later h =
      let (c, found, proof, state) =
        verify_challenge-Proven m t id client_addr signature public_key now h in
      verify_challenge_missing t id other signature' public_key' later
        (ground (arith, state, get-remove m.challenges id id, text_self id))
