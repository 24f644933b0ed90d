-- ===== src/Auth/Manager/Tests.antt =====
-- One client of the manager.
use aero_nyx_private_ed.Base.HashMap
use aero_nyx_private_ed.Base.{
  ◌≡◌, refl, true, [], ◌∷◌, none, some, Text, text_eq, codes, list_beq, ok, arith,
}
use aero_nyx_private_ed.Auth.Acl
use aero_nyx_private_ed.Auth.Acl.Laws.{is_allowed-get_entry}
use aero_nyx_private_ed.Auth.Challenge.{Challenge, issue, ChallengeManager}
use aero_nyx_private_ed.Auth.Challenge.Verify.{Proven, verify_challenge_complete}
use aero_nyx_private_ed.Auth.Manager.{
  AuthManager, attempts, reset_failed_attempts, challenge_answered, verify_challenge,
}
use aero_nyx_private_ed.Auth.Manager.Access.{
  attempts_after, verify_challenge-attempts, verify_challenge-authenticated,
}
use aero_nyx_private_ed.Utils.Validator.{is_valid_solana_pubkey}
use aero_nyx_private_ed.Fixtures.{sol, sock}

abbrev home : Text
home = codes "home"

abbrev key : Text
key = codes "AiUYgGCmQxtYbboLnNer8nY3Lnkarn3awthiCgqMkwkp"

abbrev signature : Text
signature = codes "AiUYgGCmQxtYbboLnNer8nY3Lnkarn3awthiCgqMkwkp!"

abbrev asked : Challenge Text
asked = issue (codes "c1") (33 ∷ []) home 30 100

abbrev waiting : ChallengeManager Text
waiting = record { challenges = (codes "c1", asked) ∷ []; timeout = 30; max_challenges = 2 }

abbrev manager : AuthManager Text
manager = record {
  acl = record { default_policy = codes "allow"; entries = []; updated_at = 0 };
  challenges = waiting;
  failed_attempts = (home, 3) ∷ [];
}

abbrev after : AuthManager Text
after = record manager { challenges = record waiting { challenges = [] }; failed_attempts = [] }

asked-Proven : Proven sol sock asked home signature key 120
unfolding list_beq
asked-Proven = record {
  address = refl;
  in_time = ground arith;
  key = key;
  sig = signature;
  key_parsed = refl;
  sig_parsed = refl;
  signed = refl;
}

allowed : Acl.is_allowed manager.acl key ≡ true
unfolding Acl.find_entry Acl.get_entry list_beq
allowed = is_allowed-get_entry manager.acl key

accepted : verify_challenge sol sock manager (codes "c1") signature key home 120 ≡ (ok tt, after)
unfolding verify_challenge challenge_answered reset_failed_attempts HashMap.get HashMap.remove
    list_beq is_valid_solana_pubkey
accepted =
    let proved =
      verify_challenge_complete sol sock waiting (codes "c1") asked home signature key 120 refl
        asked-Proven in
    ground (arith, proved, allowed)

verify_challenge-authenticated_example :
    (client_addr : Text) × (c : Challenge Text) × (some home ≡ some client_addr)
    × (HashMap.get waiting.challenges (codes "c1") ≡ some c)
    × Proven sol sock c client_addr signature key 120
    × (Acl.is_allowed manager.acl key ≡ true)
    × (HashMap.get after.challenges.challenges (codes "c1") ≡ none)
    × (after.acl ≡ manager.acl)
    × (attempts after.failed_attempts home ≡ 0)
verify_challenge-authenticated_example =
    verify_challenge-authenticated sol sock manager after (codes "c1") signature key home 120
      accepted

verify_challenge-attempts_example :
    attempts
      (verify_challenge sol sock manager (codes "c1") signature key home 120).1.failed_attempts
      home
    ≡ attempts_after
        (verify_challenge sol sock manager (codes "c1") signature key home 120).0
        (attempts manager.failed_attempts home)
unfolding list_beq
verify_challenge-attempts_example =
    verify_challenge-attempts sol sock manager (codes "c1") signature key home home 120
