-- ===== src/Auth/Challenge/Tests.antt =====
-- One challenge, and its answer.
use aero_nyx_private_ed.Base.HashMap
use aero_nyx_private_ed.Base.{
  ◌≡◌, refl, [], ◌∷◌, some, Text, text_eq, codes, list_beq, ok, err, arith,
}
use aero_nyx_private_ed.Auth.Challenge.{
  Challenge, ChallengeManager, not_found, issue, empty, verify_challenge, verify_found,
  check_signature, on_success,
}
use aero_nyx_private_ed.Auth.Challenge.Verify.{
  Proven, verify_challenge-Proven, verify_challenge_complete, verify_challenge-once,
}
use aero_nyx_private_ed.Auth.Challenge.Capacity.{
  IsBounded, generates, verifies, cleans, run, run-empty-IsBounded,
}
use aero_nyx_private_ed.Fixtures.{sol, sock}

abbrev home : Text
home = codes "home"

abbrev key : Text
key = codes "key"

abbrev asked : Challenge Text
asked = issue (codes "c1") (7 ∷ 8 ∷ []) home 30 100

abbrev signature : Text
signature = 107 ∷ 101 ∷ 121 ∷ 7 ∷ 8 ∷ []

abbrev waiting : ChallengeManager Text
waiting = record { challenges = (codes "c1", asked) ∷ []; timeout = 30; max_challenges = 2 }

abbrev answered : ChallengeManager Text
answered = record waiting { challenges = [] }

accepted : verify_challenge sol sock waiting (codes "c1") home signature key 120 ≡ (ok tt, answered)
unfolding verify_challenge verify_found check_signature on_success HashMap.get HashMap.remove
    list_beq
accepted = refl

asked-Proven : Proven sol sock asked home signature key 120
unfolding list_beq
asked-Proven = record {
  address = refl;
  in_time = ground arith;
  key = key;
  sig = signature;
  key_parsed = refl;
  sig_parsed = refl;
  signed = refl;
}

verify_challenge-Proven_example :
    (c : Challenge Text) × (HashMap.get waiting.challenges (codes "c1") ≡ some c)
    × Proven sol sock c home signature key 120
    × (answered ≡ record waiting { challenges = HashMap.remove waiting.challenges (codes "c1") })
verify_challenge-Proven_example =
    verify_challenge-Proven sol sock waiting answered (codes "c1") home signature key 120 accepted

verify_challenge_complete_example :
    verify_challenge sol sock waiting (codes "c1") home signature key 120 ≡ (ok tt, answered)
unfolding HashMap.get HashMap.remove list_beq
verify_challenge_complete_example =
    verify_challenge_complete sol sock waiting (codes "c1") asked home signature key 120 refl
      asked-Proven

verify_challenge-once_example :
    verify_challenge sol sock answered (codes "c1") home signature key 121
    ≡ (err (not_found (codes "c1")), answered)
verify_challenge-once_example =
    verify_challenge-once sol sock waiting answered (codes "c1") home home signature key signature
      key 120 121 accepted

run-empty-IsBounded_example : IsBounded (
    run sol sock (empty 30 2) (
      generates home (codes "c1") (7 ∷ 8 ∷ []) 100 100
      ∷ verifies (codes "c1") home signature key 120
      ∷ cleans 200
      ∷ []))
run-empty-IsBounded_example = run-empty-IsBounded sol sock 30 2 (
    generates home (codes "c1") (7 ∷ 8 ∷ []) 100 100
    ∷ verifies (codes "c1") home signature key 120
    ∷ cleans 200
    ∷ [])
