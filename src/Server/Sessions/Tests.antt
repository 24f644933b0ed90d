-- ===== src/Server/Sessions/Tests.antt =====
-- Two sessions with addresses of their own.
use aero_nyx_private_ed.Base.HashMap
use aero_nyx_private_ed.Base.{
  ◌≡◌, ◌↔◌, refl, [], ◌∷◌, none, some, List, text_eq, codes, list_beq, arith,
}
use aero_nyx_private_ed.Server.Sessions.{
  ClientSession, new, new_session, add_session, get_session_by_ip, remove_session,
}
use aero_nyx_private_ed.Server.Sessions.History.{
  Call, add_call, cleanup_call, step, run, AreFresh, get_session_by_ip-run_iff,
  remove_session_shadowed,
}

abbrev ann : ClientSession
ann = new_session (codes "s1") (codes "ann") (codes "10.7.0.2") (codes "1.2.3.4") none 0

abbrev bob : ClientSession
bob = new_session (codes "s2") (codes "bob") (codes "10.7.0.3") (codes "1.2.3.5") none 0

abbrev calls : List Call
calls = add_call ann ∷ add_call bob ∷ cleanup_call 5 ∷ []

calls-AreFresh : AreFresh (new 10) calls
unfolding new new_session step add_session HashMap.get HashMap.insert list_beq
calls-AreFresh = (
  record { id_free = refl; address_free = λ id t h. cc },
  (record { id_free = refl; address_free = λ id t h e. ground (arith, h, e) }, tt),
)

get_session_by_ip-run_iff_example :
    (get_session_by_ip (run (new 10) calls) (codes "10.7.0.3") ≡ some bob) ↔ (
      (HashMap.get (run (new 10) calls).sessions bob.id ≡ some bob)
      × (bob.ip_address ≡ codes "10.7.0.3"))
get_session_by_ip-run_iff_example =
    get_session_by_ip-run_iff 10 calls (codes "10.7.0.3") bob calls-AreFresh

abbrev twin : ClientSession
twin = record bob { ip_address = codes "10.7.0.2" }

remove_session_shadowed_example :
    (get_session_by_ip
        (remove_session (add_session (add_session (new 10) ann) twin) ann.id)
        twin.ip_address
      ≡ none)
    × (HashMap.get
          (remove_session (add_session (add_session (new 10) ann) twin) ann.id).sessions
          twin.id
        ≡ some twin)
unfolding new_session
remove_session_shadowed_example =
    remove_session_shadowed (new 10) ann twin refl (λ e. ground (arith, e))
