-- ===== src/Terminals/Manager/Tests.antt =====
-- A manager that gives each user one terminal.
use aero_nyx_private_ed.Base.{◌≤◌, true, [], ◌∷◌, List, Text, text_eq, codes}
use aero_nyx_private_ed.Terminals.Manager.{new, count_user_sessions}
use aero_nyx_private_ed.Terminals.Manager.Limit.{Call, create_call, close_call, run, run-new-limit}

abbrev ann : Text
ann = codes "ann"

abbrev calls : List Call
calls =
    create_call (codes "1") ann 24 80 5 true
    ∷ create_call (codes "2") ann 24 80 6 true
    ∷ close_call (codes "1")
    ∷ []

run-new-limit_example : count_user_sessions (run (new 1 30) calls) ann ≤ 1
run-new-limit_example = run-new-limit 1 30 calls ann
