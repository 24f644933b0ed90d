-- ===== src/Terminals/Pty/Tests.antt =====
-- Messages to a table of terminals.
use aero_nyx_private_ed.Base.{◌++◌, ◌≡◌, true, List, [], ◌∷◌, none, some, text_eq, codes}
use aero_nyx_private_ed.Terminals.Pty.{Host, term_init, term_resize}
use aero_nyx_private_ed.Terminals.Pty.Reader.{Reader, Turn, bytes, gone, terminal_output_reader}
use aero_nyx_private_ed.Terminals.Pty.Reader.Output.{
  joined, pending, received, terminal_output_reader-conserves,
}
use aero_nyx_private_ed.Terminals.Pty.Sizes.{
  Event, message, cleanup, run, IsSound, run-empty-IsSound,
}

-- A machine on which everything works.
abbrev ready : Host
ready = record {
  exists_path = λ p. true;
  spawned = true;
  written = true;
  resized = true;
  now = 5;
  decode = λ s. some s;
}

abbrev events : List Event
events =
    message ready (term_init (codes "1") 24 80 none none)
    ∷ message ready (term_init (codes "2") 24 500 none none)
    ∷ message ready (term_resize (codes "1") 50 120)
    ∷ cleanup 3600 9
    ∷ []

run-empty-IsSound_example : IsSound (run [] events)
run-empty-IsSound_example = run-empty-IsSound events

abbrev fresh : Reader
fresh = record { buffer = []; consecutive_errors = 0; last_send = 0 }

abbrev turns : List Turn
turns =
    record {
      present = true;
      reading = bytes (codes "a");
      read_at = 10;
      ended_at = 11;
      is_open = true;
    }
    ∷ record {
      present = true;
      reading = bytes (98 ∷ 10 ∷ []);
      read_at = 20;
      ended_at = 21;
      is_open = true;
    }
    ∷ record { present = true; reading = gone; read_at = 30; ended_at = 31; is_open = true }
    ∷ []

terminal_output_reader-conserves_example :
    joined (terminal_output_reader fresh turns).0 ++ pending (terminal_output_reader fresh turns).1
    ≡ received fresh turns
terminal_output_reader-conserves_example = terminal_output_reader-conserves fresh turns
