-- ===== src/Utils/Patterns.antt =====
-- src/utils/security.rs: `detect_attack_patterns`.
use aero_nyx_private_ed.Base.{
  ℕ, ◌+◌, Bool, true, false, ◌||◌, List, [], ◌∷◌, Option, none, some, Text, codes, ltb,
  if◌then◌else◌, length,
}

-- The loop over the bytes, with the number of consecutive bytes outside printable ASCII so far.
shellcode_loop : ℕ → List ℕ → Bool
shellcode_loop consecutive [] = false
shellcode_loop consecutive (byte ∷ bytes) =
    if ltb byte 32 || ltb 126 byte
    then (if ltb 15 (consecutive + 1) then true else shellcode_loop (consecutive + 1) bytes)
    else shellcode_loop 0 bytes

unfoldable pub detect_attack_patterns : List ℕ → Option Text
unfolding shellcode_loop
detect_attack_patterns bytes =
    if ltb 16384 (length bytes)
    then some (codes "Unusually large packet")
    else if ltb 20 (length bytes)
    then (if shellcode_loop 0 bytes
        then some (codes "Potential shellcode pattern detected")
        else none)
    else none
