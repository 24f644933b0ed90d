-- ===== src/Terminals/Pty/Reader.antt =====
-- src/terminal/mod.rs: `terminal_output_reader`. A message of output is the bytes that its base64
-- holds, and the messages of errors with which the task ends are left out. Times are in milliseconds.
pub mod Output
use aero_nyx_private_ed.Base.{
  ℕ, zero, suc, ◌+◌, ◌-◌, Bool, true, false, ◌&&◌, ◌||◌, List, [], ◌∷◌, ◌++◌, any, nat_beq, leb,
  ltb, if◌then◌else◌, length,
}

pub record Reader : Type 0 where
  pub buffer : List ℕ
  pub consecutive_errors : ℕ
  pub last_send : ℕ

-- What `read_from_terminal` gives: bytes, no session, or another error.
pub data Reading : Type 0 where
  bytes : List ℕ → Reading
  gone broken : Reading

-- A turn of the loop: whether the session is there, what is read, the clock at its two tests, and
-- whether the channel is open.
pub record Turn : Type 0 where
  pub present : Bool
  pub reading : Reading
  pub read_at : ℕ
  pub ended_at : ℕ
  pub is_open : Bool

-- The loop goes on, or stops with these bytes in its buffer unsent. The source does not clear the buffer
-- behind the last output of an ended session, and returns at once.
pub data Next : Type 0 where
  goes_on : Reader → Next
  stopped : List ℕ → Next

-- `chunks(size + 1)`, with the chunk that is being filled and the room in it.
unfoldable pub chunks_from : ℕ → ℕ → List ℕ → List ℕ → List (List ℕ)
chunks_from size room current [] = current ∷ []
chunks_from size zero current (b ∷ bs) = current ∷ chunks_from size size (b ∷ []) bs
chunks_from size (suc room) current (b ∷ bs) = chunks_from size room (current ++ b ∷ []) bs

-- `chunks(1024 * 1024)`.
unfoldable pub chunks : List ℕ → List (List ℕ)
unfolding chunks_from
chunks [] = []
chunks (b ∷ bs) = chunks_from 1048575 1048575 (b ∷ []) bs

unfoldable pub should_send : Reader → List ℕ → ℕ → Bool
should_send r buffer now =
    leb 4096 (length buffer) || (ltb 50 (now - r.last_send) || any (λ b. nat_beq b b'\n') buffer)

unfoldable pub send_all : Bool → ℕ → List (List ℕ) → List ℕ → List (List ℕ) × Next
send_all true now messages buffer =
    (messages, goes_on (record { buffer = []; consecutive_errors = 0; last_send = now }))
send_all false now messages buffer = ([], stopped buffer)

unfoldable pub last_output : Bool → List ℕ → List (List ℕ) × Next
last_output is_open [] = ([], stopped [])
last_output true (b ∷ bs) = ((b ∷ bs) ∷ [], stopped [])
last_output false (b ∷ bs) = ([], stopped (b ∷ bs))

unfoldable pub after_read : Reader → Turn → Reading → List (List ℕ) × Next
unfolding send_all last_output
after_read r t (bytes []) = ([], goes_on r)
after_read r t (bytes (b ∷ bs)) =
    let buffer = r.buffer ++ b ∷ bs in
    if should_send r buffer t.read_at
    then send_all t.is_open t.read_at (chunks buffer) buffer
    else ([], goes_on (record r { buffer = buffer; consecutive_errors = 0 }))
after_read r t gone = last_output t.is_open r.buffer
after_read r t broken =
    if leb 10 (r.consecutive_errors + 1)
    then ([], stopped r.buffer)
    else ([], goes_on (record r { consecutive_errors = r.consecutive_errors + 1 }))

-- The end of a turn: what waits longer than the timeout is sent.
unfoldable pub flush : Turn → Reader → List ℕ → List (List ℕ) × Next
flush t r [] = ([], goes_on r)
flush t r (b ∷ bs) =
    if ltb 50 (t.ended_at - r.last_send)
    then (if t.is_open
        then ((b ∷ bs) ∷ [], goes_on (record r { buffer = []; last_send = t.ended_at }))
        else ([], stopped (b ∷ bs)))
    else ([], goes_on r)

unfoldable pub then_flush : Turn → List (List ℕ) × Next → List (List ℕ) × Next
unfolding flush
then_flush t (sent, stopped buffer) = (sent, stopped buffer)
then_flush t (sent, goes_on r) = let (more, next) = flush t r r.buffer in (sent ++ more, next)

unfoldable pub turn : Reader → Turn → List (List ℕ) × Next
unfolding after_read then_flush
turn r t = if t.present then then_flush t (after_read r t t.reading) else ([], stopped r.buffer)

unfoldable pub then_run :
    (Reader → List (List ℕ) × Next) → List (List ℕ) × Next → List (List ℕ) × Next
then_run f (sent, stopped buffer) = (sent, stopped buffer)
then_run f (sent, goes_on r) = let (more, next) = f r in (sent ++ more, next)

unfoldable pub terminal_output_reader : Reader → List Turn → List (List ℕ) × Next
unfolding then_run turn
terminal_output_reader r [] = ([], goes_on r)
terminal_output_reader r (t ∷ ts) = then_run (λ r'. terminal_output_reader r' ts) (turn r t)
