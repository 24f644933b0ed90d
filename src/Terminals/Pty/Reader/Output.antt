-- ===== src/Terminals/Pty/Reader/Output.antt =====
-- That no output is lost on the way, or sent twice.
use aero_nyx_private_ed.Base.{
  ℕ, zero, suc, ◌+◌, ◌-◌, ◌≡◌, ◌∙◌, refl, sym, ap, Bool, true, false, List, [], ◌∷◌, ◌++◌, leb, ltb,
  if◌then◌else◌,
}
use aero_nyx_private_ed.Terminals.Pty.Reader.{
  Reader, Reading, bytes, gone, broken, Turn, Next, goes_on, stopped, chunks_from, chunks,
  should_send, send_all, last_output, after_read, flush, then_flush, turn, then_run,
  terminal_output_reader,
}

-- The bytes of a list of messages.
unfoldable pub joined : List (List ℕ) → List ℕ
joined [] = []
joined (m ∷ ms) = m ++ joined ms

abbrev pub pending : Next → List ℕ
pending (goes_on r) = r.buffer
pending (stopped buffer) = buffer

abbrev pub data_of : Reading → List ℕ
data_of (bytes bs) = bs
data_of gone = []
data_of broken = []

append_assoc : (xs ys zs : List ℕ) → (xs ++ ys) ++ zs ≡ xs ++ (ys ++ zs)
append_assoc [] ys zs = refl
append_assoc (x ∷ xs) ys zs = ap (λ l. x ∷ l) (append_assoc xs ys zs)

append_nil : (xs : List ℕ) → xs ++ [] ≡ xs
append_nil [] = refl
append_nil (x ∷ xs) = ap (λ l. x ∷ l) (append_nil xs)

joined-append : (ms ns : List (List ℕ)) → joined (ms ++ ns) ≡ joined ms ++ joined ns
unfolding joined
joined-append [] ns = refl
joined-append (m ∷ ms) ns =
    ap (λ l. m ++ l) (joined-append ms ns) ∙ sym (append_assoc m (joined ms) (joined ns))

joined-chunks_from :
    (size room : ℕ) (current bs : List ℕ)
    → joined (chunks_from size room current bs) ≡ current ++ bs
unfolding joined chunks_from
joined-chunks_from size room current [] = refl
joined-chunks_from size zero current (b ∷ bs) =
    ap (λ l. current ++ l) (joined-chunks_from size size (b ∷ []) bs)
joined-chunks_from size (suc room) current (b ∷ bs) =
    joined-chunks_from size room (current ++ b ∷ []) bs ∙ append_assoc current (b ∷ []) bs

joined-chunks : (bs : List ℕ) → joined (chunks bs) ≡ bs
unfolding joined chunks
joined-chunks [] = refl
joined-chunks (b ∷ bs) = joined-chunks_from 1048575 1048575 (b ∷ []) bs

-- What a part of a turn sends and leaves is what there was.
abbrev Accounts : List (List ℕ) × Next → List ℕ → Type 0
Accounts (sent, next) total = joined sent ++ pending next ≡ total

either-Accounts :
    (b : Bool) (p q : List (List ℕ) × Next) (total : List ℕ)
    → Accounts p total
    → Accounts q total
    → Accounts (if b then p else q) total
either-Accounts true p q total h k = h
either-Accounts false p q total h k = k

send_all-Accounts :
    (is_open : Bool) (now : ℕ) (messages : List (List ℕ)) (buffer : List ℕ)
    → joined messages ≡ buffer
    → Accounts (send_all is_open now messages buffer) buffer
unfolding send_all joined
send_all-Accounts true now messages buffer h = append_nil (joined messages) ∙ h
send_all-Accounts false now messages buffer h = refl

last_output-Accounts :
    (is_open : Bool) (buffer : List ℕ) → Accounts (last_output is_open buffer) buffer
unfolding last_output joined
last_output-Accounts is_open [] = refl
last_output-Accounts true (b ∷ bs) = append_nil ((b ∷ bs) ++ []) ∙ append_nil (b ∷ bs)
last_output-Accounts false (b ∷ bs) = refl

after_read-Accounts :
    (r : Reader) (t : Turn) (reading : Reading)
    → Accounts (after_read r t reading) (r.buffer ++ data_of reading)
unfolding after_read joined
after_read-Accounts r t (bytes []) = sym (append_nil r.buffer)
after_read-Accounts r t (bytes (b ∷ bs)) =
    let buffer = r.buffer ++ b ∷ bs in
    either-Accounts (should_send r buffer t.read_at) _ _ buffer
      (send_all-Accounts t.is_open t.read_at (chunks buffer) buffer (joined-chunks buffer)) refl
after_read-Accounts r t gone = last_output-Accounts t.is_open r.buffer ∙ sym (append_nil r.buffer)
after_read-Accounts r t broken =
    either-Accounts (leb 10 (r.consecutive_errors + 1)) _ _ (r.buffer ++ [])
      (sym (append_nil r.buffer)) (sym (append_nil r.buffer))

flush-Accounts :
    (t : Turn) (r : Reader) (buffer : List ℕ)
    → r.buffer ≡ buffer
    → Accounts (flush t r buffer) buffer
unfolding flush joined
flush-Accounts t r [] h = h
flush-Accounts t r (b ∷ bs) h =
    either-Accounts (ltb 50 (t.ended_at - r.last_send)) _ _ (b ∷ bs)
      (either-Accounts t.is_open _ _ (b ∷ bs) (append_nil ((b ∷ bs) ++ []) ∙ append_nil (b ∷ bs))
        refl)
      h

then_flush-Accounts :
    (t : Turn) (p : List (List ℕ) × Next) (total : List ℕ)
    → Accounts p total
    → Accounts (then_flush t p) total
unfolding then_flush
then_flush-Accounts t (sent, stopped buffer) total h = h
then_flush-Accounts t (sent, goes_on r) total h =
    let p = flush t r r.buffer in
    ap (λ l. l ++ pending p.1) (joined-append sent p.0)
    ∙ append_assoc (joined sent) (joined p.0) (pending p.1)
    ∙ ap (λ l. joined sent ++ l) (flush-Accounts t r r.buffer refl)
    ∙ h

-- What a turn reads, if the session is there.
abbrev pub read_by : Turn → List ℕ
read_by t = if t.present then data_of t.reading else []

present-Accounts :
    (present : Bool) (p : List (List ℕ) × Next) (buffer more : List ℕ)
    → Accounts p (buffer ++ more)
    → Accounts
        (if present then p else ([], stopped buffer))
        (buffer ++ (if present then more else []))
unfolding joined
present-Accounts true p buffer more h = h
present-Accounts false p buffer more h = sym (append_nil buffer)

turn-Accounts : (r : Reader) (t : Turn) → Accounts (turn r t) (r.buffer ++ read_by t)
unfolding turn
turn-Accounts r t = present-Accounts t.present _ r.buffer (data_of t.reading) (
    then_flush-Accounts t (after_read r t t.reading) (r.buffer ++ data_of t.reading)
      (after_read-Accounts r t t.reading))

-- What is read after a turn, unless the loop stopped.
abbrev pub following : Next → (Reader → List ℕ) → List ℕ
following (goes_on r) read = read r
following (stopped buffer) read = []

-- What the session gave while the loop ran.
unfoldable pub received : Reader → List Turn → List ℕ
received r [] = []
received r (t ∷ ts) = read_by t ++ following (turn r t).1 (λ r'. received r' ts)

then_run-Accounts :
    (f : Reader → List (List ℕ) × Next) (read : Reader → List ℕ) (p : List (List ℕ) × Next)
    (total : List ℕ)
    → ((r : Reader) → Accounts (f r) (r.buffer ++ read r))
    → Accounts p total
    → Accounts (then_run f p) (total ++ following p.1 read)
unfolding then_run
then_run-Accounts f read (sent, stopped buffer) total rest h = h ∙ sym (append_nil total)
then_run-Accounts f read (sent, goes_on r) total rest h =
    let p = f r in
    ap (λ l. l ++ pending p.1) (joined-append sent p.0)
    ∙ append_assoc (joined sent) (joined p.0) (pending p.1)
    ∙ ap (λ l. joined sent ++ l) (rest r)
    ∙ sym (append_assoc (joined sent) r.buffer (read r))
    ∙ ap (λ l. l ++ read r) h

-- After any turns, also where the loop stopped: the bytes that were sent, followed by those still in
-- the buffer that were not sent, are the bytes that were in the buffer, followed by all that was read,
-- in order.
pub terminal_output_reader-conserves :
    (r : Reader) (ts : List Turn)
    → joined (terminal_output_reader r ts).0 ++ pending (terminal_output_reader r ts).1
      ≡ r.buffer ++ received r ts
unfolding terminal_output_reader received joined
terminal_output_reader-conserves r [] = sym (append_nil r.buffer)
terminal_output_reader-conserves r (t ∷ ts) =
    then_run-Accounts _ (λ r'. received r' ts) (turn r t) (r.buffer ++ read_by t)
      (λ r'. terminal_output_reader-conserves r' ts) (turn-Accounts r t)
    ∙ append_assoc r.buffer (read_by t) (following (turn r t).1 (λ r'. received r' ts))

-- A session that is closed between two turns takes what is in the buffer with it.
pub terminal_output_reader_closed :
    (r : Reader) (t : Turn) (ts : List Turn)
    → t.present ≡ false
    → terminal_output_reader r (t ∷ ts) ≡ ([], stopped r.buffer)
unfolding terminal_output_reader turn then_run
terminal_output_reader_closed r t ts absent = rw absent
